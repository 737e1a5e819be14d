-- ===== src/Base/Maps.antt =====
-- Maps with string keys, as association lists: a key stands in one entry.
use mathlib.Core.Path.{◌≡◌, refl}
use mathlib.Core.Option.{Option, none, some}
use mathlib.Core.List.{List, [], ◌∷◌}
use native.Mathlib.Omega.{arith}
use Prim.Native.String.{String}
use text.Mathlib.Text.{◌==◌ as str_eq}
use text.Mathlib.TextEquality.{eq_iff}
use classroom.Base.Tests.{if◌then◌else◌}

module _ {A : Type 0} where
  -- `m[k] = v`.
  abbrev pub put : String → A → List (String × A) → List (String × A)
  put k v [] = (k, v) ∷ []
  put k v ((a, b) ∷ m) = let rest = put k v m in if str_eq a k then (a, v) ∷ m else (a, b) ∷ rest

  -- `m[k]`.
  abbrev pub get : String → List (String × A) → Option A
  get k [] = none
  get k ((a, b) ∷ m) = let rest = get k m in if str_eq a k then some b else rest

  pub get-put :
      (j k : String) (v : A) (m : List (String × A))
      → get j (put k v m) ≡ (if str_eq k j then some v else get j m)
  get-put j k v [] = refl
  get-put j k v ((a, b) ∷ m) =
      let rest = get-put j k v m in ground (arith, rest, eq_iff a k, eq_iff a j, eq_iff k j)
