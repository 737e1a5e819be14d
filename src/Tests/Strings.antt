-- ===== src/Tests/Strings.antt =====
-- An order on strings, by their characters, for the runs that sort.
use Prim.Native.Char.{Char, code}
use Prim.Native.String.{String, [], ◌∷◌}
use Prim.Native.Nat.{compare as compare_ℕ, Ordering}
use text.Mathlib.TextEquality.{codes_equal}
use classroom.Base.{
  ◌≡◌, refl, ◌⊎◌, inl, inr, Bool, true, false, ltb, ◌==◌, if◌then◌else◌, arith, str_eq, eq_iff,
  Bool-cases,
}
use classroom.Scraper.Canonical.Order.{IsOrder}

unfoldable pub str_before : String → String → Bool
str_before [] [] = false
str_before [] (d ∷ t) = true
str_before (c ∷ s) [] = false
str_before (c ∷ s) (d ∷ t) =
    let rest = str_before s t in
    if ltb (code c) (code d) then true else if code c == code d then rest else false

asym : (a b : String) → str_before a b ≡ true → str_before b a ≡ false
unfolding str_before
asym [] [] h = refl
asym [] (d ∷ t) h = refl
asym (c ∷ s) [] h = cc
asym (c ∷ s) (d ∷ t) h = let rest = asym s t in ground (arith, rest)

same_code : (c d : Char) → (code c == code d) ≡ true → c ≡ d
same_code c d h = codes_equal c d (is_same (compare_ℕ (code c) (code d)) h)
  where
    is_same : (o : Ordering) → (elim o [ Ordering.eq ↦ true | _ ↦ false ]) ≡ true → o ≡ Ordering.eq
    is_same Ordering.lt h = cc
    is_same Ordering.eq h = refl
    is_same Ordering.gt h = cc

trichotomy : (a b : String) → (a ≡ b) ⊎ ((str_before a b ≡ true) ⊎ (str_before b a ≡ true))
unfolding str_before
trichotomy [] [] = inl refl
trichotomy [] (d ∷ t) = inr (inl refl)
trichotomy (c ∷ s) [] = inr (inr refl)
trichotomy (c ∷ s) (d ∷ t) = elim (Bool-cases (code c == code d)) [
  | inl e ↦ elim (trichotomy s t) [
    | inl p ↦ inl (λ i. same_code c d e i ∷ p i)
    | inr (inl p) ↦ inr (inl (ground (arith, p)))
    | inr (inr p) ↦ inr (inr (ground (arith, p)))
  ]
  | inr e ↦ elim (Bool-cases (ltb (code c) (code d))) [
    | inl p ↦ inr (inl (ground arith))
    | inr p ↦ inr (inr (ground arith))
  ]
]

total : (a b : String) → str_eq a b ≡ false → str_before a b ≡ false → str_before b a ≡ true
total a b e h = elim (trichotomy a b) [
  | inl p ↦ ground (arith, eq_iff a b, p)
  | inr (inl p) ↦ cc
  | inr (inr p) ↦ p
]

trans : (a b d : String) → str_before a b ≡ true → str_before b d ≡ true → str_before a d ≡ true
unfolding str_before
trans [] [] d h k = cc
trans [] (y ∷ b) [] h k = cc
trans [] (y ∷ b) (z ∷ d) h k = refl
trans (x ∷ a) [] d h k = cc
trans (x ∷ a) (y ∷ b) [] h k = cc
trans (x ∷ a) (y ∷ b) (z ∷ d) h k = let rest = trans a b d in ground (arith, rest)

pub str_before-IsOrder : IsOrder str_before
str_before-IsOrder = record { asym = asym; total = total; trans = trans }
