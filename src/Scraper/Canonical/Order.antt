-- ===== src/Scraper/Canonical/Order.antt =====
-- The canonical form of internal/scraper/canonical.go forgets the order in which upstream lists things.
use classroom.Base.{
  ℕ, ◌≡◌, refl, sym, ◌∙◌, ap, ◌⊎◌, inl, inr, Bool, true, false, String, List, [], ◌∷◌, str_eq,
  eq_iff, arith, Bool-cases,
}
use classroom.Domain.Snapshot.{course_catalog}
use classroom.Domain.Classroom.{CourseSummary}
use classroom.Scraper.Codec.{Codec, courses}
use classroom.Scraper.Canonical.{
  insert_sorted, sort_stable, course_less, canonical_value, canonicalize,
}

-- One list is the other in another order: neighbours with different keys may change places.
pub data Reordered {A : Type 0} (key : A → String) : List A → List A → Type 0 where
  done : Reordered key [] []
  keep : (x : A) {xs ys : List A} → Reordered key xs ys → Reordered key (x ∷ xs) (x ∷ ys)
  swap :
      (x y : A) (xs : List A)
      → str_eq (key x) (key y) ≡ false
      → Reordered key (x ∷ y ∷ xs) (y ∷ x ∷ xs)
  also : {xs ys zs : List A} → Reordered key xs ys → Reordered key ys zs → Reordered key xs zs

module _ {A : Type 0} (less : A → A → Bool) where
  abbrev Precedes : A → A → Type 0
  Precedes x y =
      (less x y ≡ true) × (less y x ≡ false) × ((z : A) → less z x ≡ true → less z y ≡ true)

  insert_comm :
      (x y : A) (l : List A)
      → Precedes x y
      → insert_sorted less x (insert_sorted less y l)
        ≡ insert_sorted less y (insert_sorted less x l)
  unfolding insert_sorted
  insert_comm x y [] (lt, ge, up) = rw (lt, ge) refl
  insert_comm x y (z ∷ zs) (lt, ge, up) =
      let rest = insert_comm x y zs (lt, ge, up) in let above = up z in ground arith

  -- A stable sort by an order that tells different keys apart forgets the order of its input.
  sort_stable-Reordered :
      (key : A → String)
      → ((x y : A) → str_eq (key x) (key y) ≡ false → Precedes x y ⊎ Precedes y x)
      → (xs ys : List A) → Reordered key xs ys
      → sort_stable less xs ≡ sort_stable less ys
  unfolding sort_stable
  sort_stable-Reordered key tells xs ys done = refl
  sort_stable-Reordered key tells xs ys (keep x r) =
      ap (insert_sorted less x) (sort_stable-Reordered key tells _ _ r)
  sort_stable-Reordered key tells xs ys (swap x y l e) = elim (tells x y e) [
    | inl p ↦ insert_comm x y (sort_stable less l) p
    | inr p ↦ sym (insert_comm y x (sort_stable less l) p)
  ]
  sort_stable-Reordered key tells xs ys (also r q) =
      sort_stable-Reordered key tells _ _ r ∙ sort_stable-Reordered key tells _ _ q

-- `before`, which is `<` on strings, is a strict total order.
pub record IsOrder (before : String → String → Bool) : Type 0 where
  pub asym : (a b : String) → before a b ≡ true → before b a ≡ false
  pub total : (a b : String) → str_eq a b ≡ false → before a b ≡ false → before b a ≡ true
  pub trans : (a b d : String) → before a b ≡ true → before b d ≡ true → before a d ≡ true

str_eq-sym : (a b : String) → str_eq a b ≡ false → str_eq b a ≡ false
str_eq-sym a b h = ground (arith, eq_iff a b, eq_iff b a)

module _ (c : Codec) (order : IsOrder c.before) where
  course-Precedes :
      (x y : CourseSummary)
      → str_eq x.course_id y.course_id ≡ false
      → c.before x.course_id y.course_id ≡ true
      → Precedes (course_less c) x y
  course-Precedes x y e lt = (
    rw e lt,
    ground (
      arith,
      eq_iff x.course_id y.course_id,
      eq_iff y.course_id x.course_id,
      order.asym x.course_id y.course_id,
    ),
    λ z h. ground (
      arith,
      eq_iff x.course_id y.course_id,
      eq_iff z.course_id x.course_id,
      eq_iff z.course_id y.course_id,
      order.asym x.course_id y.course_id,
      order.trans z.course_id x.course_id y.course_id,
    ),
  )

  course_tells :
      (x y : CourseSummary)
      → str_eq x.course_id y.course_id ≡ false
      → Precedes (course_less c) x y ⊎ Precedes (course_less c) y x
  course_tells x y e = elim (Bool-cases (c.before x.course_id y.course_id)) [
    | inl lt ↦ inl (course-Precedes x y e lt)
    | inr ge ↦ inr (
        course-Precedes y x (str_eq-sym x.course_id y.course_id e)
          (order.total x.course_id y.course_id e ge))
  ]

  -- A catalog that upstream lists in another order, with different ids in what changes places, has the
  -- same canonical payload, hash and count, or the same refusal.
  pub canonicalize-Reordered :
      (max_bytes : ℕ) (xs ys : List CourseSummary)
      → Reordered (λ (x : CourseSummary). x.course_id) xs ys
      → canonicalize c max_bytes course_catalog (courses xs)
        ≡ canonicalize c max_bytes course_catalog (courses ys)
  unfolding canonicalize canonical_value
  canonicalize-Reordered max_bytes xs ys r =
      rw
        (sort_stable-Reordered (course_less c) (λ (x : CourseSummary). x.course_id) course_tells xs
          ys r)
        refl
