-- ===== src/Domain/Enrichment/Codes.antt =====
-- The codes of internal/domain/enrichment.go lead back to the students that they stand for.
use classroom.Base.{
  ◌≡◌, sym, ◌∙◌, ap, subst, ◌⊎◌, inl, inr, Bool, true, false, ◌&&◌, not, String, some, List, [],
  ◌∷◌, str_eq, eq_iff, if◌then◌else◌, put, get, get-put, All, arith, Bool-cases,
}
use classroom.Domain.Classroom.{StudentCheckin, StudentProfile}
use classroom.Domain.Enrichment.{build_codes, on_roster, find_guid, resolve_student}

-- A profile says that the student `guid` has the code.
abbrev Lists : String → String → List StudentProfile → Type 0
Lists guid code [] = ⊥
Lists guid code (p ∷ ps) =
    ((p.student_guid ≡ guid) × (p.student_id ≡ code) × (str_eq code "" ≡ false))
    ⊎ Lists guid code ps

-- No code stands in two profiles.
abbrev pub IsDistinct : List StudentProfile → Type 0
IsDistinct [] = Unit
IsDistinct (p ∷ ps) =
    All (λ (q : StudentProfile). str_eq q.student_id p.student_id ≡ false) ps × IsDistinct ps

stored :
    (guid code : String) (p : StudentProfile) (ps : List StudentProfile)
    (m : List (String × String))
    → str_eq p.student_id "" ≡ false
    → get guid (put p.student_guid p.student_id m) ≡ some code
    → (get guid m ≡ some code) ⊎ Lists guid code (p ∷ ps)
stored guid code p ps m full h = elim (Bool-cases (str_eq p.student_guid guid)) [
  | inl e ↦
      let same = eq_iff p.student_guid guid in
      let code_same : p.student_id ≡ code =
        ground (arith, get-put guid p.student_guid p.student_id m, e) in
      inr (inl (ground (arith, same, e), code_same, ap (λ c. str_eq c "") (sym code_same) ∙ full))
  | inr e ↦ inl (ground (arith, get-put guid p.student_guid p.student_id m, e))
]

later :
    {A : Type 0} (guid code : String) (p : StudentProfile) (ps : List StudentProfile)
    → A ⊎ Lists guid code ps
    → A ⊎ Lists guid code (p ∷ ps)
later guid code p ps (inl a) = inl a
later guid code p ps (inr l) = inr (inr l)

build_codes-Lists :
    (guid code : String) (ps : List StudentProfile) (m : List (String × String))
    → get guid (build_codes m ps) ≡ some code
    → (get guid m ≡ some code) ⊎ Lists guid code ps
unfolding build_codes
build_codes-Lists guid code [] m h = inl h
build_codes-Lists guid code (p ∷ ps) m h =
    elim (Bool-cases (not (str_eq p.student_id "") && not (str_eq p.student_guid ""))) [
      | inr b ↦ later guid code p ps (build_codes-Lists guid code ps m (kept b))
      | inl b ↦ elim (build_codes-Lists guid code ps (put p.student_guid p.student_id m) (kept b)) [
        | inr l ↦ inr (inr l)
        | inl e ↦ stored guid code p ps m (ground (arith, b)) e
      ]
    ]
  where
    kept :
        {b : Bool}
        → (not (str_eq p.student_id "") && not (str_eq p.student_guid "")) ≡ b
        → get guid (build_codes (if b then put p.student_guid p.student_id m else m) ps) ≡ some code
    kept b =
        subst
          (λ x.
            get guid (build_codes (if x then put p.student_guid p.student_id m else m) ps)
            ≡ some code)
          b h

listed_differs :
    (guid code id : String) (ps : List StudentProfile)
    → Lists guid code ps
    → All (λ (q : StudentProfile). str_eq q.student_id id ≡ false) ps
    → str_eq id code ≡ false
listed_differs guid code id [] l d = elim l [ ]
listed_differs guid code id (p ∷ ps) (inl (g, c, e)) (d, ds) =
    ground (arith, eq_iff p.student_id id, eq_iff id code)
listed_differs guid code id (p ∷ ps) (inr l) (d, ds) = listed_differs guid code id ps l ds

find_guid-Lists :
    (guid code : String) (students : List StudentCheckin) (ps : List StudentProfile)
    → Lists guid code ps
    → IsDistinct ps
    → str_eq guid "" ≡ false
    → on_roster guid students ≡ true
    → find_guid code students ps ≡ some guid
unfolding find_guid
find_guid-Lists guid code students [] l d full there = elim l [ ]
find_guid-Lists guid code students (p ∷ ps) (inl (g, c, e)) d full there =
    ground (arith, eq_iff p.student_id code)
find_guid-Lists guid code students (p ∷ ps) (inr l) (d, ds) full there =
    let rest = find_guid-Lists guid code students ps l ds full there in
    let other = listed_differs guid code p.student_id ps l d in ground (arith, rest, other)

listed_full :
    (guid code : String) (ps : List StudentProfile) → Lists guid code ps → str_eq code "" ≡ false
listed_full guid code [] l = elim l [ ]
listed_full guid code (p ∷ ps) (inl (g, c, e)) = e
listed_full guid code (p ∷ ps) (inr l) = listed_full guid code ps l

on_roster-full :
    (id : String) (students : List StudentCheckin)
    → on_roster id students ≡ true
    → str_eq id "" ≡ false
unfolding on_roster
on_roster-full id [] h = cc
on_roster-full id (s ∷ ss) h =
    let rest = on_roster-full id ss in ground (arith, rest, eq_iff s.student_id id)

-- A student of the roster whose id has a code in the map of the profiles is found again under that code,
-- when no code stands in two profiles and the code is no id of the roster.
pub resolve_student-code :
    (guid code : String) (students : List StudentCheckin) (profiles : List StudentProfile)
    → IsDistinct profiles
    → on_roster guid students ≡ true
    → get guid (build_codes [] profiles) ≡ some code
    → on_roster code students ≡ false
    → resolve_student code students profiles ≡ some guid
unfolding resolve_student
resolve_student-code guid code students profiles distinct there coded free =
    elim (build_codes-Lists guid code profiles [] coded) [
      | inl e ↦ cc
      | inr l ↦
          let found =
            find_guid-Lists guid code students profiles l distinct
              (on_roster-full guid students there) there in
          ground (arith, found, listed_full guid code profiles l)
    ]
