-- ===== src/Domain/Enrichment.antt =====
-- internal/domain/enrichment.go: public student codes in place of the upstream site's ids, and back.
pub mod Codes
use classroom.Base.{
  Bool, true, false, ◌&&◌, ◌||◌, not, String, Option, none, some, List, [], ◌∷◌, str_eq,
  if◌then◌else◌, put, get, map,
}
use classroom.Domain.Classroom.{StudentCheckin, StudentProfile}

-- `buildGUIDToWCodeMap`: the loop, from the map so far.
unfoldable pub build_codes : List (String × String) → List StudentProfile → List (String × String)
build_codes m [] = m
build_codes m (p ∷ ps) =
    build_codes
      (if not (str_eq p.student_id "") && not (str_eq p.student_guid "")
        then put p.student_guid p.student_id m
        else m)
      ps

-- The loop of `EnrichCheckinStudentIDWithWCode`; an empty map changes nothing.
abbrev pub enrich_one : List (String × String) → StudentCheckin → StudentCheckin
enrich_one codes s = elim (get s.student_id codes) [
  | none ↦ s
  | some code ↦ record s { student_id = code }
]

-- `EnrichCheckinStudentIDWithWCode`.
unfoldable pub enrich_checkins : List StudentCheckin → List StudentProfile → List StudentCheckin
unfolding build_codes
enrich_checkins students profiles = map (enrich_one (build_codes [] profiles)) students

-- Membership in the set of the roster's ids, the empty one left out.
unfoldable pub on_roster : String → List StudentCheckin → Bool
on_roster id [] = false
on_roster id (s ∷ ss) = (not (str_eq s.student_id "") && str_eq s.student_id id) || on_roster id ss

-- The loop over the profiles.
unfoldable pub find_guid : String → List StudentCheckin → List StudentProfile → Option String
unfolding on_roster
find_guid code students [] = none
find_guid code students (p ∷ ps) =
    let rest = find_guid code students ps in
    if not (str_eq p.student_id code) || str_eq p.student_guid ""
    then rest
    else if on_roster p.student_guid students
    then some p.student_guid
    else rest

-- `ResolveCheckinStudentID`.
unfoldable pub resolve_student : String → List StudentCheckin → List StudentProfile → Option String
unfolding on_roster find_guid
resolve_student code students profiles =
    if str_eq code ""
    then none
    else if on_roster code students
    then some code
    else find_guid code students profiles
