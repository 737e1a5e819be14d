-- ===== src/Scraper/Canonical.antt =====
-- internal/scraper/canonical.go: the canonical form of a fetched value, its hash and its record count.
pub mod Order
use classroom.Base.{
  ℕ, Bool, true, false, ◌||◌, ◌&&◌, not, String, Option, none, some, List, [], ◌∷◌, ltb, leb, ◌==◌,
  str_eq, if◌then◌else◌, length, map,
}
use classroom.Domain.Snapshot.{
  SnapshotKind, course_catalog, course_detail, session_detail, student_profiles, other,
}
use classroom.Domain.Classroom.{
  CourseSummary, SessionSummary, CourseDetail, StudentCheckin, SessionDetail, StudentProfile,
}
use classroom.Scraper.Codec.{Codec, Value, courses, course, session, profiles, unrecognized}

-- `sort.SliceStable`, as a stable insertion: `x` goes before what it is not after.
module _ {A : Type 0} (less : A → A → Bool) where
  unfoldable pub insert_sorted : A → List A → List A
  insert_sorted x [] = x ∷ []
  insert_sorted x (y ∷ ys) =
      let rest = insert_sorted x ys in if less y x then y ∷ rest else x ∷ y ∷ ys

  unfoldable pub sort_stable : List A → List A
  sort_stable [] = []
  sort_stable (x ∷ xs) = insert_sorted x (sort_stable xs)

abbrev pub course_less : Codec → CourseSummary → CourseSummary → Bool
course_less c a b =
    if str_eq a.course_id b.course_id
    then c.before a.name b.name
    else c.before a.course_id b.course_id

abbrev pub session_less : Codec → SessionSummary → SessionSummary → Bool
session_less c a b =
    if a.session_number == b.session_number
    then c.before a.session_id b.session_id
    else ltb a.session_number b.session_number

abbrev pub student_less : Codec → StudentCheckin → StudentCheckin → Bool
student_less c a b =
    if str_eq a.student_id b.student_id
    then c.before a.name b.name
    else c.before a.student_id b.student_id

abbrev pub profile_less : Codec → StudentProfile → StudentProfile → Bool
profile_less c a b =
    if str_eq a.student_guid b.student_guid
    then (if str_eq a.student_id b.student_id
        then c.before a.full_name b.full_name
        else c.before a.student_id b.student_id)
    else c.before a.student_guid b.student_guid

abbrev pub normalize_option : Codec → Option String → Option String
normalize_option c none = none
normalize_option c (some s) = some (c.normalize_time s)

abbrev pub normalize_student : Codec → StudentCheckin → StudentCheckin
normalize_student c s = record s { checked_in_at = normalize_option c s.checked_in_at }

-- `canonicalValue`; `none` is its error, a value that does not fit the kind.
unfoldable pub canonical_value : Codec → SnapshotKind → Value → Option Value
unfolding sort_stable
canonical_value c course_catalog (courses xs) = some (courses (sort_stable (course_less c) xs))
canonical_value c course_detail (course d) =
    some (course (record d { sessions = sort_stable (session_less c) d.sessions }))
canonical_value c session_detail (session d) = some (
    session (record d {
      students = sort_stable (student_less c) (map (normalize_student c) d.students);
      qr_expires_at = normalize_option c d.qr_expires_at;
    }))
canonical_value c student_profiles (profiles xs) = some (profiles (sort_stable (profile_less c) xs))
canonical_value c _ _ = none

-- `countRecords`.
unfoldable pub count_records : Value → ℕ
count_records (courses xs) = length xs
count_records (profiles xs) = length xs
count_records _ = 0

pub record Canonical : Type 0 where
  pub payload : String
  pub hash : String
  pub count : ℕ

-- `Canonicalize`, under a limit on the size of the payload.
unfoldable pub canonicalize : Codec → ℕ → SnapshotKind → Value → Option Canonical
unfolding canonical_value count_records
canonicalize c max_bytes kind v = if max_bytes == 0 then none else elim (canonical_value c kind v) [
  | none ↦ none
  | some normal ↦
      if ltb max_bytes (c.size (c.encode normal))
      then none
      else some (record {
        payload = c.encode normal;
        hash = c.hash (c.encode normal);
        count = count_records normal;
      })
]
