-- ===== src/Scraper/Validation.antt =====
-- internal/scraper/validation.go: the checks on a fetched value and the classification of a change.
use classroom.Base.{
  ℕ, ◌+◌, ◌-◌, ◌*◌, Bool, true, false, ◌||◌, ◌&&◌, not, String, Option, none, some, List, [], ◌∷◌,
  ltb, leb, ◌==◌, str_eq, if◌then◌else◌, length, map,
}
use classroom.Domain.Snapshot.{
  SnapshotKind, course_catalog, course_detail, session_detail, student_profiles,
}
use classroom.Domain.Classroom.{
  CourseSummary, SessionSummary, StudentCheckin, StudentProfile, known_session_status,
}
use classroom.Scraper.Codec.{Codec, Value, courses, course, session, profiles, is_blank}

abbrev pub is_member : String → List String → Bool
is_member k [] = false
is_member k (x ∷ xs) = str_eq k x || is_member k xs

-- The two checks on the identities of every kind: none is blank, and none occurs twice. `seen` are
-- those before.
unfoldable pub valid_ids : Codec → List String → List String → Bool
valid_ids c seen [] = true
valid_ids c seen (x ∷ xs) =
    let rest = valid_ids c (x ∷ seen) xs in not (is_blank c x) && not (is_member x seen) && rest

-- The checks on the status and the date of a session.
unfoldable pub valid_session : Codec → SessionSummary → Bool
unfolding known_session_status
valid_session c s =
    (is_blank c s.status || known_session_status (c.trim s.status))
    && (str_eq s.date "" || c.valid_date s.date)

unfoldable pub all_sessions : Codec → List SessionSummary → Bool
all_sessions c [] = true
all_sessions c (s ∷ ss) = valid_session c s && all_sessions c ss

unfoldable pub checked_in_of : List StudentCheckin → ℕ
checked_in_of [] = 0
checked_in_of (s ∷ ss) = (if s.checked_in then 1 else 0) + checked_in_of ss

abbrev pub course_ids : List CourseSummary → List String
course_ids xs = map (λ (x : CourseSummary). x.course_id) xs

abbrev pub session_ids : List SessionSummary → List String
session_ids xs = map (λ (x : SessionSummary). x.session_id) xs

abbrev pub student_ids : List StudentCheckin → List String
student_ids xs = map (λ (x : StudentCheckin). x.student_id) xs

abbrev pub profile_ids : List StudentProfile → List String
profile_ids xs = map (λ (x : StudentProfile). x.student_id) xs

-- The warnings of a catalog and of the profiles, by their codes.
unfoldable pub course_warnings : Codec → List CourseSummary → List String
course_warnings c [] = []
course_warnings c (x ∷ xs) =
    let rest = course_warnings c xs in
    let status = if is_blank c x.status then "missing_status" ∷ rest else rest in
    if is_blank c x.name then "missing_name" ∷ status else status

unfoldable pub profile_warnings : Codec → List StudentProfile → List String
profile_warnings c [] = []
profile_warnings c (x ∷ xs) =
    let rest = profile_warnings c xs in
    let named = if is_blank c x.full_name then "missing_full_name" ∷ rest else rest in
    if is_blank c x.student_guid then "missing_student_guid" ∷ named else named

-- `ValidatedPayload`, with the value as its raw field.
pub record Validated : Type 0 where
  pub kind : SnapshotKind
  pub raw : Value
  pub record_count : ℕ
  pub distinct_ids : ℕ
  pub warnings : List String

abbrev pub validated_of : SnapshotKind → Value → ℕ → List String → Validated
validated_of k v n ws = record {
  kind = k;
  raw = v;
  record_count = n;
  distinct_ids = n;
  warnings = ws;
}

abbrev pub key_matches : String → String → Bool
key_matches key id = str_eq key "" || str_eq id key

-- `ValidatePayload`; `none` is any of its errors.
unfoldable pub validate_payload : Codec → SnapshotKind → Value → String → Option Validated
unfolding valid_ids all_sessions checked_in_of course_warnings profile_warnings
validate_payload c course_catalog (courses xs) key =
    if valid_ids c [] (course_ids xs)
    then some (validated_of course_catalog (courses xs) (length xs) (course_warnings c xs))
    else none
validate_payload c course_detail (course d) key =
    if key_matches key d.course_id
      && valid_ids c [] (session_ids d.sessions)
      && all_sessions c d.sessions
    then some (validated_of course_detail (course d) (length d.sessions) [])
    else none
validate_payload c session_detail (session d) key =
    if key_matches key d.session_id
      && valid_ids c [] (student_ids d.students)
      && checked_in_of d.students == d.checked_in_count
    then some (validated_of session_detail (session d) (length d.students) [])
    else none
validate_payload c student_profiles (profiles xs) key =
    if valid_ids c [] (profile_ids xs)
    then some (validated_of student_profiles (profiles xs) (length xs) (profile_warnings c xs))
    else none
validate_payload c _ _ key = none

-- The set of identities that a value holds, the empty one left out.
unfoldable pub id_set : List String → List String
id_set [] = []
id_set (x ∷ xs) = let rest = id_set xs in if str_eq x "" || is_member x rest then rest else x ∷ rest

-- `validatedIDs`, and the part of `snapshotIDs` after the decoding.
unfoldable pub ids_of : SnapshotKind → Value → Option (List String)
unfolding id_set
ids_of course_catalog (courses xs) = some (id_set (course_ids xs))
ids_of course_detail (course d) = some (id_set (session_ids d.sessions))
ids_of session_detail (session d) = some (id_set (student_ids d.students))
ids_of student_profiles (profiles xs) = some (id_set (profile_ids xs))
ids_of _ _ = none

unfoldable pub count_missing : List String → List String → ℕ
count_missing [] now = 0
count_missing (x ∷ xs) now = (if is_member x now then 0 else 1) + count_missing xs now

-- More than a fifth of the records is gone. A quotient of counts below 2^50 compares with `0.20` in
-- `float64` as the fractions do.
abbrev pub is_large_drop : ℕ → ℕ → Bool
is_large_drop previous count = ltb previous (5 * (previous - count))

-- More than a tenth of the previous identities is missing.
abbrev pub many_missing : List String → List String → Bool
many_missing previous now = ltb (length previous) (10 * count_missing previous now)

-- `ClassifyChangeAgainst` under `DefaultChangeSafetyPolicy`: is the change suspicious? Without previous
-- identities the last rule is off.
unfoldable pub is_suspicious : Validated → ℕ → Option (List String) → Bool
unfolding ids_of count_missing
is_suspicious v previous ids =
    if previous == 0
    then false
    else if v.record_count == 0
    then true
    else if leb 2 previous && is_large_drop previous v.record_count
    then true
    else elim ids [
      | none ↦ false
      | some old ↦ elim (ids_of v.kind v.raw) [
        | none ↦ false
        | some now ↦ leb 2 previous && not (length old == 0) && many_missing old now
      ]
    ]
