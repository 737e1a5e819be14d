-- ===== src/Scraper/Codec.antt =====
-- What the scraper takes from Go's libraries, and the values that a fetch gives.
use classroom.Base.{ℕ, Bool, true, false, String, Option, List, str_eq, ◌≡◌}
use classroom.Domain.Snapshot.{SnapshotKind, SessionStatus}
use classroom.Domain.Classroom.{CourseSummary, CourseDetail, SessionDetail, StudentProfile}

-- The `any` of a fetched value. `unrecognized` is every other dynamic type, a nil pointer among them.
pub data Value : Type 0 where
  courses : List CourseSummary → Value
  course : CourseDetail → Value
  session : SessionDetail → Value
  profiles : List StudentProfile → Value
  unrecognized : Value

-- Encoding, decoding and text: `encode` and `decode` are `json.Marshal` and `json.Unmarshal`, `size` is
-- the length in bytes, `hash` is SHA-256, `trim` is `strings.TrimSpace`, `before` is `<` on strings,
-- `normalize_time` rewrites an RFC 3339 time to UTC, `valid_date` is whether `time.Parse` takes a date.
-- The last three make and read the attributes of a target.
pub record Codec : Type 0 where
  pub encode : Value → String
  pub decode : SnapshotKind → String → Option Value
  pub valid_json : String → Bool
  pub size : String → ℕ
  pub hash : String → String
  pub trim : String → String
  pub before : String → String → Bool
  pub normalize_time : String → String
  pub valid_date : String → Bool
  pub course_attributes : String → String → String
  pub session_attributes : String → String
  pub status_of_attributes : String → SessionStatus

-- `strings.TrimSpace(s) == ""`.
abbrev pub is_blank : Codec → String → Bool
is_blank c s = str_eq (c.trim s) ""

-- What the coordinator relies on: an encoding is a JSON text, which is never empty, no digest is the zero
-- hash, and the attributes are JSON texts.
pub record IsLawful (c : Codec) : Type 0 where
  pub hash_nonzero : (s : String) → str_eq (c.hash s) "" ≡ false
  pub encode_nonempty : (v : Value) → str_eq (c.encode v) "" ≡ false
  pub encode_valid : (v : Value) → c.valid_json (c.encode v) ≡ true
  pub course_attributes_valid :
      (name status : String) → c.valid_json (c.course_attributes name status) ≡ true
  pub session_attributes_valid :
      (status : String) → c.valid_json (c.session_attributes status) ≡ true
  pub empty_object_valid : c.valid_json "{}" ≡ true
