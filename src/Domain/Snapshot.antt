-- ===== src/Domain/Snapshot.antt =====
-- internal/domain/snapshot.go and data_quality.go: snapshot kinds, target references, expiry and
-- the rule that says which candidates may be published.
use classroom.Base.{
  ℕ, ◌-◌, String, Bool, true, false, ◌&&◌, ◌||◌, not, Option, none, some, List, [], ◌∷◌, str_eq,
  ltb, ◌==◌, if◌then◌else◌,
}

-- A Go string type with four constants. `other` stands for every further string.
pub data SnapshotKind : Type 0 where
  course_catalog course_detail session_detail student_profiles : SnapshotKind
  other : String → SnapshotKind

-- `SnapshotKind.Valid`.
unfoldable pub valid_kind : SnapshotKind → Bool
valid_kind (other s) = false
valid_kind _ = true

abbrev pub kind_eq : SnapshotKind → SnapshotKind → Bool
kind_eq course_catalog course_catalog = true
kind_eq course_detail course_detail = true
kind_eq session_detail session_detail = true
kind_eq student_profiles student_profiles = true
kind_eq (other s) (other t) = str_eq s t
kind_eq _ _ = false

-- The session status strings that the policies tell apart.
pub data SessionStatus : Type 0 where
  active done not_started auth_error : SessionStatus
  unknown : String → SessionStatus

pub record TargetRef : Type 0 where
  pub host : String
  pub kind : SnapshotKind
  pub resource_key : String
  pub parent_key : String

abbrev pub ref_eq : TargetRef → TargetRef → Bool
ref_eq a b =
    str_eq a.host b.host
    && kind_eq a.kind b.kind
    && str_eq a.parent_key b.parent_key
    && str_eq a.resource_key b.resource_key

pub data RefError : Type 0 where
  host_required invalid_kind resource_key_required : RefError

-- `TargetRef.Validate`: `blank s` is `strings.TrimSpace(s) == ""`. `none` is the nil error.
module _ (blank : String → Bool) where
  unfoldable pub validate_ref : TargetRef → Option RefError
  unfolding valid_kind
  validate_ref r =
      if blank r.host
      then some host_required
      else if not (valid_kind r.kind)
      then some invalid_kind
      else if blank r.resource_key
      then some resource_key_required
      else none

-- `DefaultPriority`: lower numbers are claimed first.
unfoldable pub default_priority : SnapshotKind → SessionStatus → ℕ
default_priority session_detail active = 20
default_priority session_detail done = 50
default_priority session_detail not_started = 20
default_priority session_detail _ = 50
default_priority course_detail _ = 30
default_priority course_catalog _ = 40
default_priority student_profiles _ = 60
default_priority (other s) _ = 50

-- The fields of a snapshot that decide whether it may be served. A time is a count of nanoseconds,
-- 0 is the zero time.
pub record Served : Type 0 where
  pub validated_at : ℕ
  pub next_run_at : ℕ
  pub max_serve_age : ℕ

-- `Snapshot.Stale`.
unfoldable pub stale : Served → ℕ → Bool
stale s now = ltb s.next_run_at now

-- `Snapshot.Expired`. The difference of times stops at 0 where Go's is negative: neither is above
-- the age, which is positive there.
unfoldable pub expired : Served → ℕ → Bool
expired s now =
    if s.max_serve_age == 0 || s.validated_at == 0
    then true
    else ltb s.max_serve_age (now - s.validated_at)

pub data DataQuality : Type 0 where
  verified_fresh verified_stale degraded unavailable : DataQuality
  invalid : String → DataQuality

unfoldable pub valid_quality : DataQuality → Bool
valid_quality (invalid s) = false
valid_quality _ = true

abbrev pub is_fresh : DataQuality → Bool
is_fresh verified_fresh = true
is_fresh _ = false

pub data Severity : Type 0 where
  info warning error fatal : Severity

pub record Violation : Type 0 where
  pub code : String
  pub severity : Severity
  pub path : String
  pub message : String

pub record ValidationReport : Type 0 where
  pub complete : Bool
  pub requires_confirmation : Bool
  pub violations : List Violation

abbrev pub blocks : Severity → Bool
blocks error = true
blocks fatal = true
blocks _ = false

-- The loop of `CanPublish` over the violations: does one of them block?
unfoldable pub any_blocking : List Violation → Bool
any_blocking [] = false
any_blocking (v ∷ vs) = blocks v.severity || any_blocking vs

-- `ValidationReport.CanPublish`.
unfoldable pub can_publish : ValidationReport → Bool
unfolding any_blocking
can_publish r =
    if not r.complete
    then false
    else if any_blocking r.violations
    then false
    else not r.requires_confirmation
