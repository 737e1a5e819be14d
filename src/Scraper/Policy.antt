-- ===== src/Scraper/Policy.antt =====
-- internal/scraper/policy.go: refresh policies, the adaptive interval, and the delays after failures.
-- A duration is a count of nanoseconds, and none of them is negative.
pub mod Interval
pub mod Delays
use classroom.Base.{
  ℕ, zero, suc, ◌+◌, ◌-◌, ◌*◌, ◌/◌, ◌^◌, Bool, true, false, ◌&&◌, Option, none, some, List, [], ◌∷◌,
  ◌++◌, ltb, leb, ◌==◌, if◌then◌else◌, length, drop, not,
}
use classroom.Domain.Snapshot.{
  SnapshotKind, course_catalog, course_detail, session_detail, student_profiles, other,
  SessionStatus, done, not_started,
}

abbrev pub second : ℕ
second = 1_000_000_000

abbrev pub minute : ℕ
minute = 60 * second

abbrev pub hour : ℕ
hour = 60 * minute

abbrev pub day : ℕ
day = 24 * hour

pub data Outcome : Type 0 where
  changed unchanged not_modified : Outcome

abbrev pub is_changed : Outcome → Bool
is_changed changed = true
is_changed _ = false

pub record Policy : Type 0 where
  pub initial : ℕ
  pub min_interval : ℕ
  pub max_interval : ℕ
  pub max_serve_age : ℕ

pub record Schedule : Type 0 where
  pub interval : ℕ
  pub history : List Bool

unfoldable pub session_policy : SessionStatus → Policy
session_policy done = record {
  initial = 12 * hour;
  min_interval = hour;
  max_interval = 30 * day;
  max_serve_age = 45 * day;
}
session_policy not_started = record {
  initial = hour;
  min_interval = 15 * minute;
  max_interval = 12 * hour;
  max_serve_age = day;
}
session_policy _ = record {
  initial = 5 * minute;
  min_interval = minute;
  max_interval = 30 * minute;
  max_serve_age = 2 * hour;
}

abbrev course_policy : Policy
course_policy = record {
  initial = hour;
  min_interval = 15 * minute;
  max_interval = day;
  max_serve_age = 48 * hour;
}

-- `PolicyFor`.
unfoldable pub policy_for : SnapshotKind → SessionStatus → Policy
unfolding session_policy
policy_for course_catalog status = course_policy
policy_for course_detail status = course_policy
policy_for session_detail status = session_policy status
policy_for student_profiles status = record {
  initial = day;
  min_interval = 6 * hour;
  max_interval = 7 * day;
  max_serve_age = 14 * day;
}
policy_for (other s) status = record {
  initial = 0;
  min_interval = 0;
  max_interval = 0;
  max_serve_age = 0;
}

-- `allUnchanged`.
unfoldable pub all_unchanged : List Bool → Bool
all_unchanged [] = true
all_unchanged (c ∷ cs) = not c && all_unchanged cs

-- The two fallbacks at the head of `NextSchedule`.
abbrev pub start_interval : Policy → ℕ → ℕ
start_interval p current =
    let c = if current == 0 then p.initial else current in if c == 0 then p.min_interval else c

-- The history with the newest entry, cut to the last ten.
abbrev pub push_history : List Bool → Bool → List Bool
push_history history c =
    let next = history ++ c ∷ [] in
    if ltb 10 (length next) then drop (length next - 10) next else next

-- Rounding `1.5 * n` half away from zero. A `float64` is exact here below 2^52 nanoseconds, which
-- is 52 days.
abbrev pub grow : ℕ → ℕ
grow n = (3 * n + 1) / 2

abbrev pub adapt : Bool → List Bool → ℕ → ℕ
adapt c next current =
    if c
    then current / 2
    else if length next == 10 && all_unchanged next
    then current * 2
    else grow current

-- The bounds at the end of `NextSchedule`; a bound of 0 is none.
abbrev pub clamp_interval : Policy → ℕ → ℕ
clamp_interval p n =
    let low = if ltb 0 p.min_interval && ltb n p.min_interval then p.min_interval else n in
    if ltb 0 p.max_interval && ltb p.max_interval low then p.max_interval else low

-- `NextSchedule`.
unfoldable pub next_schedule : Policy → ℕ → List Bool → Outcome → Schedule
unfolding all_unchanged
next_schedule p current history outcome =
    let next = push_history history (is_changed outcome) in
    record {
      interval = clamp_interval p (adapt (is_changed outcome) next (start_interval p current));
      history = next;
    }

-- `FailureDelay`. The count of failures is not negative; `1 << (n - 1)` is a power of two.
unfoldable pub failure_delay : ℕ → ℕ
failure_delay n =
    if leb n 1
    then minute
    else if ltb 7 n
    then hour
    else let delay = minute * 2 ^ (n - 1) in if ltb hour delay then hour else delay

-- `HostPauseFor429`. `now.Sub(last)` stops at 0 where Go's is negative: both are at most an hour.
unfoldable pub host_pause_for_429 : ℕ → Option ℕ → ℕ → ℕ
host_pause_for_429 now last_429 retry_after =
    let base = 15 * minute in
    let pause = if ltb base retry_after then retry_after else base in
    elim last_429 [
      | none ↦ pause
      | some last ↦
          if not (last == 0) && leb (now - last) hour
          then if ltb pause hour then hour else pause
          else pause
    ]

-- `LateCorrectionPolicy`. A session completed in the future has a negative age, below a day as 0 is.
unfoldable pub late_correction_policy : ℕ → ℕ → Policy
late_correction_policy completed_at now =
    let age = now - completed_at in
    if ltb age day
    then record {
      initial = 5 * minute;
      min_interval = 5 * minute;
      max_interval = 30 * minute;
      max_serve_age = 0;
    }
    else if ltb age (7 * day)
    then record { initial = hour; min_interval = hour; max_interval = 6 * hour; max_serve_age = 0 }
    else if ltb age (30 * day)
    then record { initial = day; min_interval = day; max_interval = day; max_serve_age = 0 }
    else record {
      initial = 7 * day;
      min_interval = 7 * day;
      max_interval = 7 * day;
      max_serve_age = 0;
    }
