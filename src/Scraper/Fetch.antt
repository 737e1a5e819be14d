-- ===== src/Scraper/Fetch.antt =====
-- The classification of a fetch and the next run after a failure, in internal/scraper/coordinator.go.
-- Status codes go into reports only and are left out.
use classroom.Base.{
  ℕ, ◌+◌, ◌*◌, max, Bool, true, ◌||◌, ◌&&◌, String, Option, none, some, ltb, leb, ◌==◌,
  if◌then◌else◌,
}
use classroom.Domain.Room.{FetchErrorKind, auth_expired, invalid_payload, auth_conflict}
use classroom.Domain.Room.{rate_limited as rate_limited_kind}
use classroom.Scraper.Codec.{Value}
use classroom.Scraper.Policy.{minute, hour, Policy, policy_for, failure_delay}
use classroom.Domain.Snapshot.{SessionStatus}
use classroom.Store.Target.{Target}
use classroom.Store.Seeds.{second}
use classroom.Store.Rows.{
  RunOutcome, unchanged, not_modified, rate_limited, auth_error, transient_error, not_found,
  permanent_error, quarantined,
}

-- `SnapshotFetchResult`.
pub record Fetched : Type 0 where
  pub value : Value
  pub etag : String
  pub last_modified : String
  pub cache_control : String
  pub raw_body_hash : String
  pub reported_count : ℕ
  pub expected_pages : ℕ
  pub fetched_pages : ℕ

-- The errors that `classifyFetch` tells apart: `ErrNotModified`, `UpstreamStatusError` with its
-- Retry-After, `FetchError` with the two sentinels of authentication, the context's two errors, and any other.
pub data FetchFailure : Type 0 where
  not_modified_error canceled deadline other_failure : FetchFailure
  upstream_status : ℕ → ℕ → FetchFailure
  fetch_failure : FetchErrorKind → FetchFailure

-- The results of `classifyFetch`: outcome, error kind and Retry-After.
pub record Classified : Type 0 where
  pub outcome : RunOutcome
  pub error_kind : String
  pub retry_after : ℕ

abbrev pub classified : RunOutcome → String → ℕ → Classified
classified o kind retry = record { outcome = o; error_kind = kind; retry_after = retry }

abbrev pub is_transient_status : ℕ → Bool
is_transient_status n = n == 408 || n == 425 || n == 500 || n == 502 || n == 503 || n == 504

unfoldable pub classify_status : ℕ → ℕ → Classified
classify_status status retry =
    if status == 429
    then classified rate_limited "rate_limited" retry
    else if is_transient_status status
    then classified transient_error "upstream_status" retry
    else if status == 404 || status == 410
    then classified not_found "not_found" 0
    else if leb 400 status && ltb status 500
    then classified permanent_error "upstream_status" 0
    else classified transient_error "upstream_status" 0

unfoldable pub classify_kind : FetchErrorKind → Classified
classify_kind invalid_payload = classified RunOutcome.invalid_payload "invalid_payload" 0
classify_kind rate_limited_kind = classified rate_limited "rate_limited" 0
classify_kind auth_expired = classified auth_error "authentication" 0
classify_kind auth_conflict = classified auth_error "authentication" 0
classify_kind _ = classified transient_error "network" 0

-- `classifyFetch`.
unfoldable pub classify_fetch : Option FetchFailure → Classified
unfolding classify_status classify_kind
classify_fetch none = classified unchanged "" 0
classify_fetch (some not_modified_error) = classified not_modified "" 0
classify_fetch (some (upstream_status status retry)) = classify_status status retry
classify_fetch (some (fetch_failure kind)) = classify_kind kind
classify_fetch (some deadline) = classified transient_error "timeout" 0
classify_fetch (some _) = classified transient_error "network" 0

-- `canceledFetch`, for a context that is done or not.
unfoldable pub canceled_fetch : Bool → Option FetchFailure → Bool
canceled_fetch done (some canceled) = true
canceled_fetch done _ = done

abbrev pub or_policy : ℕ → ℕ → ℕ
or_policy n m = if n == 0 then m else n

-- `policyForTarget`, of a claimed row, whose intervals are seconds. `status_of` reads the attributes.
unfoldable pub policy_for_target : (String → SessionStatus) → Target → Policy
unfolding policy_for
policy_for_target status_of t =
    let p = policy_for t.ref.kind (status_of t.attributes) in
    record {
      initial = or_policy (t.current_interval * second) p.initial;
      min_interval = or_policy (t.min_interval * second) p.min_interval;
      max_interval = or_policy (t.max_interval * second) p.max_interval;
      max_serve_age = or_policy (t.max_serve_age * second) p.max_serve_age;
    }

-- `failureNextRun`. `full_jitter` is `FullJitter` with its draw.
unfoldable pub failure_next_run : (ℕ → ℕ) → ℕ → RunOutcome → ℕ → ℕ → ℕ
failure_next_run full_jitter now rate_limited failures retry_after =
    now + max retry_after (15 * minute)
failure_next_run full_jitter now auth_error failures retry_after = now + 15 * minute
failure_next_run full_jitter now not_found failures retry_after = now + 24 * hour
failure_next_run full_jitter now permanent_error failures retry_after = now + 24 * hour
failure_next_run full_jitter now RunOutcome.invalid_payload failures retry_after = now + hour
failure_next_run full_jitter now quarantined failures retry_after = now + hour
failure_next_run full_jitter now _ failures retry_after =
    now + max (full_jitter (failure_delay failures)) retry_after
