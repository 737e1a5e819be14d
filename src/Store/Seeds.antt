-- ===== src/Store/Seeds.antt =====
-- `upsertSeeds` of internal/db/snapshot_repository.go. `blank` is `strings.TrimSpace(s) == ""`,
-- `valid_json` is `json.Valid`.
use classroom.Base.{
  ℕ, suc, ◌/◌, min, max, Bool, true, false, ◌||◌, not, String, Option, none, some, List, [], ◌∷◌,
  ◌++◌, ltb, ◌==◌, str_eq, if◌then◌else◌,
}
use classroom.Domain.Snapshot.{TargetRef, RefError, validate_ref, ref_eq, unavailable}
use classroom.Store.Target.{Target, LifecycleState, update_where, any_row}

abbrev pub second : ℕ
second = 1_000_000_000

-- `durationSeconds`.
abbrev pub duration_seconds : ℕ → ℕ
duration_seconds n = n / second

-- `domain.TargetSeed`. The priority is not negative, the zero time is 0.
pub record TargetSeed : Type 0 where
  pub ref : TargetRef
  pub attributes : String
  pub priority : ℕ
  pub initial_interval : ℕ
  pub min_interval : ℕ
  pub max_interval : ℕ
  pub max_serve_age : ℕ
  pub next_run_at : ℕ

pub data SeedError : Type 0 where
  invalid_ref : RefError → SeedError
  invalid_policy next_run_required invalid_attributes : SeedError

abbrev pub attributes_of : TargetSeed → String
attributes_of s = if str_eq s.attributes "" then "{}" else s.attributes

-- The checks on one seed.
unfoldable pub validate_seed : (String → Bool) → (String → Bool) → TargetSeed → Option SeedError
unfolding validate_ref
validate_seed blank valid_json s = elim (validate_ref blank s.ref) [
  | some e ↦ some (invalid_ref e)
  | none ↦
      if s.initial_interval == 0
        || s.min_interval == 0
        || ltb s.max_interval s.min_interval
        || ltb s.max_serve_age s.max_interval
      then some invalid_policy
      else if s.next_run_at == 0
      then some next_run_required
      else if not (valid_json (attributes_of s))
      then some invalid_attributes
      else none
]

-- The checks on all seeds, in order.
unfoldable pub validate_seeds :
    (String → Bool) → (String → Bool) → List TargetSeed → Option SeedError
validate_seeds blank valid_json [] = none
validate_seeds blank valid_json (s ∷ ss) =
    let rest = validate_seeds blank valid_json ss in
    elim (validate_seed blank valid_json s) [ some e ↦ some e | none ↦ rest ]

unfoldable pub occurs : TargetRef → List TargetSeed → Bool
occurs r [] = false
occurs r (s ∷ ss) = ref_eq s.ref r || occurs r ss

-- Of the seeds with one conflict key the last survives.
unfoldable pub dedup : List TargetSeed → List TargetSeed
dedup [] = []
dedup (s ∷ ss) = let rest = dedup ss in if occurs s.ref ss then rest else s ∷ rest

-- ON CONFLICT ... DO UPDATE.
unfoldable pub merge_row : TargetSeed → Target → Target
merge_row s t = record t {
  attributes = attributes_of s;
  priority = min t.priority (if s.priority == 0 then 50 else s.priority);
  current_interval =
      min (duration_seconds s.max_interval)
        (max t.current_interval (duration_seconds s.min_interval));
  min_interval = duration_seconds s.min_interval;
  max_interval = duration_seconds s.max_interval;
  max_serve_age = duration_seconds s.max_serve_age;
  next_run_at = min t.next_run_at s.next_run_at;
  missing_count = 0;
  enabled = true;
}

-- The row that INSERT makes under the key `id`, with the columns' defaults.
unfoldable pub new_row : ℕ → TargetSeed → Target
new_row id s = record {
  id = id;
  ref = s.ref;
  attributes = attributes_of s;
  priority = if s.priority == 0 then 50 else s.priority;
  missing_count = 0;
  current_snapshot_id = none;
  current_version = 0;
  validation_seq = 0;
  current_content_hash = none;
  current_interval = duration_seconds s.initial_interval;
  min_interval = duration_seconds s.min_interval;
  max_interval = duration_seconds s.max_interval;
  max_serve_age = duration_seconds s.max_serve_age;
  next_run_at = s.next_run_at;
  last_attempt_at = none;
  last_validated_at = none;
  last_content_change_at = none;
  consecutive_failures = 0;
  recent_changes = [];
  etag = none;
  last_modified = none;
  cache_control = none;
  previous_record_count = 0;
  quality_state = unavailable;
  last_rejection_code = none;
  current_parser_version = none;
  lease_owner = none;
  lease_generation = 0;
  lease_expires_at = none;
  enabled = true;
  lifecycle_state = LifecycleState.active;
  last_seen_parent_version = none;
  consecutive_missing_count = 0;
  tombstoned_at = none;
  reactivated_at = none;
}

-- The statement for one seed. The database hands out the keys of new rows: `fresh` is the next one.
unfoldable pub upsert_row : TargetSeed → ℕ × List Target → ℕ × List Target
upsert_row s (fresh, ts) =
    if any_row (λ t. ref_eq t.ref s.ref) ts
    then (fresh, update_where (λ t. ref_eq t.ref s.ref) (merge_row s) ts)
    else (suc fresh, ts ++ new_row fresh s ∷ [])

unfoldable pub upsert_rows : List TargetSeed → ℕ × List Target → ℕ × List Target
upsert_rows [] db = db
upsert_rows (s ∷ ss) db = upsert_rows ss (upsert_row s db)

-- `upsertSeeds`: nothing is inserted when one seed is invalid.
unfoldable pub upsert_seeds :
    (String → Bool)
    → (String → Bool)
    → List TargetSeed
    → ℕ × List Target
    → (Option SeedError) × (ℕ × List Target)
upsert_seeds blank valid_json seeds db = elim (validate_seeds blank valid_json seeds) [
  | some e ↦ (some e, db)
  | none ↦ (none, upsert_rows (dedup seeds) db)
]
