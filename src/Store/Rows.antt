-- ===== src/Store/Rows.antt =====
-- The tables that `Commit` of internal/db/snapshot_repository.go writes, its input, and its UPDATEs of
-- the target's row.
use classroom.Base.{
  ℕ, ◌-◌, ◌/◌, leb, Bool, true, false, ◌||◌, ◌&&◌, not, String, Option, none, some, List, [], ◌∷◌,
  ltb, ◌==◌, str_eq, if◌then◌else◌, length, drop,
}
use classroom.Domain.Snapshot.{
  SnapshotKind, TargetRef, verified_fresh, degraded, unavailable, ValidationReport,
}
use classroom.Store.Target.{Target}
use classroom.Store.Seeds.{TargetSeed, SeedError, duration_seconds}

pub data RunOutcome : Type 0 where
  changed unchanged not_modified rate_limited auth_error transient_error not_found : RunOutcome
  permanent_error invalid_payload canceled quarantined : RunOutcome
  unknown : String → RunOutcome

-- `CommitInput`, less what is only written to the run: HTTP status, sizes and error texts. A manifest
-- is its `Complete`, a content hash is a string, which is empty for the zero hash, and `BytesRead`, an
-- `int64`, is whether it is negative.
pub record CommitInput : Type 0 where
  pub target_id : ℕ
  pub worker_id : String
  pub lease_generation : ℕ
  pub outcome : RunOutcome
  pub started_at : ℕ
  pub finished_at : ℕ
  pub next_run_at : ℕ
  pub current_interval : ℕ
  pub consecutive_failures : ℕ
  pub recent_changes : List Bool
  pub validated_at : Option ℕ
  pub validation_seq_after : Option ℕ
  pub etag : String
  pub last_modified : String
  pub cache_control : String
  pub changed_content : Bool
  pub content_hash : String
  pub payload : String
  pub discovered : List TargetSeed
  pub seen_children : List TargetRef
  pub records_count : ℕ
  pub manifest_complete : Bool
  pub validation : ValidationReport
  pub parser_version : String
  pub last_rejection_code : String
  pub candidates : List String
  pub negative_bytes : Bool

-- A row of `scrape_runs`.
pub record Run : Type 0 where
  pub id : ℕ
  pub target_id : ℕ
  pub worker_id : String
  pub lease_generation : ℕ
  pub outcome : RunOutcome
  pub next_run_at : ℕ
  pub validation_seq_after : Option ℕ

-- A row of `scrape_snapshots`.
pub record SnapshotRow : Type 0 where
  pub id : ℕ
  pub target_id : ℕ
  pub run_id : ℕ
  pub version : ℕ
  pub content_hash : String
  pub payload : String
  pub content_fetched_at : ℕ
  pub verified_at : Option ℕ
  pub complete : Bool

-- A row of `snapshot_commit_events`, and the notification that goes with it.
pub record CommitEvent : Type 0 where
  pub snapshot_id : ℕ
  pub target_id : ℕ
  pub version : ℕ
  pub kind : SnapshotKind
  pub validation_seq : ℕ
  pub stale : Bool

-- The tables, and the next keys that the database hands out.
pub record Store : Type 0 where
  pub targets : List Target
  pub runs : List Run
  pub snapshots : List SnapshotRow
  pub candidates : List String
  pub events : List CommitEvent
  pub next_target : ℕ
  pub next_run : ℕ
  pub next_snapshot : ℕ

pub data CommitError : Type 0 where
  invalid_input lease_lost sequence_mismatch notification_too_large : CommitError
  constraint_violated snapshot_missing : CommitError
  bad_seed : SeedError → CommitError

pub data Committed : Type 0 where
  done : Store → ℕ → Committed
  refused : CommitError → Committed

abbrev pub is_known : RunOutcome → Bool
is_known (unknown s) = false
is_known _ = true

abbrev pub is_content_change : RunOutcome → Bool
is_content_change changed = true
is_content_change _ = false

-- `successfulOutcome`.
unfoldable pub successful : RunOutcome → Bool
successful changed = true
successful unchanged = true
successful not_modified = true
successful _ = false

-- `validateCommit`: is the input accepted? `blank` and `valid_json` are those of the seeds.
unfoldable pub valid_commit : (String → Bool) → (String → Bool) → CommitInput → Bool
valid_commit blank valid_json i =
    not (i.target_id == 0)
    && not (i.lease_generation == 0)
    && not (blank i.worker_id)
    && is_known i.outcome
    && not (i.started_at == 0)
    && not (i.finished_at == 0)
    && not (i.next_run_at == 0)
    && not i.negative_bytes
    && not (i.current_interval == 0)
    && (not i.changed_content
        || (is_content_change i.outcome
            && i.manifest_complete
            && not (str_eq i.content_hash "")
            && not (str_eq i.payload "")
            && valid_json i.payload))

-- The CHECK of `scrape_candidates` on dispositions.
abbrev pub known_disposition : String → Bool
known_disposition d =
    str_eq d "accepted"
    || str_eq d "unchanged"
    || str_eq d "needs_confirmation"
    || str_eq d "rejected_transport"
    || str_eq d "rejected_authentication"
    || str_eq d "rejected_parse"
    || str_eq d "rejected_incomplete"
    || str_eq d "rejected_semantic"
    || str_eq d "quarantined_anomaly"

unfoldable pub known_dispositions : List String → Bool
known_dispositions [] = true
known_dispositions (d ∷ ds) = known_disposition d && known_dispositions ds

-- The CHECKs on what `Commit` writes of the run, of its candidates and of the target, which
-- `valid_commit` does not imply. The database keeps times in microseconds.
unfoldable pub row_checks : CommitInput → Bool
unfolding known_dispositions
row_checks i =
    leb (i.started_at / 1000) (i.finished_at / 1000)
    && ltb 0 (duration_seconds i.current_interval)
    && known_dispositions i.candidates

-- The CHECKs on the row that a seed proposes, of its intervals in seconds.
unfoldable pub seed_checks : TargetSeed → Bool
seed_checks s =
    ltb 0 (duration_seconds s.initial_interval)
    && ltb 0 (duration_seconds s.min_interval)
    && leb (duration_seconds s.min_interval) (duration_seconds s.max_interval)
    && leb (duration_seconds s.max_interval) (duration_seconds s.max_serve_age)

unfoldable pub all_seed_checks : List TargetSeed → Bool
unfolding seed_checks
all_seed_checks [] = true
all_seed_checks (s ∷ ss) = seed_checks s && all_seed_checks ss

-- The first query of `existingCommitResult`.
unfoldable pub find_run : ℕ → ℕ → List Run → Option Run
find_run id generation [] = none
find_run id generation (r ∷ rs) =
    let rest = find_run id generation rs in
    if r.target_id == id && r.lease_generation == generation then some r else rest

-- Has `snapshotByRun` a row?
unfoldable pub has_snapshot : ℕ → List SnapshotRow → Bool
has_snapshot run [] = false
has_snapshot run (r ∷ rs) = r.run_id == run || has_snapshot run rs

-- The rest of `existingCommitResult`: a run that changed the content has its snapshot read.
unfoldable pub existing_result : Run → Store → Committed
unfolding has_snapshot
existing_result r s =
    if is_content_change r.outcome && not (has_snapshot r.id s.snapshots)
    then refused snapshot_missing
    else done s r.id

-- `trimBoolHistory`.
unfoldable pub trim_history : List Bool → List Bool
trim_history h = if ltb 10 (length h) then drop (length h - 10) h else h

abbrev pub null_if_empty : String → Option String
null_if_empty s = if str_eq s "" then none else some s

abbrev pub or_else {ℓ} : {A : Type ℓ} → Option A → Option A → Option A
or_else (some a) b = some a
or_else none b = b

abbrev pub is_not_modified : RunOutcome → Bool
is_not_modified not_modified = true
is_not_modified _ = false

-- The header columns: only a 304 keeps the old ones where it has none.
abbrev pub header : RunOutcome → String → Option String → Option String
header o s old = if is_not_modified o then or_else (null_if_empty s) old else null_if_empty s

abbrev pub validated_time : CommitInput → ℕ
validated_time i = elim (i.validated_at) [ none ↦ i.finished_at | some at ↦ at ]

-- The SET of the success branch; `snapshot` is the key and the version of a new snapshot.
unfoldable pub success_row : CommitInput → ℕ → Option (ℕ × ℕ) → Target → Target
unfolding trim_history
success_row i seq snapshot t =
    let verified = record t {
      next_run_at = i.next_run_at;
      current_interval = duration_seconds i.current_interval;
      consecutive_failures = i.consecutive_failures;
      recent_changes = trim_history i.recent_changes;
      last_validated_at = some (validated_time i);
      validation_seq = seq;
      etag = header i.outcome i.etag t.etag;
      last_modified = header i.outcome i.last_modified t.last_modified;
      cache_control = header i.outcome i.cache_control t.cache_control;
      quality_state = verified_fresh;
      last_rejection_code = none;
      current_parser_version = null_if_empty i.parser_version;
      lease_owner = none;
      lease_expires_at = none;
    } in
    elim snapshot [
      | none ↦ verified
      | some (id, version) ↦ record verified {
        current_snapshot_id = some id;
        current_version = version;
        current_content_hash = some i.content_hash;
        last_content_change_at = some (validated_time i);
        previous_record_count = i.records_count;
      }
    ]

-- The SET of the failure branch.
unfoldable pub failure_row : CommitInput → Target → Target
unfolding trim_history
failure_row i t = record t {
  next_run_at = i.next_run_at;
  current_interval = duration_seconds i.current_interval;
  consecutive_failures = i.consecutive_failures;
  recent_changes = trim_history i.recent_changes;
  quality_state = elim (t.current_snapshot_id) [ none ↦ unavailable | some id ↦ degraded ];
  last_rejection_code = null_if_empty i.last_rejection_code;
  lease_owner = none;
  lease_expires_at = none;
}
