-- ===== src/Store/Commit.antt =====
-- `Commit` of internal/db/snapshot_repository.go: one transaction that ends a lease. What a failure
-- has written is rolled back, so a failure has no tables.
use classroom.Base.{
  ℕ, suc, Bool, true, false, ◌&&◌, not, String, Option, none, some, List, [], ◌∷◌, ◌++◌, ltb, ◌==◌,
  if◌then◌else◌,
}
use classroom.Store.Target.{Target, update_where, find_target}
use classroom.Store.Seeds.{SeedError, dedup, upsert_seeds}
use classroom.Store.Leases.{owned_by}
use classroom.Store.Presence.{apply_child_presence}
use classroom.Store.Rows.{
  CommitInput, Run, SnapshotRow, CommitEvent, Store, invalid_input, lease_lost, sequence_mismatch,
  constraint_violated, row_checks, all_seed_checks, existing_result, notification_too_large,
  bad_seed, Committed, done, refused, successful, valid_commit, find_run, validated_time,
  success_row, failure_row,
}

-- Does this commit insert a new version?
abbrev pub publishes : CommitInput → Bool
publishes i = successful i.outcome && i.changed_content

abbrev pub seq_after : CommitInput → Target → ℕ
seq_after i t = if successful i.outcome then suc t.validation_seq else t.validation_seq

-- The check of `ValidationSeqAfter`, of a success alone.
unfoldable pub sequence_off : CommitInput → Target → Bool
unfolding successful
sequence_off i t =
    successful i.outcome
    && elim (i.validation_seq_after) [ none ↦ false | some n ↦ not (n == seq_after i t) ]

abbrev pub run_of : CommitInput → Store → Target → Run
run_of i s t = record {
  id = s.next_run;
  target_id = i.target_id;
  worker_id = i.worker_id;
  lease_generation = i.lease_generation;
  outcome = i.outcome;
  next_run_at = i.next_run_at;
  validation_seq_after = if successful i.outcome then some (seq_after i t) else none;
}

abbrev pub snapshot_of : CommitInput → Store → Target → SnapshotRow
snapshot_of i s t = record {
  id = s.next_snapshot;
  target_id = i.target_id;
  run_id = s.next_run;
  version = suc t.current_version;
  content_hash = i.content_hash;
  payload = i.payload;
  content_fetched_at = i.finished_at;
  verified_at = some i.finished_at;
  complete = true;
}

abbrev pub event_of : CommitInput → Store → Target → CommitEvent
event_of i s t = record {
  snapshot_id = s.next_snapshot;
  target_id = i.target_id;
  version = suc t.current_version;
  kind = t.ref.kind;
  validation_seq = seq_after i t;
  stale = ltb i.next_run_at (validated_time i);
}

-- The refresh of the published snapshot by a success that inserts none.
unfoldable pub refresh_snapshots : Option ℕ → ℕ → List SnapshotRow → List SnapshotRow
refresh_snapshots current at [] = []
refresh_snapshots current at (r ∷ rs) =
    (elim current [
      | none ↦ r
      | some id ↦ if r.id == id then record r { complete = true; verified_at = some at } else r
    ])
    ∷ refresh_snapshots current at rs

abbrev pub new_snapshots : CommitInput → Store → Target → List SnapshotRow
new_snapshots i s t =
    if publishes i
    then s.snapshots ++ snapshot_of i s t ∷ []
    else if successful i.outcome
    then refresh_snapshots t.current_snapshot_id (validated_time i) s.snapshots
    else s.snapshots

-- The UPDATE of the target, by outcome.
unfoldable pub outcome_row : CommitInput → Store → Target → Target → Target
unfolding success_row failure_row
outcome_row i s t u =
    if successful i.outcome
    then success_row i (seq_after i t)
        (if i.changed_content then some (s.next_snapshot, suc t.current_version) else none) u
    else failure_row i u

-- The tables after the transaction, with the targets that the seeds have left.
abbrev pub written : CommitInput → Store → Target → ℕ × List Target → Store
written i s t (fresh, seeded) = record {
  targets = if publishes i then apply_child_presence t.ref i.seen_children seeded else seeded;
  runs = s.runs ++ run_of i s t ∷ [];
  snapshots = new_snapshots i s t;
  candidates = s.candidates ++ i.candidates;
  events = if publishes i then s.events ++ event_of i s t ∷ [] else s.events;
  next_target = fresh;
  next_run = suc s.next_run;
  next_snapshot = if publishes i then suc s.next_snapshot else s.next_snapshot;
}

abbrev pub updated_targets : CommitInput → Store → Target → List Target
updated_targets i s t =
    update_where (λ u. u.id == i.target_id && u.lease_generation == i.lease_generation)
      (outcome_row i s t) s.targets

-- The end of the transaction, after the seeds. `oversized` says which notifications come to 8000
-- bytes or more.
abbrev pub finish_commit :
    (CommitEvent → Bool)
    → CommitInput
    → Store
    → Target
    → (Option SeedError) × (ℕ × List Target)
    → Committed
finish_commit oversized i s t (some e, db) = refused (bad_seed e)
finish_commit oversized i s t (none, db) =
    if not (all_seed_checks (dedup i.discovered))
    then refused constraint_violated
    else if publishes i && oversized (event_of i s t)
    then refused notification_too_large
    else done (written i s t db) s.next_run

-- The transaction behind the fence, of the locked row `t`; the database refuses rows that violate a CHECK.
unfoldable pub write_commit :
    (String → Bool)
    → (String → Bool)
    → (CommitEvent → Bool)
    → CommitInput
    → Store
    → Target
    → Committed
write_commit blank valid_json oversized i s t =
    if not (row_checks i)
    then refused constraint_violated
    else finish_commit oversized i s t
        (upsert_seeds blank valid_json i.discovered (s.next_target, updated_targets i s t))

-- The checks on the locked row.
unfoldable pub commit_locked :
    (String → Bool)
    → (String → Bool)
    → (CommitEvent → Bool)
    → CommitInput
    → Store
    → Target
    → Committed
unfolding sequence_off
commit_locked blank valid_json oversized i s t =
    if not (t.lease_generation == i.lease_generation)
    then refused lease_lost
    else if not (owned_by i.worker_id t)
    then refused lease_lost
    else if sequence_off i t
    then refused sequence_mismatch
    else write_commit blank valid_json oversized i s t

-- `Commit`. A run of this lease that is there already gives the result, and nothing is written.
unfoldable pub commit :
    (String → Bool) → (String → Bool) → (CommitEvent → Bool) → CommitInput → Store → Committed
commit blank valid_json oversized i s =
    if not (valid_commit blank valid_json i)
    then refused invalid_input
    else elim (find_run i.target_id i.lease_generation s.runs) [
      | some r ↦ existing_result r s
      | none ↦ elim (find_target i.target_id s.targets) [
        | none ↦ refused lease_lost
        | some t ↦ commit_locked blank valid_json oversized i s t
      ]
    ]
