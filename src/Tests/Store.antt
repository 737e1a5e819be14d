-- ===== src/Tests/Store.antt =====
-- internal/db/snapshot_repository.go at concrete inputs.
use classroom.Base.{
  ℕ, ◌*◌, ◌≤◌, ◌≡◌, refl, String, Bool, true, false, not, none, some, List, [], ◌∷◌, arith, All,
  length, str_eq,
}
use classroom.Domain.Snapshot.{course_catalog, course_detail, TargetRef}
use classroom.Scraper.Policy.{hour, day, minute}
use classroom.Store.Target.{Target, find_target}
use classroom.Store.Seeds.{TargetSeed, new_row, dedup, validate_seeds, upsert_seeds, upsert_rows}
use classroom.Store.Leases.{
  Pauses, ok, fail, lease_lost, is_due, claim_row, claim_before, claim_due, release_lease,
  renew_lease, reschedule_lease, has_id,
}
use classroom.Store.Presence.{children_of, seen_keys, any_key, tombstone_threshold}
use classroom.Store.Rows.{
  RunOutcome, CommitInput, CommitEvent, Store, CommitError, refused, valid_commit, find_run,
  row_checks, known_dispositions, all_seed_checks, successful,
}
use classroom.Store.Rows.{done as committed}
use classroom.Store.Commit.{
  commit, sequence_off, written, updated_targets, commit_locked, write_commit,
}
use classroom.Store.Claims.{claim_due_lem, due, IsClaimed}
use classroom.Store.Order.{IsOrdered, Any, In}
use classroom.Store.Fence.{stale_lease_is_lost}
use classroom.Store.Outcome.{commit_holder_lem, Wrote}
use classroom.Store.Handover.{claimed, claim_passes_lease}
use classroom.Store.Replay.{commit-retry}
use classroom.Store.Missing.{Page, run_pages, IsAbsent, unlisted_child_is_tombstoned}
use classroom.Store.Merge.{dedup_lem, IsDistinct, find_last}

abbrev course_ref : TargetRef
course_ref = record { host = "h"; kind = course_detail; resource_key = "c1"; parent_key = "" }

abbrev catalog_ref : TargetRef
catalog_ref = record { host = "h"; kind = course_catalog; resource_key = "all"; parent_key = "" }

abbrev seed : TargetSeed
seed = record {
  ref = course_ref;
  attributes = "";
  priority = 30;
  initial_interval = hour;
  min_interval = 15 * minute;
  max_interval = day;
  max_serve_age = 48 * hour;
  next_run_at = 7;
}

abbrev course : Target
course = new_row 1 seed

abbrev leased : Target
leased = claim_row 9 "w" minute course

abbrev blank : String → Bool
blank s = str_eq s ""

abbrev open_host : Pauses
open_host h = some none

abbrev unlocked : ℕ → Bool
unlocked id = false

abbrev json : String → Bool
json s = true

abbrev small : CommitEvent → Bool
small e = false

claim_due_lem_example :
    (after claimed : List Target) × (claim_due blank open_host unlocked 9 5 "w" minute (course ∷ [])
      ≡ ok (after, claimed))
    × (length (due blank open_host unlocked 9 5 "w" minute (course ∷ [])) ≤ 5)
    × All
        (λ t. (Any t × (is_due open_host 9 t ≡ true)) × (not (unlocked t.id) ≡ true))
        (due blank open_host unlocked 9 5 "w" minute (course ∷ []))
    × ((t : Target)
        → In t (course ∷ [])
        → is_due open_host 9 t ≡ true
        → not (unlocked t.id) ≡ true
        → has_id (due blank open_host unlocked 9 5 "w" minute (course ∷ [])) t.id ≡ false
        → All
            (λ u. claim_before t u ≡ false)
            (due blank open_host unlocked 9 5 "w" minute (course ∷ [])))
    × IsOrdered claimed
    × All (IsClaimed blank open_host unlocked 9 5 "w" minute (course ∷ [])) claimed
claim_due_lem_example =
    claim_due_lem blank open_host unlocked 9 5 "w" minute (course ∷ []) refl refl

abbrev input : ℕ → RunOutcome → Bool → CommitInput
input generation outcome content = record {
  target_id = 1;
  worker_id = "w";
  lease_generation = generation;
  outcome = outcome;
  started_at = 9;
  finished_at = 10;
  next_run_at = 20;
  current_interval = hour;
  consecutive_failures = 0;
  recent_changes = true ∷ [];
  validated_at = none;
  validation_seq_after = some 1;
  etag = "";
  last_modified = "";
  cache_control = "";
  changed_content = content;
  content_hash = "x";
  payload = "{}";
  discovered = [];
  seen_children = [];
  records_count = 3;
  manifest_complete = true;
  validation = record { complete = true; requires_confirmation = false; violations = [] };
  parser_version = "1";
  last_rejection_code = "";
  candidates = [];
  negative_bytes = false;
}

abbrev tables : Store
tables = record {
  targets = leased ∷ [];
  runs = [];
  snapshots = [];
  candidates = [];
  events = [];
  next_target = 2;
  next_run = 4;
  next_snapshot = 6;
}

abbrev late : CommitInput
late = input 3 RunOutcome.unchanged false

stale_lease_is_lost_example :
    (release_lease 1 3 tables.targets ≡ ok tables.targets)
    × (renew_lease blank 1 "w" 3 minute 12 tables.targets ≡ fail lease_lost)
    × (reschedule_lease 1 3 50 tables.targets ≡ fail lease_lost)
    × (commit blank json small late tables ≡ refused CommitError.lease_lost)
unfolding claim_row new_row find_target valid_commit find_run
stale_lease_is_lost_example =
    stale_lease_is_lost blank json small late tables leased minute 12 50 (tt, tt) refl (omega arith)
      refl refl refl

abbrev publish : CommitInput
publish = input 1 RunOutcome.changed true

commit_holder_lem_example :
    (s' : Store) × (commit blank json small publish tables ≡ committed s' 4)
    × Wrote publish tables leased s' 4
unfolding claim_row new_row find_target valid_commit find_run sequence_off validate_seeds successful
    row_checks known_dispositions all_seed_checks dedup
commit_holder_lem_example =
    commit_holder_lem blank json small publish tables leased refl refl refl refl refl refl
      (refl, refl) refl refl

-- The tables after that commit.
abbrev published : Store
published = written publish tables leased (2, updated_targets publish tables leased)

commit-retry_example : commit blank json small publish published ≡ committed published 4
unfolding commit commit_locked write_commit claim_row new_row find_target valid_commit find_run
    sequence_off upsert_seeds validate_seeds successful upsert_rows dedup row_checks
    known_dispositions all_seed_checks
commit-retry_example = commit-retry blank json small publish tables published 4 refl (λ e. refl)

abbrev no_page : Page
no_page = record { version = 5; now = 100; seen = []; published = false }

abbrev new_page : Page
new_page = record { version = 6; now = 200; seen = []; published = true }

unlisted_child_is_tombstoned_example :
    (t' : Target) × (find_target 1
        (run_pages catalog_ref course_detail "" (no_page ∷ new_page ∷ no_page ∷ []) (course ∷ []))
      ≡ some t')
    × IsAbsent (tombstone_threshold course_detail) 3 1 course.enabled t'
unfolding find_target new_row any_key children_of seen_keys
unlisted_child_is_tombstoned_example =
    unlisted_child_is_tombstoned catalog_ref course_detail "" refl 1
      (no_page ∷ new_page ∷ no_page ∷ []) (course ∷ []) course refl refl (refl, refl, refl)
      (refl, (refl, (refl, tt)))

dedup_lem_example :
    IsDistinct (dedup (seed ∷ seed ∷ []))
    × ((r : TargetRef) → find_last r (dedup (seed ∷ seed ∷ [])) ≡ find_last r (seed ∷ seed ∷ []))
dedup_lem_example = dedup_lem (seed ∷ seed ∷ [])

abbrev fresh_tables : Store
fresh_tables = record tables { targets = leased ∷ [] }

abbrev next_input : CommitInput
next_input = record (input 2 RunOutcome.changed true) { worker_id = "v" }

claim_passes_lease_example :
    ((s' : Store) × (commit blank json small next_input
          (claimed (λ u. true) 50 "v" minute fresh_tables)
        ≡ committed s' 4)
      × Wrote next_input
          (claimed (λ u. true) 50 "v" minute fresh_tables)
          (claim_row 50 "v" minute leased)
          s'
          4)
    × (commit blank json small
          (input 1 RunOutcome.changed true)
          (claimed (λ u. true) 50 "v" minute fresh_tables)
        ≡ refused CommitError.lease_lost)
unfolding claim_row new_row find_target valid_commit find_run sequence_off validate_seeds successful
    row_checks known_dispositions all_seed_checks dedup
claim_passes_lease_example =
    claim_passes_lease blank json small fresh_tables leased 1 (λ u. true) 50 "v" minute refl refl
      next_input (input 1 RunOutcome.changed true) (refl, refl, refl) (refl, refl) (refl, refl)
      (refl, refl) refl (refl, refl) refl refl
