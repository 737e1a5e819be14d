-- ===== src/Scraper/Run.antt =====
-- `RunClaimedWithRelease` of internal/scraper/coordinator.go: a run of a claimed target, from the fetch's
-- answer to the commit and the reconciliation of its children. Logs and metrics are left out.
pub mod Checks
pub mod Ending
pub mod Input
pub mod Quarantine
use classroom.Base.{
  ℕ, suc, ◌+◌, ◌*◌, Bool, true, false, ◌||◌, ◌&&◌, not, String, Option, none, some, List, [], ◌∷◌,
  ◌++◌, ◌==◌, str_eq, if◌then◌else◌,
}
use classroom.Domain.Snapshot.{RefError, validate_ref}
use classroom.Scraper.Codec.{Codec, is_blank}
use classroom.Scraper.Policy.{Outcome, Schedule, next_schedule}
use classroom.Scraper.Fetch.{
  Fetched, FetchFailure, canceled_fetch, policy_for_target, failure_next_run,
}
use classroom.Scraper.Assess.{Assessment, Previous, Confirmation, assess}
use classroom.Scraper.Discover.{discover_targets, refs_of, spread}
use classroom.Store.Target.{Target}
use classroom.Store.Seeds.{second, TargetSeed, SeedError}
use classroom.Store.Leases.{release_lease, ok, fail}
use classroom.Store.Presence.{reconcile_lifecycle}
use classroom.Store.Rows.{
  RunOutcome, changed, unchanged, not_modified, rate_limited, auth_error, transient_error,
  not_found, permanent_error, invalid_payload, canceled, quarantined, unknown, CommitInput,
  CommitEvent, Store, CommitError, done, refused, successful,
}
use classroom.Store.Commit.{commit, publishes}
use classroom.Store.Observe.{Observed}

-- The draws of a run: `ApplyJitter` on the interval, `FullJitter`, and the spread of the children.
pub record Draws : Type 0 where
  pub apply_jitter : ℕ → ℕ
  pub full_jitter : ℕ → ℕ
  pub child_jitter : ℕ → ℕ

-- What a run reads besides the target: the coordinator's limits, the clock, and what upstream and the
-- repository answer.
pub record Inputs : Type 0 where
  pub max_bytes : ℕ
  pub parser : String
  pub started_at : ℕ
  pub finished_at : ℕ
  pub context_done : Bool
  pub fetched : Fetched
  pub failure : Option FetchFailure
  pub previous : Option Previous
  pub confirmation : Confirmation
  pub draws : Draws

abbrev pub assess_inputs : Codec → Inputs → Target → Assessment
assess_inputs c n t = assess c n.max_bytes n.parser t n.previous n.fetched n.failure n.confirmation

abbrev pub schedule_outcome : RunOutcome → Outcome
schedule_outcome changed = Outcome.changed
schedule_outcome not_modified = Outcome.not_modified
schedule_outcome _ = Outcome.unchanged

-- The schedule of a success.
abbrev pub schedule_of : Codec → Target → RunOutcome → Schedule
schedule_of c t o =
    next_schedule (policy_for_target c.status_of_attributes t) (t.current_interval * second)
      t.recent_changes (schedule_outcome o)

-- When, and how, the target runs next.
pub record Next : Type 0 where
  pub run_at : ℕ
  pub interval : ℕ
  pub history : List Bool
  pub failures : ℕ

unfoldable pub next_of : Codec → Inputs → Target → Assessment → Next
unfolding successful
next_of c n t a =
    if successful a.outcome
    then (let s = schedule_of c t a.outcome in
        record {
          run_at = n.finished_at + n.draws.apply_jitter s.interval;
          interval = s.interval;
          history = s.history;
          failures = 0;
        })
    else record {
      run_at =
          failure_next_run n.draws.full_jitter n.finished_at a.outcome (suc t.consecutive_failures)
            a.retry_after;
      interval = t.current_interval * second;
      history = t.recent_changes;
      failures = suc t.consecutive_failures;
    }

abbrev pub lists_children : RunOutcome → Bool
lists_children changed = true
lists_children unchanged = true
lists_children _ = false

-- The children that this run has seen, before they are spread.
unfoldable pub discovered_of : Codec → Inputs → Target → RunOutcome → List TargetSeed
discovered_of c n t o =
    if lists_children o then discover_targets c t.ref n.fetched.value n.finished_at else []

-- `rejectionDisposition`.
unfoldable pub rejection_disposition : RunOutcome → String
rejection_disposition auth_error = "rejected_authentication"
rejection_disposition invalid_payload = "rejected_parse"
rejection_disposition _ = "rejected_transport"

abbrev pub has_evidence : String → Bool
has_evidence code =
    str_eq code "confirmation_mismatch" || str_eq code "confirmation_parser_nondeterminism"

-- The candidates of a run, by their dispositions.
unfoldable pub candidates_of : Assessment → List String
unfolding rejection_disposition
candidates_of a = elim (a.outcome) [
  | changed ↦ "accepted" ∷ []
  | unchanged ↦ "unchanged" ∷ []
  | quarantined ↦
      (if has_evidence a.rejection then "quarantined_anomaly" ∷ [] else [])
      ++ "quarantined_anomaly" ∷ []
  | not_modified ↦ []
  | canceled ↦ []
  | unknown s ↦ []
  | o ↦ rejection_disposition o ∷ []
]

abbrev pub owner_of : Target → String
owner_of t = elim (t.lease_owner) [ none ↦ "" | some w ↦ w ]

-- The `CommitInput` of the run.
unfoldable pub commit_input : Codec → Inputs → Target → CommitInput
unfolding next_of discovered_of candidates_of assess
commit_input c n t =
    let a = assess_inputs c n t in
    let next = next_of c n t a in
    let children = discovered_of c n t a.outcome in
    record {
      target_id = t.id;
      worker_id = owner_of t;
      lease_generation = t.lease_generation;
      outcome = a.outcome;
      started_at = n.started_at;
      finished_at = n.finished_at;
      next_run_at = next.run_at;
      current_interval = next.interval;
      consecutive_failures = next.failures;
      recent_changes = next.history;
      validated_at = if successful a.outcome then some n.finished_at else none;
      validation_seq_after = if successful a.outcome then some (suc t.validation_seq) else none;
      etag = n.fetched.etag;
      last_modified = n.fetched.last_modified;
      cache_control = n.fetched.cache_control;
      changed_content = a.changed_content;
      content_hash = a.content_hash;
      payload = a.payload;
      discovered = spread n.draws.child_jitter 0 children;
      seen_children = refs_of children;
      records_count = a.count;
      manifest_complete = a.complete;
      validation = a.report;
      parser_version = n.parser;
      last_rejection_code = a.rejection;
      candidates = candidates_of a;
      negative_bytes = false;
    }

-- The outcome that the host's limits observe.
unfoldable pub observed_of : Assessment → ℕ → Observed
observed_of a failures = elim (a.outcome) [
  | rate_limited ↦ Observed.rate_limited a.retry_after
  | auth_error ↦ Observed.auth_error
  | changed ↦ Observed.healthy
  | unchanged ↦ Observed.healthy
  | not_modified ↦ Observed.healthy
  | transient_error ↦ Observed.transient_error failures
  | _ ↦ Observed.other_outcome
]

-- How a run ends: before any fetch, with the lease released after a cancelled fetch, with a refused
-- commit, or with its outcome and the tables after it.
pub data RunEnd : Type 0 where
  not_started : RunEnd
  released : List Target → RunEnd
  uncommitted : CommitError → RunEnd
  ran : RunOutcome → Store → RunEnd

-- The tables after `ReconcileLifecycle`; an error of it is logged.
abbrev pub after_reconcile : Store → (Option SeedError) × (ℕ × List Target) → Store
after_reconcile s (some e, db) = s
after_reconcile s (none, (fresh, rows)) = record s { targets = rows; next_target = fresh }

-- The reconciliation after a success, under the version that the commit has left.
abbrev pub reconciled : Codec → Inputs → Target → CommitInput → Store → Store
reconciled c n t i s =
    let version = if publishes i then suc t.current_version else t.current_version in
    after_reconcile s (
      reconcile_lifecycle (is_blank c) c.valid_json t.ref version i.discovered i.seen_children
        n.finished_at (s.next_target, s.targets))

-- The run after the fetch, on the store `s`.
unfoldable pub run_claimed : Codec → (CommitEvent → Bool) → Inputs → Target → Store → RunEnd
unfolding commit_input
run_claimed c oversized n t s =
    if t.id == 0 || t.lease_generation == 0
    then not_started
    else elim (validate_ref (is_blank c) t.ref) [
      | some e ↦ not_started
      | none ↦
          if canceled_fetch n.context_done n.failure
          then elim (release_lease t.id t.lease_generation s.targets) [
            | ok rows ↦ released rows
            | fail e ↦ released s.targets
          ]
          else elim (commit (is_blank c) c.valid_json oversized (commit_input c n t) s) [
            | refused e ↦ uncommitted e
            | done s' run ↦ ran (commit_input c n t).outcome (
                if successful (commit_input c n t).outcome
                then reconciled c n t (commit_input c n t) s'
                else s')
          ]
    ]
