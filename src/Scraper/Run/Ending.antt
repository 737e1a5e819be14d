-- ===== src/Scraper/Run/Ending.antt =====
-- `RunClaimedWithRelease` of internal/scraper/coordinator.go together with `Commit` and
-- `ReconcileLifecycle` of internal/db/snapshot_repository.go: how a run leaves its target.
use classroom.Base.{
  ℕ, suc, ◌≤◌, ◌≡◌, refl, sym, ◌∙◌, ap, subst, inl, inr, Bool, true, false, ◌||◌, ◌&&◌, not, String,
  Option, none, some, List, if◌then◌else◌, arith, eq_iff, Option-cases, Bool-cases,
}
use classroom.Domain.Snapshot.{SnapshotKind, TargetRef, validate_ref}
use classroom.Scraper.Codec.{Codec, is_blank, IsLawful}
use classroom.Scraper.Fetch.{canceled_fetch}
use classroom.Scraper.Run.{
  Inputs, assess_inputs, commit_input, run_claimed, ran, reconciled, after_reconcile,
}
use classroom.Scraper.Run.Checks.{commit_input-PassesChecks}
use classroom.Scraper.Run.Input.{IsClaimedRun, nonzero, commit_input_is_valid}
use classroom.Store.Target.{Target, find_target}
use classroom.Store.Seeds.{TargetSeed, SeedError, validate_seeds, upsert_seeds, upsert_rows, dedup}
use classroom.Store.Leases.{owned_by}
use classroom.Store.Presence.{
  children_of, seen_keys, mark_missing_row, activate_row, reconcile_rows, reconcile_lifecycle,
  tombstone_threshold,
}
use classroom.Store.Rows.{CommitInput, CommitEvent, Store, successful, find_run}
use classroom.Store.Commit.{publishes, event_of, sequence_off}
use classroom.Store.Outcome.{
  Held, find_held, held_after, commit_holder_lem, find_held-update_where, upsert_rows-held,
  upsert_seeds-valid,
}

reconcile_rows-held :
    (parent : TargetRef) (kind : SnapshotKind) (key : String) (keys : List String)
    (version now k : ℕ) (ts : List Target)
    → find_held k (reconcile_rows parent kind key keys version now ts) ≡ find_held k ts
unfolding reconcile_rows mark_missing_row activate_row
reconcile_rows-held parent kind key keys version now k ts =
    find_held-update_where _ (mark_missing_row (tombstone_threshold kind) now) k _
      (λ t. ground arith)
    ∙ find_held-update_where _ (activate_row version now) k ts (λ t. ground arith)

module _ (blank valid_json : String → Bool) (parent : TargetRef) (version : ℕ)
    (seeds : List TargetSeed) (seen : List TargetRef) (now : ℕ) (s : Store) (k : ℕ) (h : Held)
    (found : find_held k s.targets ≡ some h) where
  abbrev result : (Option SeedError) × (ℕ × List Target)
  result =
      reconcile_lifecycle blank valid_json parent version seeds seen now (s.next_target, s.targets)

  abbrev KeepsHeld : (Option SeedError) × (ℕ × List Target) → Type 0
  KeepsHeld r = find_held k (after_reconcile s r).targets ≡ some h

  -- The reconciliation of a page with children, after its seeds.
  abbrev after_seeds :
      SnapshotKind
      → String
      → (Option SeedError) × (ℕ × List Target)
      → (Option SeedError) × (ℕ × List Target)
  after_seeds kind key x = elim (x.0) [
    | some e ↦ (some e, (s.next_target, s.targets))
    | none ↦ (
      none,
      (x.1.0, reconcile_rows parent kind key (seen_keys parent kind key seen) version now x.1.1),
    )
  ]

  without_children : children_of parent ≡ none → result ≡ (none, (s.next_target, s.targets))
  unfolding reconcile_lifecycle
  without_children e = rw (e, reconcile_lifecycle) refl

  with_bad_seed :
      (kind : SnapshotKind) (key : String) (error : SeedError)
      → children_of parent ≡ some (kind, key)
      → validate_seeds blank valid_json seeds ≡ some error
      → result ≡ (some error, (s.next_target, s.targets))
  unfolding reconcile_lifecycle upsert_seeds
  with_bad_seed kind key error e b = rw (e, b, reconcile_lifecycle, upsert_seeds) refl

  with_children :
      (kind : SnapshotKind) (key : String)
      → children_of parent ≡ some (kind, key)
      → validate_seeds blank valid_json seeds ≡ none
      → result ≡ (
        none,
        (
          (upsert_rows (dedup seeds) (s.next_target, s.targets)).0,
          reconcile_rows parent kind key
              (seen_keys parent kind key seen)
              version
              now
              (upsert_rows (dedup seeds) (s.next_target, s.targets)).1,
        ),
      )
  unfolding reconcile_lifecycle
  with_children kind key e b =
      opened
      ∙ ap (after_seeds kind key)
          (upsert_seeds-valid blank valid_json seeds (s.next_target, s.targets) b)
    where
      opened :
          result
          ≡ after_seeds kind key (upsert_seeds blank valid_json seeds (s.next_target, s.targets))
      opened = rw (e, reconcile_lifecycle) refl

  result-held : KeepsHeld result
  result-held = elim (Option-cases (children_of parent)) [
    | inl e ↦ subst KeepsHeld (sym (without_children e)) found
    | inr ((kind, key), e) ↦ elim (Option-cases (validate_seeds blank valid_json seeds)) [
      | inr (error, b) ↦ subst KeepsHeld (sym (with_bad_seed kind key error e b)) found
      | inl b ↦ subst KeepsHeld (sym (with_children kind key e b)) (
          reconcile_rows-held parent kind key (seen_keys parent kind key seen) version now k
            (upsert_rows (dedup seeds) (s.next_target, s.targets)).1
          ∙ upsert_rows-held (dedup seeds) k (s.next_target, s.targets) h found)
    ]
  ]

reconciled-held :
    (c : Codec) (n : Inputs) (t : Target) (i : CommitInput) (s : Store) (k : ℕ) (h : Held)
    → find_held k s.targets ≡ some h
    → find_held k (reconciled c n t i s).targets ≡ some h
reconciled-held c n t i s k h found =
    result-held (is_blank c) c.valid_json t.ref
      (if publishes i then suc t.current_version else t.current_version) i.discovered
      i.seen_children n.finished_at s k h found

fits : (c : Codec) (n : Inputs) (t : Target) → sequence_off (commit_input c n t) t ≡ false
unfolding sequence_off commit_input
fits c n t = elim (Bool-cases (successful (assess_inputs c n t).outcome)) [
  | inl e ↦ rw e (ground arith)
  | inr e ↦ rw e refl
]

-- The run fetched: the reference is valid, neither the context nor the fetch was cancelled, and the clock
-- did not go back meanwhile.
abbrev pub HasFetched : Codec → Inputs → Target → Type 0
HasFetched c n t =
    (validate_ref (is_blank c) t.ref ≡ none)
    × (canceled_fetch n.context_done n.failure ≡ false)
    × (n.started_at ≤ n.finished_at)

-- What the tables say: the row is the target, its lease has no run yet.
abbrev pub IsLeased : Target → String → Store → Type 0
IsLeased t w s =
    (find_target t.id s.targets ≡ some t)
    × (t.lease_owner ≡ some w)
    × (find_run t.id t.lease_generation s.runs ≡ none)

-- The input's own conditions: seeds that pass, a notification that is small enough, and a complete
-- manifest where the page has changed.
abbrev pub IsAcceptable : Codec → (CommitEvent → Bool) → Inputs → Target → Store → Type 0
IsAcceptable c oversized n t s =
    (validate_seeds (is_blank c) c.valid_json (commit_input c n t).discovered ≡ none)
    × ((publishes (commit_input c n t) && oversized (event_of (commit_input c n t) s t)) ≡ false)
    × ((not (assess_inputs c n t).changed_content || (assess_inputs c n t).complete) ≡ true)

module _ (c : Codec) (oversized : CommitEvent → Bool) (n : Inputs) (t : Target) (s : Store)
    (w : String) (laws : IsLawful c) (claimed : IsClaimedRun c n t) (fetched : HasFetched c n t)
    (leased : IsLeased t w s) where
  maybe_reconciled :
      (b : Bool) (i : CommitInput) (s' : Store)
      → find_held t.id s'.targets ≡ some (held_after i s t)
      → find_held t.id (if b then reconciled c n t i s' else s').targets ≡ some (held_after i s t)
  maybe_reconciled true i s' h = reconciled-held c n t i s' t.id (held_after i s t) h
  maybe_reconciled false i s' h = h

  owner-owned : owned_by (commit_input c n t).worker_id t ≡ true
  unfolding commit_input
  owner-owned = ground (arith, eq_iff w w, leased.1)

  -- A run that fetched on a clock that did not go back, of a claimed target whose lease has no run yet, with an input that is
  -- acceptable, ends with its outcome, whatever upstream has answered; in the tables after the commit and
  -- the reconciliation the lease is ended, the version and the snapshot have moved exactly where a new
  -- content was published, and the validation sequence and the quality are those of the outcome.
  pub run_claimed_ends :
      IsAcceptable c oversized n t s
      → (s' : Store) × (run_claimed c oversized n t s ≡ ran (commit_input c n t).outcome s')
        × (find_held t.id s'.targets ≡ some (held_after (commit_input c n t) s t))
  unfolding run_claimed
  run_claimed_ends (seeds, small, complete) =
      let i = commit_input c n t in
      let (id, generation, _, intervals, _, _) = claimed in
      let (reference, going, order) = fetched in
      let (s', e, wrote) =
        commit_holder_lem (is_blank c) c.valid_json oversized i s t leased.0 refl
          (commit_input_is_valid c n t laws claimed ∙ complete) leased.2 owner-owned (fits c n t)
          (commit_input-PassesChecks c n t intervals order) seeds small in
      (
        (if successful i.outcome then reconciled c n t i s' else s'),
        rw
            (
              nonzero t.id id,
              nonzero t.lease_generation generation,
              reference,
              going,
              e,
              run_claimed,
            )
            refl,
        maybe_reconciled (successful i.outcome) i s' wrote.1,
      )
