-- ===== src/Store/Outcome.antt =====
-- What `Commit` of internal/db/snapshot_repository.go leaves of the target: its lease, its version, its
-- validation sequence and its quality.
use classroom.Base.{
  ℕ, suc, ◌≡◌, refl, ◌∙◌, ap, Bool, true, false, ◌&&◌, String, Option, none, some, List, [], ◌∷◌,
  ◌++◌, ◌==◌, if◌then◌else◌, arith, inl, inr, Option-cases,
}
use classroom.Domain.Snapshot.{
  TargetRef, ref_eq, DataQuality, verified_fresh, degraded, unavailable,
}
use classroom.Store.Target.{Target, update_where, find_target, find_target-update_where}
use classroom.Store.Seeds.{
  TargetSeed, new_row, merge_row, upsert_row, upsert_rows, dedup, upsert_seeds, validate_seeds,
}
use classroom.Store.Leases.{owned_by}
use classroom.Store.Presence.{apply_child_presence, children_of, present_row, absent_row}
use classroom.Store.Rows.{
  CommitInput, CommitEvent, Store, done, successful, valid_commit, row_checks, all_seed_checks,
  find_run, success_row, failure_row,
}
use classroom.Store.Commit.{
  publishes, seq_after, sequence_off, run_of, event_of, outcome_row, write_commit, commit_locked,
  commit, written, updated_targets, finish_commit,
}

-- The part of a row that belongs to the lease and to the published snapshot.
pub record Held : Type 0 where
  pub id : ℕ
  pub generation : ℕ
  pub owner : Option String
  pub expires_at : Option ℕ
  pub version : ℕ
  pub seq : ℕ
  pub snapshot : Option ℕ
  pub quality : DataQuality

abbrev pub held : Target → Held
held t = record {
  id = t.id;
  generation = t.lease_generation;
  owner = t.lease_owner;
  expires_at = t.lease_expires_at;
  version = t.current_version;
  seq = t.validation_seq;
  snapshot = t.current_snapshot_id;
  quality = t.quality_state;
}

abbrev pub held_of : Option Target → Option Held
held_of none = none
held_of (some t) = some (held t)

abbrev pub find_held : ℕ → List Target → Option Held
find_held k ts = held_of (find_target k ts)

-- The statements on children do not touch that part of any row.
pub find_held-update_where :
    (p : Target → Bool) (f : Target → Target) (k : ℕ) (ts : List Target)
    → ((t : Target) → held (f t) ≡ held t)
    → find_held k (update_where p f ts) ≡ find_held k ts
unfolding find_target update_where
find_held-update_where p f k [] keeps = refl
find_held-update_where p f k (t ∷ ts) keeps =
    ground (arith, keeps t, ap (λ h. h.id) (keeps t), find_held-update_where p f k ts keeps)

find_held-append :
    (k : ℕ) (ts us : List Target) (h : Held)
    → find_held k ts ≡ some h
    → find_held k (ts ++ us) ≡ some h
unfolding find_target
find_held-append k [] us h e = cc
find_held-append k (t ∷ ts) us h e = ground (arith, find_held-append k ts us h)

upsert_row-held :
    (s : TargetSeed) (k : ℕ) (db : ℕ × List Target) (h : Held)
    → find_held k db.1 ≡ some h
    → find_held k (upsert_row s db).1 ≡ some h
unfolding upsert_row merge_row
upsert_row-held s k (fresh, ts) h e =
    let merged = find_held-update_where (λ t. ref_eq t.ref s.ref) (merge_row s) k ts (λ t. refl) in
    let added = find_held-append k ts (new_row fresh s ∷ []) h e in ground (arith, merged, added)

pub upsert_rows-held :
    (ss : List TargetSeed) (k : ℕ) (db : ℕ × List Target) (h : Held)
    → find_held k db.1 ≡ some h
    → find_held k (upsert_rows ss db).1 ≡ some h
unfolding upsert_rows
upsert_rows-held [] k db h e = e
upsert_rows-held (s ∷ ss) k db h e =
    upsert_rows-held ss k (upsert_row s db) h (upsert_row-held s k db h e)

presence-held :
    (r : TargetRef) (seen : List TargetRef) (k : ℕ) (ts : List Target)
    → find_held k (apply_child_presence r seen ts) ≡ find_held k ts
unfolding apply_child_presence
presence-held r seen k ts = elim (Option-cases (children_of r)) [
  | inl e ↦ rw (e, apply_child_presence) refl
  | inr (c, e) ↦
      rw (e, apply_child_presence)
        (find_held-update_where _ absent_row k _ (λ t. refl)
          ∙ find_held-update_where _ present_row k ts (λ t. refl))
]

maybe_presence :
    (b : Bool) (r : TargetRef) (seen : List TargetRef) (k : ℕ) (ts : List Target)
    → find_held k (if b then apply_child_presence r seen ts else ts) ≡ find_held k ts
maybe_presence true r seen k ts = presence-held r seen k ts
maybe_presence false r seen k ts = refl

-- The quality that a run leaves: fresh after a success, else degraded, or unavailable where nothing was
-- ever published.
abbrev pub quality_after : CommitInput → Target → DataQuality
quality_after i t =
    if successful i.outcome
    then verified_fresh
    else elim (t.current_snapshot_id) [ none ↦ unavailable | some id ↦ degraded ]

abbrev pub held_after : CommitInput → Store → Target → Held
held_after i s t = record {
  id = t.id;
  generation = t.lease_generation;
  owner = none;
  expires_at = none;
  version = if publishes i then suc t.current_version else t.current_version;
  seq = seq_after i t;
  snapshot = if publishes i then some s.next_snapshot else t.current_snapshot_id;
  quality = quality_after i t;
}

outcome_row-held :
    (i : CommitInput) (s : Store) (t : Target) → held (outcome_row i s t t) ≡ held_after i s t
unfolding outcome_row success_row failure_row
outcome_row-held i s t = ground arith

outcome_row-id : (i : CommitInput) (s : Store) (t u : Target) → (outcome_row i s t u).id ≡ u.id
unfolding outcome_row success_row failure_row
outcome_row-id i s t u = ground arith

found-id : (k : ℕ) (ts : List Target) (t : Target) → find_target k ts ≡ some t → t.id ≡ k
unfolding find_target
found-id k [] t h = absurd (clash h)
  where
    clash : none ≡ some t → ⊥
    clash e = cc
found-id k (u ∷ ts) t h = ground (arith, found-id k ts t)

-- The row of the key after the transaction's own UPDATE.
updated-held :
    (i : CommitInput) (s : Store) (t : Target) (ts : List Target)
    → find_target i.target_id ts ≡ some t
    → t.lease_generation ≡ i.lease_generation
    → find_held i.target_id (
        update_where
          (λ u. u.id == i.target_id && u.lease_generation == i.lease_generation)
          (outcome_row i s t)
          ts)
      ≡ some (held_after i s t)
updated-held i s t ts found fenced =
    let p = λ (u : Target). u.id == i.target_id && u.lease_generation == i.lease_generation in
    let row =
      find_target-update_where p (outcome_row i s t) i.target_id ts (outcome_row-id i s t) in
    let hit : p t ≡ true = ground (arith, found-id i.target_id ts t found) in
    let here : find_target i.target_id (update_where p (outcome_row i s t) ts)
        ≡ some (outcome_row i s t t) =
      ground (arith, row, found, hit) in
    ap held_of here ∙ ap some (outcome_row-held i s t)

pub upsert_seeds-valid :
    (blank valid_json : String → Bool) (ss : List TargetSeed) (db : ℕ × List Target)
    → validate_seeds blank valid_json ss ≡ none
    → upsert_seeds blank valid_json ss db ≡ (none, upsert_rows (dedup ss) db)
unfolding upsert_seeds
upsert_seeds-valid blank valid_json ss db h = rw (h, upsert_seeds) refl

-- What a commit that wrote has left of its target and of the runs.
abbrev pub Wrote : CommitInput → Store → Target → Store → ℕ → Type 0
Wrote i s t s' run =
    (run ≡ s.next_run)
    × (find_held i.target_id s'.targets ≡ some (held_after i s t))
    × (s'.runs ≡ s.runs ++ run_of i s t ∷ [])
    × (s'.events ≡ (if publishes i then s.events ++ event_of i s t ∷ [] else s.events))

-- The rows that the transaction writes satisfy the CHECKs of their tables.
abbrev pub PassesChecks : CommitInput → Type 0
PassesChecks i = (row_checks i ≡ true) × (all_seed_checks (dedup i.discovered) ≡ true)

module _ (blank valid_json : String → Bool) (oversized : CommitEvent → Bool) (i : CommitInput)
    (s : Store) (t : Target) (found : find_target i.target_id s.targets ≡ some t)
    (fenced : t.lease_generation ≡ i.lease_generation) where
  abbrev seeded : ℕ × List Target
  seeded = upsert_rows (dedup i.discovered) (s.next_target, updated_targets i s t)

  seeded-held : find_held i.target_id seeded.1 ≡ some (held_after i s t)
  seeded-held =
      upsert_rows-held (dedup i.discovered) i.target_id (s.next_target, updated_targets i s t)
        (held_after i s t) (updated-held i s t s.targets found fenced)

  write_commit-Wrote :
      PassesChecks i
      → validate_seeds blank valid_json i.discovered ≡ none
      → (publishes i && oversized (event_of i s t)) ≡ false
      → (s' : Store) × (write_commit blank valid_json oversized i s t ≡ done s' s.next_run)
        × Wrote i s t s' s.next_run
  unfolding write_commit
  write_commit-Wrote (rows, proposed) seeds small = (
    written i s t seeded,
    rw (rows, write_commit)
        (ap (finish_commit oversized i s t) (
            upsert_seeds-valid blank valid_json i.discovered (s.next_target, updated_targets i s t)
              seeds)
          ∙ rw (proposed, small) refl),
    (
      refl,
      maybe_presence (publishes i) t.ref i.seen_children i.target_id seeded.1 ∙ seeded-held,
      refl,
      refl,
    ),
  )

  -- `Commit` by the worker that holds the lease, with a valid input, valid seeds, rows that satisfy the
  -- CHECKs of the tables, a sequence number that fits and a notification that is small enough, succeeds under the next run key when the lease has no
  -- run yet. It ends the lease and keeps the generation; a success moves the validation sequence by one
  -- and the quality to fresh, and only one with changed content moves the version, by one, to a new
  -- snapshot that is announced once; a failure keeps version, sequence and snapshot and degrades the
  -- quality.
  pub commit_holder_lem :
      valid_commit blank valid_json i ≡ true
      → find_run i.target_id i.lease_generation s.runs ≡ none
      → owned_by i.worker_id t ≡ true
      → sequence_off i t ≡ false
      → PassesChecks i
      → validate_seeds blank valid_json i.discovered ≡ none
      → (publishes i && oversized (event_of i s t)) ≡ false
      → (s' : Store) × (commit blank valid_json oversized i s ≡ done s' s.next_run)
        × Wrote i s t s' s.next_run
  unfolding commit commit_locked
  commit_holder_lem valid first owner fits checks seeds small =
      let (s', e, w) = write_commit-Wrote checks seeds small in (s', ground (arith, e), w)
