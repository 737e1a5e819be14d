-- ===== src/Store/Replay.antt =====
-- A commit that is sent twice: `existingCommitResult` of internal/db/snapshot_repository.go.
use classroom.Base.{
  ℕ, ◌≡◌, refl, sym, ◌∙◌, ap, subst, Bool, true, false, ◌&&◌, not, String, Option, none, some, List,
  [], ◌∷◌, ◌++◌, arith, Bool-cases, Option-cases, inl, inr,
}
use classroom.Store.Target.{Target, find_target}
use classroom.Store.Seeds.{SeedError, dedup}
use classroom.Store.Rows.{
  CommitInput, CommitEvent, Run, Store, CommitError, notification_too_large, invalid_input,
  lease_lost, constraint_violated, snapshot_missing, done, refused, valid_commit, all_seed_checks,
  find_run, SnapshotRow, has_snapshot, existing_result, is_content_change, successful,
}
use classroom.Store.Commit.{
  run_of, finish_commit, write_commit, commit_locked, commit, publishes, event_of, written,
  new_snapshots, snapshot_of,
}

find_run-append :
    (id generation : ℕ) (rs : List Run) (r : Run)
    → find_run id generation rs ≡ none
    → r.target_id ≡ id
    → r.lease_generation ≡ generation
    → find_run id generation (rs ++ r ∷ []) ≡ some r
unfolding find_run
find_run-append id generation [] r h e k = ground arith
find_run-append id generation (x ∷ rs) r h e k = ground (arith, find_run-append id generation rs r)

refused_not_done : (e : CommitError) (s : Store) (run : ℕ) → refused e ≡ done s run → ⊥
refused_not_done e s run h = cc

done_inv : (s s' : Store) (run run' : ℕ) → done s run ≡ done s' run' → (s ≡ s') × (run ≡ run')
done_inv s s' run run' h = (cc, cc)

has_snapshot-append :
    (run : ℕ) (rs : List SnapshotRow) (r : SnapshotRow)
    → r.run_id ≡ run
    → has_snapshot run (rs ++ r ∷ []) ≡ true
unfolding has_snapshot
has_snapshot-append run [] r e = ground (arith, e)
has_snapshot-append run (x ∷ rs) r e =
    let rest = has_snapshot-append run rs r e in ground (arith, rest)

existing_result-inv :
    (r : Run) (s s' : Store) (run : ℕ) → existing_result r s ≡ done s' run → (s ≡ s') × (r.id ≡ run)
unfolding existing_result
existing_result-inv r s s' run h =
    elim (Bool-cases (is_content_change r.outcome && not (has_snapshot r.id s.snapshots))) [
      | inl e ↦ absurd (refused_not_done snapshot_missing s' run (sym (lost e) ∙ h))
      | inr e ↦ done_inv s s' r.id run (sym (there e) ∙ h)
    ]
  where
    lost :
        (is_content_change r.outcome && not (has_snapshot r.id s.snapshots)) ≡ true
        → existing_result r s ≡ refused snapshot_missing
    lost e = rw (e, existing_result) refl

    there :
        (is_content_change r.outcome && not (has_snapshot r.id s.snapshots)) ≡ false
        → existing_result r s ≡ done s r.id
    there e = rw (e, existing_result) refl

-- The read of a run that is there changes nothing.
existing_result-again :
    (r : Run) (s s' : Store) (run : ℕ)
    → existing_result r s ≡ done s' run
    → existing_result r s' ≡ done s' run
unfolding existing_result
existing_result-again r s s' run h =
    let (same, _) = existing_result-inv r s s' run h in
    subst (λ u. existing_result r u ≡ done s' run) same h

finish_commit-runs :
    (oversized : CommitEvent → Bool) (i : CommitInput) (s : Store) (t : Target)
    (x : (Option SeedError) × (ℕ × List Target)) (s' : Store) (run : ℕ)
    → finish_commit oversized i s t x ≡ done s' run
    → (s'.runs ≡ s.runs ++ run_of i s t ∷ [])
      × (s'.snapshots ≡ new_snapshots i s t)
      × (run ≡ s.next_run)
finish_commit-runs oversized i s t (some e, db) s' run h = absurd (refused_not_done _ s' run h)
finish_commit-runs oversized i s t (none, db) s' run h =
    elim (Bool-cases (not (all_seed_checks (dedup i.discovered)))) [
      | inl k ↦ absurd (refused_not_done _ s' run (sym (violated k) ∙ h))
      | inr k ↦ elim (Bool-cases (publishes i && oversized (event_of i s t))) [
        | inl e ↦ absurd (refused_not_done _ s' run (sym (big k e) ∙ h))
        | inr e ↦
            let (a, b) = done_inv (written i s t db) s' s.next_run run (sym (small k e) ∙ h) in
            (ap (λ x. x.runs) (sym a), ap (λ x. x.snapshots) (sym a), sym b)
      ]
    ]
  where
    violated :
        not (all_seed_checks (dedup i.discovered)) ≡ true
        → finish_commit oversized i s t (none, db) ≡ refused constraint_violated
    violated k = rw k refl

    big :
        not (all_seed_checks (dedup i.discovered)) ≡ false
        → (publishes i && oversized (event_of i s t)) ≡ true
        → finish_commit oversized i s t (none, db) ≡ refused notification_too_large
    big k e = rw (k, e) refl

    small :
        not (all_seed_checks (dedup i.discovered)) ≡ false
        → (publishes i && oversized (event_of i s t)) ≡ false
        → finish_commit oversized i s t (none, db) ≡ done (written i s t db) s.next_run
    small k e = rw (k, e) refl

commit_locked-runs :
    (blank valid_json : String → Bool) (oversized : CommitEvent → Bool) (i : CommitInput)
    (s : Store) (t : Target) (s' : Store) (run : ℕ)
    → commit_locked blank valid_json oversized i s t ≡ done s' run
    → (s'.runs ≡ s.runs ++ run_of i s t ∷ [])
      × (s'.snapshots ≡ new_snapshots i s t)
      × (run ≡ s.next_run)
unfolding commit_locked write_commit
commit_locked-runs blank valid_json oversized i s t s' run h =
    ground (arith, finish_commit-runs oversized i s t)

module _ (blank valid_json : String → Bool) (oversized : CommitEvent → Bool) (i : CommitInput)
    (s s' : Store) (run : ℕ) (h : commit blank valid_json oversized i s ≡ done s' run) where
  accepted : valid_commit blank valid_json i ≡ true
  unfolding commit
  accepted = elim (Bool-cases (valid_commit blank valid_json i)) [
    | inl e ↦ e
    | inr e ↦ absurd (refused_not_done _ s' run (sym (rejected e) ∙ h))
  ]
    where
      rejected :
          valid_commit blank valid_json i ≡ false
          → commit blank valid_json oversized i s ≡ refused invalid_input
      rejected e = rw (e, commit) refl

  with_run :
      (u : Store) (r : Run)
      → find_run i.target_id i.lease_generation u.runs ≡ some r
      → commit blank valid_json oversized i u ≡ existing_result r u
  unfolding commit
  with_run u r e = rw (accepted, e, commit) refl

  with_target :
      (t : Target)
      → find_run i.target_id i.lease_generation s.runs ≡ none
      → find_target i.target_id s.targets ≡ some t
      → commit blank valid_json oversized i s ≡ commit_locked blank valid_json oversized i s t
  unfolding commit
  with_target t e k = rw (accepted, e, k, commit) refl

  without_target :
      find_run i.target_id i.lease_generation s.runs ≡ none
      → find_target i.target_id s.targets ≡ none
      → commit blank valid_json oversized i s ≡ refused lease_lost
  unfolding commit
  without_target e k = rw (accepted, e, k, commit) refl

  -- The snapshot of a run that has just been written.
  published :
      (t : Target)
      → (is_content_change i.outcome ≡ true → i.changed_content ≡ true)
      → s'.snapshots ≡ new_snapshots i s t
      → (is_content_change i.outcome && not (has_snapshot s.next_run s'.snapshots)) ≡ false
  unfolding successful
  published t honest grown = elim (Bool-cases (is_content_change i.outcome)) [
    | inr e ↦ rw e refl
    | inl e ↦
        let there = has_snapshot-append s.next_run s.snapshots (snapshot_of i s t) refl in
        let content : publishes i ≡ true = ground (arith, honest e) in
        rw (grown, content, there, e) refl
  ]

  first_run :
      (is_content_change i.outcome ≡ true → i.changed_content ≡ true)
      → find_run i.target_id i.lease_generation s.runs ≡ none
      → commit blank valid_json oversized i s' ≡ done s' run
  unfolding existing_result
  first_run honest e = elim (Option-cases (find_target i.target_id s.targets)) [
    | inl k ↦ absurd (refused_not_done _ s' run (sym (without_target e k) ∙ h))
    | inr (t, k) ↦
        let (grown, more, same) =
          commit_locked-runs blank valid_json oversized i s t s' run
            (sym (with_target t e k) ∙ h) in
        with_run s' (run_of i s t) (
          ap (find_run i.target_id i.lease_generation) grown
          ∙ find_run-append i.target_id i.lease_generation s.runs (run_of i s t) e refl refl)
        ∙ rw (published t honest more, existing_result) (ap (done s') (sym same))
  ]

  -- A `Commit` that succeeded and is sent again with the same input succeeds with the same run and
  -- changes nothing, when an input of the outcome `changed` also says that its content has changed.
  pub commit-retry :
      (is_content_change i.outcome ≡ true → i.changed_content ≡ true)
      → commit blank valid_json oversized i s' ≡ done s' run
  commit-retry honest = elim (Option-cases (find_run i.target_id i.lease_generation s.runs)) [
    | inr (r, e) ↦
        let first = sym (with_run s r e) ∙ h in
        let (same, _) = again r first in
        with_run s' r (subst (λ u. find_run i.target_id i.lease_generation u.runs ≡ some r) same e)
        ∙ existing_result-again r s s' run first
    | inl e ↦ first_run honest e
  ]
    where
      again : (r : Run) → existing_result r s ≡ done s' run → (s ≡ s') × (r.id ≡ run)
      again r k = existing_result-inv r s s' run k
