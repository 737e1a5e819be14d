-- ===== src/Store/Handover.antt =====
-- A claim followed by commits, in internal/db/snapshot_repository.go: the lease passes to the claimer.
use classroom.Base.{
  ℕ, suc, ◌≡◌, refl, sym, ◌∙◌, ap, Bool, true, false, ◌&&◌, String, none, some, eq_iff, arith,
}
use classroom.Store.Target.{Target, update_where, find_target, find_target-update_where}
use classroom.Store.Seeds.{validate_seeds}
use classroom.Store.Leases.{claim_row, owned_by}
use classroom.Store.Rows.{
  CommitInput, CommitEvent, Store, CommitError, done, refused, valid_commit, find_run,
}
use classroom.Store.Commit.{publishes, event_of, sequence_off, commit, commit_locked}
use classroom.Store.Outcome.{Wrote, PassesChecks, commit_holder_lem}

-- The tables after a claim of the rows `p`.
abbrev pub claimed : (Target → Bool) → ℕ → String → ℕ → Store → Store
claimed p now worker lease s = record s {
  targets = update_where p (claim_row now worker lease) s.targets;
}

module _ (blank valid_json : String → Bool) (oversized : CommitEvent → Bool) (s : Store)
    (t : Target) (id : ℕ) (p : Target → Bool) (now : ℕ) (worker : String) (lease : ℕ)
    (found : find_target id s.targets ≡ some t) (hit : p t ≡ true) where
  abbrev after : Store
  after = claimed p now worker lease s

  found_claimed : find_target id after.targets ≡ some (claim_row now worker lease t)
  unfolding claim_row
  found_claimed =
      let row = find_target-update_where p (claim_row now worker lease) id s.targets (λ u. refl) in
      ground (arith, row, found, hit)

  -- After a claim the claimer's commit under the new generation goes through, when it is valid, its
  -- rows satisfy the CHECKs of the tables and the generation has no run, and ends the lease as a holder's commit does; a valid commit of the same
  -- target under the generation before, that has no run, is refused as lost.
  pub claim_passes_lease :
      (i old : CommitInput)
      → (i.target_id ≡ id) × (i.worker_id ≡ worker) × (i.lease_generation ≡ suc t.lease_generation)
      → (old.target_id ≡ id) × (old.lease_generation ≡ t.lease_generation)
      → (valid_commit blank valid_json i ≡ true) × (valid_commit blank valid_json old ≡ true)
      → (find_run i.target_id i.lease_generation s.runs ≡ none)
        × (find_run old.target_id old.lease_generation s.runs ≡ none)
      → sequence_off i (claim_row now worker lease t) ≡ false
      → PassesChecks i
      → validate_seeds blank valid_json i.discovered ≡ none
      → (publishes i && oversized (event_of i after (claim_row now worker lease t))) ≡ false
      → ((s' : Store) × (commit blank valid_json oversized i after ≡ done s' s.next_run)
          × Wrote i after (claim_row now worker lease t) s' s.next_run)
        × (commit blank valid_json oversized old after ≡ refused CommitError.lease_lost)
  unfolding claim_row commit commit_locked
  claim_passes_lease i old (a, w, g) (b, h) (v, v') (n, n') fits checks seeds small =
      let here : find_target i.target_id after.targets ≡ some (claim_row now worker lease t) =
        ap (λ k. find_target k after.targets) a ∙ found_claimed in
      let there : find_target old.target_id after.targets ≡ some (claim_row now worker lease t) =
        ap (λ k. find_target k after.targets) b ∙ found_claimed in
      let mine : owned_by i.worker_id (claim_row now worker lease t) ≡ true =
        ground (arith, eq_iff worker i.worker_id, w) in
      (
        commit_holder_lem blank valid_json oversized i after (claim_row now worker lease t) here
            (sym g) v n mine fits checks seeds small,
        ground (arith, there, h),
      )
