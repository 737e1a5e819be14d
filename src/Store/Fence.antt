-- ===== src/Store/Fence.antt =====
-- The lease generations of internal/db/snapshot_repository.go as fences: an old lease changes nothing.
use classroom.Base.{
  ℕ, ◌≡◌, ◌≢◌, refl, Bool, true, false, String, none, some, List, [], ◌∷◌, ◌==◌, arith, All,
}
use classroom.Store.Target.{Target, update_where, any_row, find_target, update_where_none}
use classroom.Store.Leases.{
  ok, fail, lease_lost, fenced_by, held_by, release_lease, renew_lease, reschedule_lease,
}
use classroom.Store.Rows.{CommitInput, Store, CommitError, refused, valid_commit, find_run}
use classroom.Store.Commit.{commit, commit_locked}

-- The primary key: no two rows have one `id`.
abbrev pub IsKeyed : List Target → Type 0
IsKeyed [] = Unit
IsKeyed (t ∷ ts) = All (λ u. u.id ≢ t.id) ts × IsKeyed ts

no_other :
    (id generation : ℕ) (ts : List Target) (t : Target)
    → t.id ≡ id
    → All (λ u. u.id ≢ t.id) ts
    → any_row (fenced_by id generation) ts ≡ false
unfolding any_row
no_other id generation [] t e h = refl
no_other id generation (u ∷ us) t e (n, ns) = ground (arith, no_other id generation us t e ns)

-- No row answers to a generation that is not the one of the key's row.
pub fenced_off :
    (id generation : ℕ) (ts : List Target) (t : Target)
    → IsKeyed ts
    → find_target id ts ≡ some t
    → t.lease_generation ≢ generation
    → any_row (fenced_by id generation) ts ≡ false
unfolding find_target any_row
fenced_off id generation [] t k h n = refl
fenced_off id generation (u ∷ us) t (a, k) h n =
    ground (arith, no_other id generation us u, fenced_off id generation us t k)

held_off :
    (id : ℕ) (worker : String) (generation : ℕ) (ts : List Target)
    → any_row (fenced_by id generation) ts ≡ false
    → any_row (held_by id worker generation) ts ≡ false
unfolding any_row
held_off id worker generation [] h = refl
held_off id worker generation (u ∷ us) h = ground (arith, held_off id worker generation us)

-- A worker whose generation is no longer that of the target has lost it: its release changes no row,
-- its renewal and its rescheduling fail as lost, and its commit, when it is valid and has no run yet,
-- fails as lost too and so writes nothing.
pub stale_lease_is_lost :
    (blank valid_json : String → Bool) (oversized : _) (i : CommitInput) (s : Store) (t : Target)
    (lease now next_run : ℕ)
    → IsKeyed s.targets
    → find_target i.target_id s.targets ≡ some t
    → t.lease_generation ≢ i.lease_generation
    → valid_commit blank valid_json i ≡ true
    → find_run i.target_id i.lease_generation s.runs ≡ none
    → (lease == 0) ≡ false
    → (release_lease i.target_id i.lease_generation s.targets ≡ ok s.targets)
      × (renew_lease blank i.target_id i.worker_id i.lease_generation lease now s.targets
          ≡ fail lease_lost)
      × (reschedule_lease i.target_id i.lease_generation next_run s.targets ≡ fail lease_lost)
      × (commit blank valid_json oversized i s ≡ refused CommitError.lease_lost)
unfolding release_lease renew_lease reschedule_lease commit commit_locked valid_commit
stale_lease_is_lost blank valid_json oversized i s t lease now next_run keyed found stale valid
      none_yet positive =
    let off = fenced_off i.target_id i.lease_generation s.targets t keyed found stale in
    let off' = held_off i.target_id i.worker_id i.lease_generation s.targets off in
    let same : update_where (fenced_by i.target_id i.lease_generation)
          (λ t. record t { lease_owner = none; lease_expires_at = none }) s.targets
        ≡ s.targets =
      update_where_none (fenced_by i.target_id i.lease_generation) _ s.targets off in
    (ground (arith, same), ground arith, ground arith, ground arith)
