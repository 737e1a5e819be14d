-- ===== src/Store/Claims.antt =====
-- The claims of internal/db/snapshot_repository.go: what they take, in which order, and for how long.
use classroom.Base.{
  ℕ, ◌+◌, ◌*◌, ◌≤◌, ◌<◌, ◌≡◌, refl, Bool, true, false, ◌&&◌, not, String, some, List, ◌==◌, arith,
  All, length,
}
use classroom.Domain.Snapshot.{TargetRef}
use classroom.Store.Target.{Target, update_where}
use classroom.Store.Seeds.{second, duration_seconds}
use classroom.Store.Leases.{
  Pauses, is_due, is_claimable, claim_row, claim_before, sort_claims, select, has_id, pick_due,
  claim_due, ok,
}
use classroom.Store.Order.{
  IsOrdered, sort-IsOrdered, All-sort, All-select, Any, All-unit, In, In-sort, In-select,
  select-IsOrdered, All-limit, length-limit, limit-urgent, select-update_where,
}

module _ (blank : String → Bool) (pauses : Pauses) (locked : ℕ → Bool) (now n : ℕ) (worker : String)
    (lease : ℕ) (ts : List Target) where
  abbrev pub due : List Target
  due = pick_due pauses locked now n ts

  -- The rows of which `due` are the first.
  abbrev queue : List Target
  queue = select (λ t. not (locked t.id)) (sort_claims (select (is_due pauses now) ts))

  queue-IsOrdered : IsOrdered queue
  queue-IsOrdered = select-IsOrdered _ _ (sort-IsOrdered (select (is_due pauses now) ts))

  queue_due : All (λ t. (Any t × (is_due pauses now t ≡ true)) × (not (locked t.id) ≡ true)) queue
  queue_due =
      All-select (λ t. Any t × (is_due pauses now t ≡ true)) (λ t. not (locked t.id)) _
        (All-sort (λ t. Any t × (is_due pauses now t ≡ true)) (select (is_due pauses now) ts)
          (All-select Any (is_due pauses now) ts (All-unit ts)))

  abbrev after_claim : List Target
  after_claim = update_where (λ t. has_id due t.id) (claim_row now worker lease) ts

  -- What a claimed row is afterwards.
  abbrev pub IsClaimed : Target → Type 0
  IsClaimed u =
      ((u.lease_owner ≡ some worker)
        × (u.lease_expires_at ≡ some (now + duration_seconds lease * second)))
      × (has_id due u.id ≡ true)

  -- `ClaimDue` with a positive limit and a valid request picks at most `limit` rows, each of them due
  -- and not locked, and none of the due rows that it leaves unlocked and unclaimed goes before a
  -- picked one. What it returns is in order, and every returned row is of a picked key and leased to
  -- the worker from now for the seconds of the lease.
  pub claim_due_lem :
      (n == 0) ≡ false
      → (not (now == 0) && not (blank worker) && not (lease == 0)) ≡ true
      → (after claimed : List Target) × (claim_due blank pauses locked now n worker lease ts
          ≡ ok (after, claimed))
        × (length due ≤ n)
        × All (λ t. (Any t × (is_due pauses now t ≡ true)) × (not (locked t.id) ≡ true)) due
        × ((t : Target)
            → In t ts
            → is_due pauses now t ≡ true
            → not (locked t.id) ≡ true
            → has_id due t.id ≡ false
            → All (λ u. claim_before t u ≡ false) due)
        × IsOrdered claimed
        × All IsClaimed claimed
  unfolding claim_due pick_due claim_row
  claim_due_lem some_limit valid = (
    after_claim,
    sort_claims (select (λ t. has_id due t.id) after_claim),
    rw (some_limit, valid) refl,
    length-limit n queue,
    All-limit _ n queue queue_due,
    (λ t i d u h.
        limit-urgent n t queue queue-IsOrdered
          (In-select _ t _ u (In-sort t _ (In-select _ t ts d i))) h),
    sort-IsOrdered _,
    All-sort IsClaimed _ (
        select-update_where (λ t. has_id due t.id) (claim_row now worker lease)
          (λ u.
            (u.lease_owner ≡ some worker)
            × (u.lease_expires_at ≡ some (now + duration_seconds lease * second)))
          ts (λ t. refl) (λ t. (refl, refl))),
  )

-- While a lease runs, nobody else claims the row: for neither claim does it qualify before the lease
-- has expired, and its generation is a new one.
pub claimed_row_is_taken :
    (pauses : Pauses) (locked : ℕ → Bool) (now later : ℕ) (worker : String) (lease : ℕ)
    (r : TargetRef) (t : Target)
    → later < now + duration_seconds lease * second
    → (is_due pauses later (claim_row now worker lease t) ≡ false)
      × (is_claimable pauses locked later r (claim_row now worker lease t) ≡ false)
      × (t.lease_generation < (claim_row now worker lease t).lease_generation)
unfolding is_due is_claimable claim_row
claimed_row_is_taken pauses locked now later worker lease r t h =
    (ground arith, ground arith, omega arith)
