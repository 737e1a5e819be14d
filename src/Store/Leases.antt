-- ===== src/Store/Leases.antt =====
-- The lease statements of internal/db/snapshot_repository.go: `ClaimDue`, `ClaimOne`, `ReleaseLease`,
-- `RenewLease`, `SetDueNow` and `RescheduleLease`.
use classroom.Base.{
  ℕ, suc, ◌+◌, ◌*◌, min, Bool, true, false, ◌||◌, ◌&&◌, not, String, Option, none, some, List, [],
  ◌∷◌, ltb, leb, ◌==◌, str_eq, if◌then◌else◌, zero,
}
use classroom.Domain.Snapshot.{TargetRef, validate_ref, ref_eq}
use classroom.Store.Target.{Target, LifecycleState, update_where, any_row}
use classroom.Store.Seeds.{second, duration_seconds}

-- Why a statement on a lease fails. `invalid_request` is every check of the arguments.
pub data LeaseError : Type 0 where
  invalid_request not_found host_paused target_leased lease_lost : LeaseError

pub data Result {ℓ} (A : Type ℓ) : Type ℓ where
  ok : A → Result A
  fail : LeaseError → Result A

-- `validateClaim`, with the zero time as 0.
abbrev pub valid_claim : (String → Bool) → ℕ → String → ℕ → Bool
valid_claim blank now worker lease = not (now == 0) && not (blank worker) && not (lease == 0)

abbrev pub lease_free : ℕ → Target → Bool
lease_free now t = elim (t.lease_expires_at) [ none ↦ true | some at ↦ leb at now ]

-- The row of the target's host in `scrape_host_state`, if there is one, by its `paused_until`.
abbrev pub Pauses : Type 0
Pauses = String → Option (Option ℕ)

-- The JOIN with the host's row, which is not paused.
abbrev pub host_open : Pauses → ℕ → Target → Bool
host_open pauses now t = elim (pauses t.ref.host) [
  | none ↦ false
  | some none ↦ true
  | some (some until) ↦ leb until now
]

abbrev pub is_active : LifecycleState → Bool
is_active LifecycleState.active = true
is_active _ = false

-- The WHERE of `ClaimDue`.
unfoldable pub is_due : Pauses → ℕ → Target → Bool
is_due pauses now t =
    t.enabled
    && is_active t.lifecycle_state
    && leb t.next_run_at now
    && lease_free now t
    && host_open pauses now t

-- The SET of both claims.
unfoldable pub claim_row : ℕ → String → ℕ → Target → Target
claim_row now worker lease t = record t {
  lease_owner = some worker;
  lease_generation = suc t.lease_generation;
  lease_expires_at = some (now + duration_seconds lease * second);
  last_attempt_at = some now;
}

-- The order of `ClaimDue`, in SQL and again in Go: by priority, then time, then key.
unfoldable pub claim_before : Target → Target → Bool
claim_before a b =
    if not (a.priority == b.priority)
    then ltb a.priority b.priority
    else if a.next_run_at == b.next_run_at
    then ltb a.id b.id
    else ltb a.next_run_at b.next_run_at

unfoldable pub insert_claim : Target → List Target → List Target
insert_claim t [] = t ∷ []
insert_claim t (u ∷ us) =
    let rest = insert_claim t us in if claim_before u t then u ∷ rest else t ∷ u ∷ us

unfoldable pub sort_claims : List Target → List Target
sort_claims [] = []
sort_claims (t ∷ ts) = insert_claim t (sort_claims ts)

unfoldable pub select : (Target → Bool) → List Target → List Target
select p [] = []
select p (t ∷ ts) = let rest = select p ts in if p t then t ∷ rest else rest

unfoldable pub limit : ℕ → List Target → List Target
limit zero ts = []
limit (suc n) [] = []
limit (suc n) (t ∷ ts) = t ∷ limit n ts

unfoldable pub has_id : List Target → ℕ → Bool
has_id [] k = false
has_id (t ∷ ts) k = t.id == k || has_id ts k

-- The rows of the CTE `due`: in order, less those that another transaction has locked, at most `n`.
unfoldable pub pick_due : Pauses → (ℕ → Bool) → ℕ → ℕ → List Target → List Target
pick_due pauses locked now n ts =
    limit n (select (λ t. not (locked t.id)) (sort_claims (select (is_due pauses now) ts)))

-- `ClaimDue`: the table afterwards, and the claimed rows in order.
unfoldable pub claim_due :
    (String → Bool)
    → Pauses
    → (ℕ → Bool)
    → ℕ
    → ℕ
    → String
    → ℕ
    → List Target
    → Result (List Target × List Target)
claim_due blank pauses locked now n worker lease ts =
    if n == 0 || not (valid_claim blank now worker lease)
    then fail invalid_request
    else let due = pick_due pauses locked now n ts in
      let after = update_where (λ t. has_id due t.id) (claim_row now worker lease) ts in
      ok (after, sort_claims (select (λ t. has_id due t.id) after))

-- SELECT ... WHERE host, kind, parent_key and resource_key are those of the reference.
unfoldable pub find_ref : TargetRef → List Target → Option Target
find_ref r [] = none
find_ref r (t ∷ ts) = if ref_eq t.ref r then some t else find_ref r ts

-- The WHERE of `ClaimOne`, of a row that is not locked.
unfoldable pub is_claimable : Pauses → (ℕ → Bool) → ℕ → TargetRef → Target → Bool
is_claimable pauses locked now r t =
    ref_eq t.ref r && t.enabled && lease_free now t && host_open pauses now t && not (locked t.id)

-- What `ClaimOne` reports when no row was claimed.
unfoldable pub why_unclaimed : Pauses → ℕ → Option Target → LeaseError
why_unclaimed pauses now none = not_found
why_unclaimed pauses now (some t) = elim (pauses t.ref.host) [
  | none ↦ not_found
  | some none ↦ if t.enabled then target_leased else not_found
  | some (some until) ↦
      if not t.enabled then not_found else if ltb now until then host_paused else target_leased
]

-- `ClaimOne`: the table afterwards, and the claimed row.
unfoldable pub claim_one :
    (String → Bool)
    → Pauses
    → (ℕ → Bool)
    → TargetRef
    → ℕ
    → String
    → ℕ
    → List Target
    → Result (List Target × Option Target)
claim_one blank pauses locked r now worker lease ts = elim (validate_ref blank r) [
  | some e ↦ fail invalid_request
  | none ↦
      let after = update_where (is_claimable pauses locked now r) (claim_row now worker lease) ts in
      if not (valid_claim blank now worker lease)
      then fail invalid_request
      else if any_row (is_claimable pauses locked now r) ts
      then ok (after, find_ref r after)
      else fail (why_unclaimed pauses now (find_ref r ts))
]

-- WHERE id = $1 AND lease_generation = $2.
abbrev pub fenced_by : ℕ → ℕ → Target → Bool
fenced_by id generation t = t.id == id && t.lease_generation == generation

-- `ReleaseLease`: a stale generation changes nothing and is no error.
unfoldable pub release_lease : ℕ → ℕ → List Target → Result (List Target)
release_lease id generation ts =
    if id == 0 || generation == 0
    then fail invalid_request
    else ok (
        update_where (fenced_by id generation)
          (λ t. record t { lease_owner = none; lease_expires_at = none }) ts)

abbrev pub owned_by : String → Target → Bool
owned_by worker t = elim (t.lease_owner) [ none ↦ false | some w ↦ str_eq w worker ]

-- WHERE id = $3 AND lease_owner = $4 AND lease_generation = $5.
abbrev pub held_by : ℕ → String → ℕ → Target → Bool
held_by id worker generation t = fenced_by id generation t && owned_by worker t

-- `RenewLease`.
unfoldable pub renew_lease :
    (String → Bool) → ℕ → String → ℕ → ℕ → ℕ → List Target → Result (List Target)
renew_lease blank id worker generation lease now ts =
    if id == 0 || generation == 0 || blank worker || lease == 0
    then fail invalid_request
    else if any_row (held_by id worker generation) ts
    then ok (
        update_where (held_by id worker generation)
          (λ t. record t { lease_expires_at = some (now + duration_seconds lease * second) }) ts)
    else fail lease_lost

-- `SetDueNow`.
unfoldable pub set_due_now : (String → Bool) → TargetRef → ℕ → List Target → Result (List Target)
set_due_now blank r now ts = elim (validate_ref blank r) [
  | some e ↦ fail invalid_request
  | none ↦
      if any_row (λ t. ref_eq t.ref r) ts
      then ok (
          update_where (λ t. ref_eq t.ref r) (λ t. record t { next_run_at = min t.next_run_at now })
            ts)
      else fail not_found
]

-- `RescheduleLease`.
unfoldable pub reschedule_lease : ℕ → ℕ → ℕ → List Target → Result (List Target)
reschedule_lease id generation next_run ts =
    if any_row (fenced_by id generation) ts
    then ok (
        update_where (fenced_by id generation)
          (λ t. record t { next_run_at = next_run; lease_owner = none; lease_expires_at = none })
          ts)
    else fail lease_lost
