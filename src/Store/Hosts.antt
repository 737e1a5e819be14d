-- ===== src/Store/Hosts.antt =====
-- The limits per host in internal/db/snapshot_repository.go: `AcquireHostPermit` with its token bucket,
-- and `ObserveHost`.
use classroom.Base.{
  ℕ, suc, ◌+◌, ◌-◌, min, max, Bool, false, ◌||◌, ◌&&◌, not, String, Option, none, some, List, [],
  ◌∷◌, ◌++◌, ltb, leb, ◌==◌, str_eq, if◌then◌else◌,
}
use classroom.Store.Target.{Target, find_target}

-- The floating point numbers of rates and tokens, by what is used of them: comparison, arithmetic, the
-- constants, and the conversions from a count and to and from a duration.
pub record Floats (R : Type 0) : Type 0 where
  pub lt : R → R → Bool
  pub plus : R → R → R
  pub minus : R → R → R
  pub times : R → R → R
  pub over : R → R → R
  pub half : R → R
  pub zero_ : R
  pub one_ : R
  pub quarter : R
  pub of_count : ℕ → R
  pub seconds : ℕ → R
  pub duration : R → ℕ

pub record HostState (R : Type 0) : Type 0 where
  pub host : String
  pub baseline_rps : R
  pub current_rps : R
  pub burst : ℕ
  pub available_tokens : R
  pub tokens_updated_at : ℕ
  pub baseline_concurrency : ℕ
  pub current_concurrency : ℕ
  pub consecutive_429s : ℕ
  pub last_429_at : Option ℕ
  pub healthy_streak : ℕ
  pub paused_until : Option ℕ

-- A row of `scrape_host_permits`.
pub record Permit : Type 0 where
  pub id : ℕ
  pub host : String
  pub target_id : ℕ
  pub worker_id : String
  pub lease_generation : ℕ
  pub expires_at : ℕ

pub record PermitRequest : Type 0 where
  pub host : String
  pub target_id : ℕ
  pub worker_id : String
  pub lease_generation : ℕ
  pub now : ℕ
  pub ttl : ℕ

-- `domain.PermitDecision`: a permit, or when to try again, and whether the host is paused.
pub data PermitDecision : Type 0 where
  granted : Permit → PermitDecision
  retry_at : ℕ → PermitDecision
  paused : ℕ → PermitDecision

pub data PermitError : Type 0 where
  invalid_permit_request permit_lease_lost : PermitError

-- The locked host, the permits and the next key.
pub record Permits (R : Type 0) : Type 0 where
  pub state : HostState R
  pub rows : List Permit
  pub next_permit : ℕ

pub data Acquired (R : Type 0) : Type 0 where
  decided : Permits R → PermitDecision → Acquired R
  rejected : PermitError → Acquired R

-- A permit of the lease that has not expired.
unfoldable pub find_permit : ℕ → ℕ → ℕ → List Permit → Option Permit
find_permit id generation now [] = none
find_permit id generation now (p ∷ ps) =
    let rest = find_permit id generation now ps in
    if p.target_id == id && p.lease_generation == generation && ltb now p.expires_at
    then some p
    else rest

-- DELETE ... WHERE host = $1 AND expires_at <= $2.
unfoldable pub drop_expired : String → ℕ → List Permit → List Permit
drop_expired host now [] = []
drop_expired host now (p ∷ ps) =
    let rest = drop_expired host now ps in
    if str_eq p.host host && leb p.expires_at now then rest else p ∷ rest

-- COUNT(*) and MIN(expires_at) of the host's permits that have not expired.
unfoldable pub count_active : String → ℕ → List Permit → ℕ
count_active host now [] = 0
count_active host now (p ∷ ps) =
    let rest = count_active host now ps in
    if str_eq p.host host && ltb now p.expires_at then suc rest else rest

unfoldable pub earliest : String → ℕ → List Permit → Option ℕ
earliest host now [] = none
earliest host now (p ∷ ps) =
    let rest = earliest host now ps in
    if str_eq p.host host && ltb now p.expires_at
    then elim rest [ none ↦ some p.expires_at | some at ↦ some (min p.expires_at at) ]
    else rest

abbrev pub is_paused : Option ℕ → ℕ → Bool
is_paused none now = false
is_paused (some until) now = ltb now until

module _ {R : Type 0} (F : Floats R) where
  -- `refillTokens`. The elapsed time stops at 0, as the source's does.
  unfoldable pub refill_tokens : HostState R → ℕ → R
  refill_tokens h now =
      let raw =
        F.plus h.available_tokens (F.times (F.seconds (now - h.tokens_updated_at)) h.current_rps) in
      let refilled = if F.lt (F.of_count h.burst) raw then F.of_count h.burst else raw in
      if F.lt refilled F.zero_ then F.zero_ else refilled

  -- `persistTokens`.
  abbrev pub persist_tokens : R → ℕ → HostState R → HostState R
  persist_tokens tokens now h = record h { available_tokens = tokens; tokens_updated_at = now }

  abbrev pub permit_of : PermitRequest → ℕ → ℕ → Permit
  permit_of r now id = record {
    id = id;
    host = r.host;
    target_id = r.target_id;
    worker_id = r.worker_id;
    lease_generation = r.lease_generation;
    expires_at = now + r.ttl;
  }

  -- The rules on the locked host, from its pause on; `now` has been moved up to the bucket's clock and
  -- the expired permits are gone.
  unfoldable pub decide : PermitRequest → ℕ → Permits R → Acquired R
  unfolding refill_tokens count_active earliest
  decide r now db =
      let h = db.state in
      let refilled = refill_tokens h now in
      if is_paused h.paused_until now
      then decided db (paused (elim (h.paused_until) [ none ↦ 0 | some at ↦ at ]))
      else if leb h.current_concurrency (count_active r.host now db.rows)
      then decided (record db { state = persist_tokens refilled now h })
          (retry_at (elim (earliest r.host now db.rows) [ none ↦ now + r.ttl | some at ↦ at ]))
      else if F.lt refilled F.one_
      then decided (record db { state = persist_tokens refilled now h })
          (retry_at (now + F.duration (F.over (F.minus F.one_ refilled) h.current_rps)))
      else decided
          (record {
            state = persist_tokens (F.minus refilled F.one_) now h;
            rows = db.rows ++ permit_of r now db.next_permit ∷ [];
            next_permit = suc db.next_permit;
          })
          (granted (permit_of r now db.next_permit))

  -- The fence, and the deletion of the expired permits before it.
  unfoldable pub acquire_locked : PermitRequest → Option Target → Permits R → Acquired R
  unfolding drop_expired decide
  acquire_locked r none db = rejected permit_lease_lost
  acquire_locked r (some t) db =
      let now = max r.now db.state.tokens_updated_at in
      if not (str_eq t.ref.host r.host) || not (t.lease_generation == r.lease_generation)
      then rejected permit_lease_lost
      else decide r now (record db { rows = drop_expired r.host now db.rows })

  -- `AcquireHostPermit`, of a host whose row is `db.state`; `blank s` is `strings.TrimSpace(s) == ""`.
  unfoldable pub acquire_host_permit :
      (String → Bool) → PermitRequest → List Target → Permits R → Acquired R
  unfolding acquire_locked find_permit
  acquire_host_permit blank r targets db =
      if blank r.host
        || blank r.worker_id
        || r.target_id == 0
        || r.lease_generation == 0
        || r.now == 0
        || r.ttl == 0
      then rejected invalid_permit_request
      else elim (find_permit r.target_id r.lease_generation r.now db.rows) [
        | some p ↦ decided db (granted p)
        | none ↦ acquire_locked r (find_target r.target_id targets) db
      ]

-- `ReleaseHostPermit`.
unfoldable pub release_permit : ℕ → List Permit → List Permit
release_permit id [] = []
release_permit id (p ∷ ps) =
    let rest = release_permit id ps in if p.id == id && not (id == 0) then rest else p ∷ rest
