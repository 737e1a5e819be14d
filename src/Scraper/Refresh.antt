-- ===== src/Scraper/Refresh.antt =====
-- `RefreshNow` of internal/scraper/scheduler.go: a refresh on demand, by an own run of the target or by
-- waiting for the run of another worker.
pub mod Coalesced
use classroom.Base.{
  ℕ, Bool, true, false, Option, none, some, List, [], ◌∷◌, String, ltb, if◌then◌else◌,
}
use classroom.Domain.Snapshot.{TargetRef, active, validate_ref}
use classroom.Scraper.Discover.{seed_of}
use classroom.Store.Target.{Target}
use classroom.Store.Seeds.{TargetSeed}

-- What the own run reports: an error, no attempt, or its success.
pub data OwnRun : Type 0 where
  run_error not_attempted : OwnRun
  attempted : Bool → OwnRun

-- What `ClaimOne` answers, with the run that follows a claim.
pub data Claim : Type 0 where
  claimed : OwnRun → Claim
  leased claim_error : Claim

-- How a refresh ends. `finished_without` is an own run without success, `attempt_failed` the failure of the
-- run that was waited for, `still_waiting` the loop after the rounds that are given.
pub data Refreshed : Type 0 where
  refreshed finished_without attempt_failed any_error still_waiting : Refreshed

unfoldable pub own_result : OwnRun → Refreshed
own_result run_error = any_error
own_result not_attempted = finished_without
own_result (attempted succeeded) = if succeeded then refreshed else finished_without

-- One iteration of the loop: whether the wait was broken off, the row that is read (`none` is an error),
-- the time, and the answer of a claim.
pub record Poll : Type 0 where
  pub wait_broken : Bool
  pub current : Option Target
  pub now : ℕ
  pub claim : Claim

-- The lease of the row is not over.
abbrev pub is_held : Target → ℕ → Bool
is_held t now = elim (t.lease_expires_at) [ none ↦ false | some end ↦ ltb now end ]

-- What the row says of the run that is waited for: `none` goes on.
unfoldable pub judge_row : Target → Target → Option Refreshed
judge_row baseline t =
    if ltb baseline.validation_seq t.validation_seq
    then some refreshed
    else if ltb baseline.consecutive_failures t.consecutive_failures
    then some attempt_failed
    else none

-- The loop from a read row on; `rest` is the loop after it.
unfoldable pub poll_row : Target → Poll → Refreshed → Target → Refreshed
unfolding judge_row own_result
poll_row baseline p rest t = elim (judge_row baseline t) [
  | some r ↦ r
  | none ↦
      if is_held t p.now
      then rest
      else elim (p.claim) [ leased ↦ rest | claim_error ↦ any_error | claimed run ↦ own_result run ]
]

-- The loop of `RefreshNow`, against the row that was read before.
unfoldable pub refresh_loop : Target → List Poll → Refreshed
unfolding poll_row
refresh_loop baseline [] = still_waiting
refresh_loop baseline (p ∷ ps) =
    let rest = refresh_loop baseline ps in
    if p.wait_broken
    then any_error
    else elim (p.current) [ none ↦ any_error | some t ↦ poll_row baseline p rest t ]

-- `seedForRef`, of a reference that has no row.
abbrev pub seed_for_ref : TargetRef → ℕ → TargetSeed
seed_for_ref r now = seed_of r "" 0 active now

-- `RefreshNow` from its first claim on.
unfoldable pub claim_or_wait : Target → Claim → List Poll → Refreshed
unfolding refresh_loop own_result
claim_or_wait baseline (claimed run) polls = own_result run
claim_or_wait baseline claim_error polls = any_error
claim_or_wait baseline leased polls = refresh_loop baseline polls

-- What a read of the target's row answers.
pub data Read : Type 0 where
  found : Target → Read
  missing read_error : Read

-- The repository's answers up to the claim: the first read, whether the seed of `seed_for_ref` is stored
-- and the read after it, and whether the target is made due.
pub record Start : Type 0 where
  pub first : Read
  pub seeded : Bool
  pub second : Read
  pub made_due : Bool

abbrev baseline_of : Start → Read
baseline_of s = elim (s.first) [
  | found t ↦ found t
  | missing ↦ if s.seeded then s.second else read_error
  | read_error ↦ read_error
]

-- `RefreshNow` of a reference; `blank` is the test of `validate_ref`.
unfoldable pub refresh_now : (String → Bool) → TargetRef → Start → Claim → List Poll → Refreshed
unfolding claim_or_wait
refresh_now blank r s claim polls = elim (validate_ref blank r) [
  | some e ↦ any_error
  | none ↦ elim (baseline_of s) [
    | found t ↦ if s.made_due then claim_or_wait t claim polls else any_error
    | missing ↦ any_error
    | read_error ↦ any_error
  ]
]
