-- ===== src/Scraper/Scheduler.antt =====
-- internal/scraper/scheduler.go: what a worker does with a claimed target until it runs, and a tick over
-- the targets that are due. The heartbeat, the logs and the counters of the metrics are left out.
pub mod Waiting
pub mod Ticks
use classroom.Base.{
  ℕ, zero, suc, ◌+◌, ◌-◌, ◌*◌, Bool, true, false, ◌||◌, ◌&&◌, not, Option, none, some, List, [],
  ◌∷◌, ◌++◌, ltb, leb, ◌==◌, if◌then◌else◌, length, min,
}
use classroom.Store.Target.{Target}

-- `SchedulerConfig`, of the limits that the functions below read.
pub record Config : Type 0 where
  pub max_concurrency : ℕ
  pub prefetch_factor : ℕ
  pub commit_grace : ℕ
  pub tick_limit : ℕ
  pub refresh_poll_interval : ℕ

-- The answer of `permits.Acquire`: its error, a permit, or the time of the next try, 0 for none.
pub data Decision : Type 0 where
  acquire_error permit : Decision
  retry_at : ℕ → Decision

-- One iteration of the loop: the context at its head, the clock, the answer, and whether the wait is
-- broken off.
pub record Round : Type 0 where
  pub done : Bool
  pub now : ℕ
  pub decision : Decision
  pub wait_broken : Bool

-- How `executeClaimed` ends for its target: the lease given back, put off to a time, or a run. `waiting`
-- is the loop after the rounds that are given.
pub data Ending : Type 0 where
  given_back runs waiting : Ending
  put_off : ℕ → Ending

-- The time of the next try.
abbrev pub next_try : Config → ℕ → ℕ → ℕ
next_try c now at = if at == 0 || ltb at now then now + c.refresh_poll_interval else at

-- Not before the end of the lease less the grace.
abbrev pub too_late : Config → Target → ℕ → Bool
too_late c t at = elim (t.lease_expires_at) [
  | none ↦ false
  | some end ↦ leb (end - c.commit_grace) at
]

-- The loop of `executeClaimed`, with the times until which it has waited.
unfoldable pub execute_claimed : Config → Target → List Round → List ℕ × Ending
execute_claimed c t [] = ([], waiting)
execute_claimed c t (r ∷ rs) =
    let rest = execute_claimed c t rs in
    if r.done then ([], given_back) else elim (r.decision) [
      | acquire_error ↦ ([], given_back)
      | permit ↦ ([], runs)
      | retry_at at ↦
          let next = next_try c r.now at in
          if too_late c t next
          then ([], put_off next)
          else if r.wait_broken
          then (next ∷ [], given_back)
          else (next ∷ rest.0, rest.1)
    ]

-- What a worker of a tick reports of its target: attempted or not, and how it ended.
pub data Report : Type 0 where
  canceled : Bool → Report
  error : Bool → Report
  postponed unsuccessful : Report
  success : Bool → Report

-- `TickResult`, with the targets that were put off.
pub record Tick : Type 0 where
  pub claimed : ℕ
  pub attempted : ℕ
  pub succeeded : ℕ
  pub changed : ℕ
  pub failed : ℕ
  pub canceled_count : ℕ
  pub postponed_count : ℕ

abbrev pub bit : Bool → ℕ
bit b = if b then 1 else 0

-- What a worker adds to the result.
unfoldable pub tally : Report → Tick → Tick
tally (canceled attempted) k = record k {
  attempted = k.attempted + bit attempted;
  canceled_count = suc k.canceled_count;
}
tally (error attempted) k = record k {
  attempted = k.attempted + bit attempted;
  failed = suc k.failed;
}
tally postponed k = record k { postponed_count = suc k.postponed_count }
tally unsuccessful k = record k { attempted = suc k.attempted; failed = suc k.failed }
tally (success changed) k = record k {
  attempted = suc k.attempted;
  succeeded = suc k.succeeded;
  changed = k.changed + bit changed;
}

-- What a tick uses: the database with its claims and the workers, in the order in which they end. The
-- claim is given its limit, `none` is its error; a worker is given its target.
pub record Services (S : Type 0) : Type 0 where
  pub claim_due : ℕ → S → Option (List Target × S)
  pub work : Target → S → Report × S
  pub context_done : S → Bool

-- How the loop of a tick ends; `out_of_fuel` is the loop with claims to go.
pub data TickEnd : Type 0 where
  ended claim_failed out_of_fuel : TickEnd

abbrev pub claim_limit : Config → ℕ → ℕ
claim_limit c remaining = min (c.max_concurrency * c.prefetch_factor) remaining

abbrev pub claim_more : Tick → List Target → Tick
claim_more k ts = record k { claimed = k.claimed + length ts }

abbrev pub no_tick : Tick
no_tick = record {
  claimed = 0;
  attempted = 0;
  succeeded = 0;
  changed = 0;
  failed = 0;
  canceled_count = 0;
  postponed_count = 0;
}

module _ {S : Type 0} (v : Services S) (c : Config) where
  -- The workers of one claim.
  unfoldable pub work_all : List Target → Tick → S → Tick × S
  unfolding tally
  work_all [] k s = (k, s)
  work_all (t ∷ ts) k s = let (report, s') = v.work t s in work_all ts (tally report k) s'

  -- The loop of `RunDue` under a limit, on fuel.
  unfoldable pub run_due : ℕ → ℕ → Tick → S → TickEnd × Tick
  unfolding work_all
  run_due zero limit k s =
      (if ltb k.claimed limit && not (v.context_done s) then out_of_fuel else ended, k)
  run_due (suc fuel) limit k s =
      if not (ltb k.claimed limit && not (v.context_done s))
      then (ended, k)
      else let batch = claim_limit c (limit - k.claimed) in
        elim (v.claim_due batch s) [
          | none ↦ (claim_failed, k)
          | some (ts, s') ↦
              let (k', s'') = work_all ts (claim_more k ts) s' in
              if length ts == 0
              then (ended, k)
              else if ltb (length ts) batch
              then (ended, k')
              else run_due fuel limit k' s''
        ]

  -- `RunDue`, whose limit is cut to that of the configuration; `none` is the error of a limit of 0. Each
  -- claim takes a target, so the limit is enough fuel.
  unfoldable pub run_tick : ℕ → S → Option (TickEnd × Tick)
  unfolding run_due
  run_tick limit s =
      if limit == 0
      then none
      else some (run_due (min limit c.tick_limit) (min limit c.tick_limit) no_tick s)
