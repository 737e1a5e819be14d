-- ===== src/Tests/Sessions.antt =====
-- internal/warwick/session_pool.go and internal/scraper/scheduler.go at concrete inputs.
use classroom.Base.{
  ℕ, zero, suc, ◌-◌, ◌*◌, ap, ◌≤◌, ◌<◌, ◌≡◌, ◌≢◌, refl, true, false, some, List, [], ◌∷◌, arith,
  All, length, min,
}
use classroom.Domain.Snapshot.{course_catalog}
use classroom.Scraper.Policy.{minute, hour, day}
use classroom.Scraper.Scheduler.{
  Config, Round, retry_at, waiting, execute_claimed, Services, success, Tick, TickEnd, out_of_fuel,
  run_tick,
}
use classroom.Scraper.Scheduler.Waiting.{execute_claimed_ends, deadline}
use classroom.Scraper.Scheduler.Ticks.{run_tick_ends, IsBalanced}
use classroom.Store.Target.{Target}
use classroom.Store.Seeds.{new_row}
use classroom.Store.Leases.{claim_row}
use classroom.Warwick.Sessions.{Session, logged_in}
use classroom.Warwick.Sessions.Pool.{
  Tier, qr, teacher, Visit, full_pool, new_pool, acquire, out_of_range,
}
use classroom.Warwick.Sessions.Inventory.{
  IsConserved, Use, acquires, releases, use_all, pool-IsConserved,
}

abbrev start : ℕ → Session
start i = record {
  cookie = "";
  obtained_at = 0;
  expires_at = 0;
  generation = 0;
  backed_off_until = 0;
  backoff_count = 0;
}

abbrev visit : Visit
visit = record { done_before = false; done_after = false; now = 10; login = logged_in "c" }

abbrev uses : List Use
uses = acquires qr visit ∷ acquires qr visit ∷ releases 0 ∷ releases 0 ∷ acquires teacher visit ∷ []

pool-IsConserved_example :
    IsConserved (use_all uses (full_pool start 1 2 1))
    × ((tier : Tier) (v : Visit)
        → (acquire tier v (use_all uses (full_pool start 1 2 1))).0 ≢ out_of_range)
unfolding new_pool
pool-IsConserved_example = pool-IsConserved start 1 2 1 (full_pool start 1 2 1) uses refl

-- A session that was obtained a minute ago, and lost its cookie.
abbrev kicked : Session
kicked = record (start 0) { obtained_at = hour }

abbrev resting : Session
resting = record kicked { backed_off_until = 2 * hour }

abbrev config : Config
config = record {
  max_concurrency = 2;
  prefetch_factor = 1;
  commit_grace = 10;
  tick_limit = 5;
  refresh_poll_interval = 3;
}

abbrev target : Target
target =
    record (claim_row 9 "w" minute (
      new_row 1 (record {
        ref = record { host = "h"; kind = course_catalog; resource_key = "all"; parent_key = "" };
        attributes = "";
        priority = 40;
        initial_interval = hour;
        min_interval = minute;
        max_interval = day;
        max_serve_age = 2 * day;
        next_run_at = 7;
      }))) { lease_expires_at = some 13 }

abbrev round : ℕ → Round
round now = record { done = false; now = now; decision = retry_at now; wait_broken = false }

abbrev rounds : List Round
rounds = round 1 ∷ round 2 ∷ round 3 ∷ round 4 ∷ []

execute_claimed_ends_example :
    All (λ w. w < deadline config 13) (execute_claimed config target rounds).0
    × ((execute_claimed config target rounds).1 ≢ waiting)
execute_claimed_ends_example =
    execute_claimed_ends config target 13 1 rounds refl
      (omega arith, (omega arith, (omega arith, (omega arith, tt)))) (omega arith)

-- A database in which `n` targets are due, which all succeed.
abbrev copies : ℕ → List Target
copies zero = []
copies (suc n) = target ∷ copies n

length-copies : (n : ℕ) → length (copies n) ≡ n
length-copies zero = refl
length-copies (suc n) = ap suc (length-copies n)

abbrev services : Services ℕ
services = record {
  claim_due = λ limit n. some (copies (min limit n), n - min limit n);
  work = λ t n. (success true, n);
  context_done = λ n. false;
}

services_claim_within :
    (limit n : ℕ) (ts : List Target) (n' : ℕ)
    → services.claim_due limit n ≡ some (ts, n')
    → length ts ≤ limit
services_claim_within limit n ts n' e =
    let same : copies (min limit n) ≡ ts = cc in
    let size : length (copies (min limit n)) ≡ length ts = ap length same in
    omega (arith, size, length-copies (min limit n))

run_tick_ends_example :
    (end : TickEnd) × (k : Tick) × (run_tick services config 4 3 ≡ some (end, k))
    × (end ≢ out_of_fuel)
    × IsBalanced k
    × (k.claimed ≤ min 4 config.tick_limit)
run_tick_ends_example = run_tick_ends services config services_claim_within 4 3 (omega arith)
