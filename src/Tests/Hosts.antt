-- ===== src/Tests/Hosts.antt =====
-- The host limits of internal/db/snapshot_repository.go at concrete inputs, with rates and tokens as
-- natural numbers of thousandths.
use classroom.Base.{ℕ, ◌+◌, ◌-◌, ◌*◌, ◌/◌, ◌≤◌, ◌≡◌, refl, false, none, some, [], ltb, arith}
use classroom.Scraper.Policy.{minute}
use classroom.Scraper.Policy.{second}
use classroom.Store.Hosts.{Floats, HostState, PermitRequest, Permits, decide}
use classroom.Store.Observe.{rate_limited, observe_host}
use classroom.Store.Bucket.{Lawful, IsWithin, observe_host-IsWithin}
use classroom.Store.Grants.{Decides, decide_lem}

abbrev pub thousandths : Floats ℕ
thousandths = record {
  lt = ltb;
  plus = λ x y. x + y;
  minus = λ x y. x - y;
  times = λ x y. x * y / 1000;
  over = λ x y. x * 1000 / y;
  half = λ x. x / 2;
  zero_ = 0;
  one_ = 1000;
  quarter = 250;
  of_count = λ n. n * 1000;
  seconds = λ n. n / 1_000_000;
  duration = λ x. x * 1_000_000;
}

thousandths-Lawful : Lawful thousandths
thousandths-Lawful = record {
  irreflexive = λ x. ground arith;
  count_low = λ n. ground arith;
  half_low = λ x y h k. ground arith;
  quarter_up = λ x h. ground arith;
}

abbrev busy : HostState ℕ
busy = record {
  host = "h";
  baseline_rps = 1000;
  current_rps = 500;
  burst = 2;
  available_tokens = 1500;
  tokens_updated_at = 5 * second;
  baseline_concurrency = 2;
  current_concurrency = 2;
  consecutive_429s = 0;
  last_429_at = some (4 * second);
  healthy_streak = 19;
  paused_until = none;
}

busy-IsWithin : IsWithin thousandths busy
busy-IsWithin = record {
  base_low = refl;
  rps_low = refl;
  rps_high = refl;
  conc_low = omega arith;
  conc_high = omega arith;
}

observe_host-IsWithin_example :
    IsWithin thousandths (observe_host thousandths (6 * second) (rate_limited minute) busy)
    × (busy.tokens_updated_at
        ≤ (observe_host thousandths (6 * second) (rate_limited minute) busy).tokens_updated_at)
    × (ltb (observe_host thousandths (6 * second) (rate_limited minute) busy).available_tokens 0
        ≡ false)
    × (ltb 2000 (observe_host thousandths (6 * second) (rate_limited minute) busy).available_tokens
        ≡ false)
observe_host-IsWithin_example =
    observe_host-IsWithin thousandths thousandths-Lawful (6 * second) (rate_limited minute) busy
      busy-IsWithin

abbrev request : PermitRequest
request = record {
  host = "h";
  target_id = 1;
  worker_id = "w";
  lease_generation = 1;
  now = 6 * second;
  ttl = minute;
}

abbrev permits : Permits ℕ
permits = record { state = busy; rows = []; next_permit = 1 }

decide_lem_example :
    Decides thousandths request
      (6 * second)
      permits
      (decide thousandths request (6 * second) permits)
decide_lem_example = decide_lem thousandths request (6 * second) permits
