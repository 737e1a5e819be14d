-- ===== src/Tests/Limits.antt =====
-- internal/middleware/ratelimit.go at concrete inputs, with thousandths as numbers.
use classroom.Base.{ℕ, ◌*◌, ◌≡◌, ◌≤◌, refl, arith, false, [], ◌∷◌, List, All, length, min, ltb}
use classroom.Middleware.RateLimit.{Limiter, new_limiter}
use classroom.Middleware.RateLimit.Bounds.{
  IsOrdered, Event, asks, cleans, handle_all, limiter_bounds,
}
use classroom.Middleware.RateLimit.Bursts.{IsExact, passes, burst_passes}
use classroom.Tests.Hosts.{thousandths}

thousandths-IsOrdered : IsOrdered thousandths
thousandths-IsOrdered = record {
  irreflexive = λ x. ground arith;
  minus_below = λ b x h. ground arith;
}

abbrev requests : List Event
requests =
    asks "a" 1 2
    ∷ asks "b" 3 3
    ∷ asks "a" 4 4
    ∷ cleans 400000000000
    ∷ asks "a" 400000000001 400000000002
    ∷ []

limiter_bounds_example :
    All
      (λ e. ltb (3 * 1000) e.1.tokens ≡ false)
      (handle_all thousandths requests (new_limiter thousandths 2000 3)).visitors
    × (length (handle_all thousandths requests (new_limiter thousandths 2000 3)).visitors ≤ 100000)
limiter_bounds_example = limiter_bounds thousandths thousandths-IsOrdered 2000 3 requests

thousandths-IsExact : IsExact thousandths 2000 3
thousandths-IsExact = record {
  no_time = λ x. omega arith;
  compares = λ n h. ground arith;
  zero_below_one = refl;
  not_below_one = λ n h. ground arith;
  counts_down = λ n h. omega arith;
}

abbrev idle : Limiter ℕ
idle = record {
  visitors = [];
  rate = 2000;
  burst = 3;
  max_visitors = 100000;
  cleanup_interval = 300000000000;
}

burst_passes_example : passes thousandths "a" 7 5 idle ≡ min 5 3
burst_passes_example = burst_passes thousandths "a" 7 5 idle thousandths-IsExact refl (omega arith)
