-- ===== src/Middleware/RateLimit.antt =====
-- internal/middleware/ratelimit.go: a bucket of tokens for each address, under one lock. The floating point
-- numbers are those of the limits per host.
pub mod Bounds
pub mod Bursts
use classroom.Base.{
  ℕ, ◌+◌, ◌-◌, Bool, true, false, ◌&&◌, not, String, Option, none, some, List, [], ◌∷◌, ltb, leb,
  if◌then◌else◌, length, put, get,
}
use classroom.Store.Hosts.{Floats}

-- `rateLimiterEntry`.
pub record Bucket (R : Type 0) : Type 0 where
  pub tokens : R
  pub last_refill : ℕ

-- `IPRateLimiter`, without what stops its goroutine.
pub record Limiter (R : Type 0) : Type 0 where
  pub visitors : List (String × Bucket R)
  pub rate : R
  pub burst : ℕ
  pub max_visitors : ℕ
  pub cleanup_interval : ℕ

module _ {R : Type 0} (f : Floats R) where
  -- `NewIPRateLimiter`.
  unfoldable pub new_limiter : R → ℕ → Limiter R
  new_limiter rate burst = record {
    visitors = [];
    rate = rate;
    burst = burst;
    max_visitors = 100000;
    cleanup_interval = 300000000000;
  }

  -- The tokens after the refill of `Allow`, no more than the burst.
  unfoldable pub refilled : Limiter R → ℕ → Bucket R → R
  refilled l now b =
      let tokens = f.plus b.tokens (f.times (f.seconds (now - b.last_refill)) l.rate) in
      if f.lt (f.of_count l.burst) tokens then f.of_count l.burst else tokens

  -- The end of `Allow`, with the bucket of the visitor.
  unfoldable pub spend : String → ℕ → Bucket R → Limiter R → Bool × Limiter R
  unfolding refilled
  spend ip now b l =
      let tokens = refilled l now b in
      let keep = λ (left : R). record l {
        visitors = put ip (record { tokens = left; last_refill = now }) l.visitors;
      } in
      if f.lt tokens f.one_ then (false, keep tokens) else (true, keep (f.minus tokens f.one_))

  abbrev pub full_bucket : Limiter R → ℕ → Bucket R
  full_bucket l now = record { tokens = f.of_count l.burst; last_refill = now }

  -- `Allow`; `seen` is the clock when a new visitor is entered.
  unfoldable pub allow : String → ℕ → ℕ → Limiter R → Bool × Limiter R
  unfolding spend
  allow ip seen now l = elim (get ip l.visitors) [
    | some b ↦ spend ip now b l
    | none ↦
        if ltb 0 l.max_visitors && leb l.max_visitors (length l.visitors)
        then (false, l)
        else spend ip now (full_bucket l seen) l
  ]

-- The entries that `removeStale` keeps.
unfoldable pub keep_recent :
    {R : Type 0} → ℕ → ℕ → List (String × Bucket R) → List (String × Bucket R)
keep_recent interval now [] = []
keep_recent interval now ((ip, b) ∷ rest) =
    let kept = keep_recent interval now rest in
    if ltb (b.last_refill + interval) now then kept else (ip, b) ∷ kept

-- `removeStale`.
unfoldable pub remove_stale : {R : Type 0} → ℕ → Limiter R → Limiter R
unfolding keep_recent
remove_stale now l = record l { visitors = keep_recent l.cleanup_interval now l.visitors }
