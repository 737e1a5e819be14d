-- ===== src/Middleware/RateLimit/Bursts.antt =====
-- A burst on the limiter of internal/middleware/ratelimit.go: requests of one address at one instant.
use classroom.Base.{
  ℕ, zero, suc, ◌-◌, ◌<◌, ◌≤◌, ◌≡◌, refl, true, false, ◌&&◌, String, none, some, ltb, leb,
  if◌then◌else◌, length, put, get, get-put, arith, eq_iff, min,
}
use classroom.Store.Hosts.{Floats}
use classroom.Middleware.RateLimit.{Bucket, Limiter, refilled, spend, allow}

-- Of the floating point numbers: no time refills nothing, and counts up to the burst are exact.
pub record IsExact {R : Type 0} (f : Floats R) (rate : R) (burst : ℕ) : Type 0 where
  pub no_time : (x : R) → f.plus x (f.times (f.seconds 0) rate) ≡ x
  pub compares : (n : ℕ) → n ≤ burst → f.lt (f.of_count burst) (f.of_count n) ≡ false
  pub zero_below_one : f.lt (f.of_count 0) f.one_ ≡ true
  pub not_below_one : (n : ℕ) → suc n ≤ burst → f.lt (f.of_count (suc n)) f.one_ ≡ false
  pub counts_down : (n : ℕ) → suc n ≤ burst → f.minus (f.of_count (suc n)) f.one_ ≡ f.of_count n

module _ {R : Type 0} (f : Floats R) (ip : String) (now : ℕ) where
  -- How many of `k` requests at one instant are allowed.
  unfoldable pub passes : ℕ → Limiter R → ℕ
  passes zero l = 0
  passes (suc k) l =
      let (ok, l') = allow f ip now now l in let rest = passes k l' in if ok then suc rest else rest

  abbrev bucket : ℕ → Bucket R
  bucket n = record { tokens = f.of_count n; last_refill = now }

  abbrev entered : ℕ → Limiter R → Limiter R
  entered n l = record l { visitors = put ip (bucket n) l.visitors }

  refilled-now :
      (l : Limiter R) (n : ℕ)
      → IsExact f l.rate l.burst
      → n ≤ l.burst
      → refilled f l now (bucket n) ≡ f.of_count n
  unfolding refilled
  refilled-now l n x h =
      let none_since : now - now ≡ 0 = omega arith in
      rw (none_since, x.no_time (f.of_count n), x.compares n h) refl

  spend-zero :
      (l : Limiter R)
      → IsExact f l.rate l.burst
      → spend f ip now (bucket 0) l ≡ (false, entered 0 l)
  unfolding spend
  spend-zero l x = rw (refilled-now l 0 x (omega arith), x.zero_below_one) refl

  spend-suc :
      (l : Limiter R) (n : ℕ)
      → IsExact f l.rate l.burst
      → suc n ≤ l.burst
      → spend f ip now (bucket (suc n)) l ≡ (true, entered n l)
  unfolding spend
  spend-suc l n x h = rw (refilled-now l (suc n) x h, x.not_below_one n h, x.counts_down n h) refl

  get-entered : (n : ℕ) (l : Limiter R) → get ip (entered n l).visitors ≡ some (bucket n)
  get-entered n l =
      let here = get-put ip ip (bucket n) l.visitors in ground (arith, here, eq_iff ip ip)

  allow-entered :
      (n : ℕ) (l : Limiter R)
      → allow f ip now now (entered n l) ≡ spend f ip now (bucket n) (entered n l)
  unfolding allow
  allow-entered n l = rw (get-entered n l, allow) refl

  -- The requests from one on that finds `n` tokens.
  passes_from :
      (k n : ℕ) (l : Limiter R)
      → IsExact f l.rate l.burst
      → n ≤ l.burst
      → allow f ip now now l ≡ spend f ip now (bucket n) l
      → passes k l ≡ min k n
  unfolding passes
  passes_from zero n l x h here = ground arith
  passes_from (suc k) zero l x h here =
      let rest = passes_from k 0 (entered 0 l) x h (allow-entered 0 l) in
      rw (here, spend-zero l x, rest) (ground arith)
  passes_from (suc k) (suc n) l x h here =
      let rest = passes_from k n (entered n l) x (omega (arith, h)) (allow-entered n l) in
      rw (here, spend-suc l n x h, rest) (ground arith)

  allow-new :
      (l : Limiter R)
      → get ip l.visitors ≡ none
      → length l.visitors < l.max_visitors
      → allow f ip now now l ≡ spend f ip now (bucket l.burst) l
  unfolding allow
  allow-new l new room =
      let free : (ltb 0 l.max_visitors && leb l.max_visitors (length l.visitors)) ≡ false =
        ground arith in
      rw (allow, new, free) refl

  -- Of `k` requests at one instant from an address that is not known yet, in a map with room, exactly the
  -- first ones up to the burst are allowed.
  pub burst_passes :
      (k : ℕ) (l : Limiter R)
      → IsExact f l.rate l.burst
      → get ip l.visitors ≡ none
      → length l.visitors < l.max_visitors
      → passes k l ≡ min k l.burst
  burst_passes k l x new room = passes_from k l.burst l x (omega arith) (allow-new l new room)
