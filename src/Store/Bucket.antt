-- ===== src/Store/Bucket.antt =====
-- The bounds that the host limits of internal/db/snapshot_repository.go keep: tokens between nothing and
-- the burst, rates and concurrency within their baselines, permits within the concurrency.
use classroom.Base.{ℕ, ◌≤◌, ◌≡◌, ◌≢◌, refl, ap, max, false, Option, none, some, arith}
use classroom.Scraper.Policy.{host_pause_for_429}
use classroom.Store.Hosts.{Floats, HostState, refill_tokens}
use classroom.Store.Observe.{
  Observed, rate_limited, auth_error, healthy, other_outcome, transient_error, pause_after_429,
  lowered, raised, refilled, observe_healthy, observe_host,
}

-- What the limits rely on: no number is below itself, no count is below zero, half of a number that is not
-- below a quarter is above nothing that the number was not above, and adding a quarter to such a number
-- does not take it below a quarter.
pub record Lawful {R : Type 0} (F : Floats R) : Type 0 where
  pub irreflexive : (x : R) → F.lt x x ≡ false
  pub count_low : (n : ℕ) → F.lt (F.of_count n) F.zero_ ≡ false
  pub half_low : (x y : R) → F.lt x F.quarter ≡ false → F.lt y x ≡ false → F.lt y (F.half x) ≡ false
  pub quarter_up : (x : R) → F.lt x F.quarter ≡ false → F.lt (F.plus x F.quarter) F.quarter ≡ false

-- The limits of a host within its baselines.
pub record IsWithin {R : Type 0} (F : Floats R) (h : HostState R) : Type 0 where
  pub base_low : F.lt h.baseline_rps F.quarter ≡ false
  pub rps_low : F.lt h.current_rps F.quarter ≡ false
  pub rps_high : F.lt h.baseline_rps h.current_rps ≡ false
  pub conc_low : 1 ≤ h.current_concurrency
  pub conc_high : h.current_concurrency ≤ h.baseline_concurrency

module _ {R : Type 0} (F : Floats R) (laws : Lawful F) where
  -- A refill leaves no fewer tokens than none and no more than the burst, whatever was stored and
  -- however long ago.
  refill_tokens_bounds :
      (h : HostState R) (now : ℕ)
      → (F.lt (refill_tokens F h now) F.zero_ ≡ false)
        × (F.lt (F.of_count h.burst) (refill_tokens F h now) ≡ false)
  unfolding refill_tokens
  refill_tokens_bounds h now =
      let a = laws.irreflexive F.zero_ in
      let b = laws.irreflexive (F.of_count h.burst) in
      let c = laws.count_low h.burst in (ground (arith, a, b, c), ground (arith, a, b, c))

  lowered_within :
      (base x : R)
      → F.lt base F.quarter ≡ false
      → F.lt x F.quarter ≡ false
      → F.lt base x ≡ false
      → (F.lt (lowered F x) F.quarter ≡ false) × (F.lt base (lowered F x) ≡ false)
  lowered_within base x b l h =
      let a = laws.irreflexive F.quarter in
      let c = laws.half_low x base l h in (ground (arith, a, c), ground (arith, a, b, c))

  raised_within :
      (base x : R)
      → F.lt base F.quarter ≡ false
      → F.lt x F.quarter ≡ false
      → (F.lt (raised F base x) F.quarter ≡ false) × (F.lt base (raised F base x) ≡ false)
  raised_within base x b l =
      let a = laws.irreflexive base in
      let c = laws.quarter_up x l in (ground (arith, b, c), ground (arith, a))

  healthy-IsWithin :
      (now : ℕ) (h : HostState R) → IsWithin F h → IsWithin F (observe_healthy F now h)
  unfolding observe_healthy
  healthy-IsWithin now h v =
      let (a, b) = raised_within h.baseline_rps h.current_rps v.base_low v.rps_low in
      let rl = v.rps_low in
      let rh = v.rps_high in
      let cl = v.conc_low in
      let ch = v.conc_high in
      record {
        base_low = v.base_low;
        rps_low = ground (arith, a, rl);
        rps_high = ground (arith, b, rh);
        conc_low = ground (arith, cl, ch);
        conc_high = ground (arith, cl, ch);
      }

  limits-IsWithin :
      (at : ℕ) (o : Observed) (h : HostState R) → IsWithin F h → IsWithin F (observe_host F at o h)
  unfolding observe_host
  limits-IsWithin at (rate_limited retry_after) h v =
      let (a, b) = lowered_within h.baseline_rps h.current_rps v.base_low v.rps_low v.rps_high in
      let cl = v.conc_low in
      let ch = v.conc_high in
      record {
        base_low = v.base_low;
        rps_low = a;
        rps_high = b;
        conc_low = omega arith;
        conc_high = omega arith;
      }
  limits-IsWithin at healthy h v = healthy-IsWithin (max at h.tokens_updated_at) h v
  limits-IsWithin at (transient_error failures) h v =
      let (a, b) = lowered_within h.baseline_rps h.current_rps v.base_low v.rps_low v.rps_high in
      let rl = v.rps_low in
      let rh = v.rps_high in
      let cl = v.conc_low in
      let ch = v.conc_high in
      record {
        base_low = v.base_low;
        rps_low = ground (arith, a, rl);
        rps_high = ground (arith, b, rh);
        conc_low = ground (arith, cl, ch);
        conc_high = ground (arith, cl, ch);
      }
  limits-IsWithin at auth_error h v = record {
    base_low = v.base_low;
    rps_low = v.rps_low;
    rps_high = v.rps_high;
    conc_low = v.conc_low;
    conc_high = v.conc_high;
  }
  limits-IsWithin at other_outcome h v = record {
    base_low = v.base_low;
    rps_low = v.rps_low;
    rps_high = v.rps_high;
    conc_low = v.conc_low;
    conc_high = v.conc_high;
  }

  -- Every outcome refills the bucket alike.
  observe_host-bucket :
      (at : ℕ) (o : Observed) (h : HostState R)
      → ((observe_host F at o h).tokens_updated_at ≡ max at h.tokens_updated_at)
        × ((observe_host F at o h).available_tokens
            ≡ (refilled F (max at h.tokens_updated_at) h).available_tokens)
  unfolding observe_host observe_healthy
  observe_host-bucket at (rate_limited retry_after) h = (refl, refl)
  observe_host-bucket at auth_error h = (refl, refl)
  observe_host-bucket at healthy h = (refl, refl)
  observe_host-bucket at (transient_error failures) h = (refl, refl)
  observe_host-bucket at other_outcome h = (refl, refl)

  -- `ObserveHost` keeps the limits of a host between their floors and the baselines, whatever the outcome
  -- and the time: the rate at a quarter or more, at least one request at a time. The bucket's clock
  -- never goes back, and its tokens stay within nothing and the burst.
  pub observe_host-IsWithin :
      (at : ℕ) (o : Observed) (h : HostState R)
      → IsWithin F h
      → IsWithin F (observe_host F at o h)
        × (h.tokens_updated_at ≤ (observe_host F at o h).tokens_updated_at)
        × (F.lt (observe_host F at o h).available_tokens F.zero_ ≡ false)
        × (F.lt (F.of_count h.burst) (observe_host F at o h).available_tokens ≡ false)
  observe_host-IsWithin at o h v =
      let (clock, tokens) = observe_host-bucket at o h in
      let (c, d) = refill_tokens_bounds h (max at h.tokens_updated_at) in
      let low : F.lt (refilled F (max at h.tokens_updated_at) h).available_tokens F.zero_ ≡ false =
        ground (arith, c, d) in
      let high : F.lt (F.of_count h.burst)
            (refilled F (max at h.tokens_updated_at) h).available_tokens
          ≡ false =
        ground (arith, c, d) in
      (limits-IsWithin at o h v, omega (arith, clock), rw tokens low, rw tokens high)

-- The pause that `ObserveHost` works out after an HTTP 429 is the one of the scraper's policy, unless the
-- time of the last one is stored as the zero time.
pub pause_after_429-policy :
    (last : Option ℕ) (now retry_after : ℕ)
    → last ≢ some 0
    → pause_after_429 last now retry_after ≡ host_pause_for_429 now last retry_after
unfolding pause_after_429 host_pause_for_429
pause_after_429-policy none now retry_after n = refl
pause_after_429-policy (some at) now retry_after n = ground (arith, λ (e : at ≡ 0). n (ap some e))
