-- ===== src/Scraper/Policy/Delays.antt =====
-- The delays after failures of internal/scraper/policy.go.
use classroom.Base.{ℕ, zero, suc, ◌+◌, ◌*◌, ◌^◌, ◌≤◌, ◌<◌, min, max, ◌≡◌, Option, none, some, arith}
use native.Mathlib.Nat.{pow-le-pow_right}
use classroom.Scraper.Policy.{
  failure_delay, host_pause_for_429, late_correction_policy, minute, hour,
}

-- `FailureDelay` is the doubling of a minute with each further failure, capped at an hour: the
-- early exit above seven failures and the shift agree with it at every count from one on.
pub failure_delay-capped_doubling : (n : ℕ) → failure_delay (suc n) ≡ min hour (minute * 2 ^ n)
unfolding failure_delay
failure_delay-capped_doubling zero = omega arith
failure_delay-capped_doubling (suc zero) = omega arith
failure_delay-capped_doubling (suc (suc zero)) = omega arith
failure_delay-capped_doubling (suc (suc (suc zero))) = omega arith
failure_delay-capped_doubling (suc (suc (suc (suc zero)))) = omega arith
failure_delay-capped_doubling (suc (suc (suc (suc (suc zero))))) = omega arith
failure_delay-capped_doubling (suc (suc (suc (suc (suc (suc k)))))) = ground (
  arith,
  pow-le-pow_right {n = 2} (omega arith) {i = 6} {j = suc (suc (suc (suc (suc (suc k)))))}
      (omega arith),
)

failure_delay_mono_suc :
    (m n : ℕ)
    → m ≤ n
    → (minute ≤ failure_delay (suc m))
      × (failure_delay (suc m) ≤ failure_delay (suc n))
      × (failure_delay (suc n) ≤ hour)
failure_delay_mono_suc m n h = omega (
  arith,
  failure_delay-capped_doubling m,
  failure_delay-capped_doubling n,
  pow-le-pow_right {n = 2} (omega arith) {i = m} {j = n} h,
  pow-le-pow_right {n = 2} (omega arith) {i = 0} {j = m} (omega arith),
)

-- More failures never shorten the delay, which is between a minute and an hour.
pub failure_delay_mono :
    (m n : ℕ)
    → m ≤ n
    → (minute ≤ failure_delay m) × (failure_delay m ≤ failure_delay n) × (failure_delay n ≤ hour)
unfolding failure_delay
failure_delay_mono zero zero h = omega arith
failure_delay_mono zero (suc n) h = failure_delay_mono_suc zero n (omega arith)
failure_delay_mono (suc m) zero h = absurd (omega arith)
failure_delay_mono (suc m) (suc n) h = failure_delay_mono_suc m n (omega arith)

-- The pause after an HTTP 429 is at least a quarter of an hour, at least what the upstream asked
-- for, and never more than the larger of that and an hour. After another 429 within the last hour
-- it is at least an hour.
pub host_pause_bounds :
    (now : ℕ) (last_429 : Option ℕ) (retry_after : ℕ)
    → let pause = host_pause_for_429 now last_429 retry_after in
      (15 * minute ≤ pause)
      × (retry_after ≤ pause)
      × (pause ≤ max hour retry_after)
      × ((last : ℕ) → last_429 ≡ some last → 0 < last → now ≤ last + hour → hour ≤ pause)
unfolding host_pause_for_429
host_pause_bounds now none retry_after = (ground arith, ground arith, ground arith, λ l e p q. cc)
host_pause_bounds now (some last) retry_after =
    (ground arith, ground arith, ground arith, λ l e p q. ground arith)

-- The older a completed session, the longer its correction policy waits: all three intervals grow
-- with the age, and each policy's bounds are in order around its initial interval.
pub late_correction_mono :
    (completed now later : ℕ)
    → now ≤ later
    → let p = late_correction_policy completed now in
      let q = late_correction_policy completed later in
      (p.min_interval ≤ q.min_interval)
      × (p.initial ≤ q.initial)
      × (p.max_interval ≤ q.max_interval)
      × (p.min_interval ≤ p.initial)
      × (p.initial ≤ p.max_interval)
unfolding late_correction_policy
late_correction_mono completed now later h = ground arith
