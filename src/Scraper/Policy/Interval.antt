-- ===== src/Scraper/Policy/Interval.antt =====
-- The adaptive interval of internal/scraper/policy.go, over one outcome and over many.
use classroom.Base.{
  ℕ, ◌+◌, ◌-◌, ◌*◌, ◌/◌, ◌^◌, refl, ◌≤◌, ◌<◌, min, ◌≡◌, List, [], ◌∷◌, ◌++◌, Bool, arith, ◌⊎◌, inl,
  inr, length, length-append, length-drop, All,
}
use native.Mathlib.Nat.{pow-suc}
use classroom.Scraper.Policy.{
  second, Policy, Schedule, Outcome, changed, unchanged, not_modified, is_changed, next_schedule,
}

-- A policy with a lower bound that is positive and not above the upper one.
pub record IsBounded (p : Policy) : Type 0 where
  pub low_pos : 0 < p.min_interval
  pub ordered : p.min_interval ≤ p.max_interval

-- Whatever the current interval, the history and the outcome: the next interval is within the
-- bounds of a policy whose bounds are positive and in order.
pub next_schedule_bounds :
    (p : Policy) (current : ℕ) (history : List Bool) (o : Outcome)
    → IsBounded p
    → (p.min_interval ≤ (next_schedule p current history o).interval)
      × ((next_schedule p current history o).interval ≤ p.max_interval)
unfolding next_schedule
next_schedule_bounds p current history o h = ground arith

-- The history grows by one entry up to ten, and then keeps its length at ten.
pub length-history :
    (p : Policy) (current : ℕ) (history : List Bool) (o : Outcome)
    → length (next_schedule p current history o).history ≡ min 10 (length history + 1)
unfolding next_schedule
length-history p current history o = ground (
  arith,
  length-append history (is_changed o ∷ []),
  length-drop (length (history ++ is_changed o ∷ []) - 10) (history ++ is_changed o ∷ []),
)

-- What a bounded interval does under one outcome: a change makes it shorter, unless it is at the
-- lower bound; no change makes it longer by half, unless it reaches the upper bound.
pub next_schedule_direction :
    (p : Policy) (current : ℕ) (history : List Bool) (o : Outcome)
    → IsBounded p
    → p.min_interval ≤ current
    → current ≤ p.max_interval
    → let next = (next_schedule p current history o).interval in
      (is_changed o ≡ Bool.true → (next ≡ p.min_interval) ⊎ (2 * next ≤ current))
      × (is_changed o ≡ Bool.false → (next ≡ p.max_interval) ⊎ (3 * current ≤ 2 * next))
unfolding next_schedule
next_schedule_direction p current history changed h a b = (ground arith, λ e. cc)
next_schedule_direction p current history unchanged h a b = (λ e. cc, ground arith)
next_schedule_direction p current history not_modified h a b = (λ e. cc, ground arith)

-- What `Commit` stores of a schedule: whole seconds, of which the next run reads nanoseconds again.
abbrev pub stored : Schedule → Schedule
stored s = record s { interval = s.interval / second * second }

-- The schedule after a sequence of outcomes, as the scraper carries it from run to run in the target's row.
unfoldable pub run : Policy → Schedule → List Outcome → Schedule
run p s [] = s
run p s (o ∷ os) = run p (stored (next_schedule p s.interval s.history o)) os

abbrev pub IsQuiet : Outcome → Type 0
IsQuiet o = is_changed o ≡ Bool.false

-- A policy whose bounds are whole seconds, in order, and the lower one at least three.
pub record IsWhole (p : Policy) (low high : ℕ) : Type 0 where
  pub low_is : p.min_interval ≡ low * second
  pub high_is : p.max_interval ≡ high * second
  pub three : 3 ≤ low
  pub ordered : low ≤ high

-- A stored interval of the policy.
abbrev pub IsStored : ℕ → ℕ → Schedule → Type 0
IsStored low high s = (k : ℕ) × (s.interval ≡ k * second) × (low ≤ k) × (k ≤ high)

module _ (p : Policy) (low high : ℕ) (w : IsWhole p low high) where
  whole-IsBounded : IsBounded p
  whole-IsBounded = record {
    low_pos = omega (arith, w.low_is, w.three);
    ordered = omega (arith, w.low_is, w.high_is, w.ordered);
  }

  quiet_step :
      (s : Schedule) (o : Outcome)
      → IsQuiet o
      → IsStored low high s
      → let next = stored (next_schedule p s.interval s.history o) in
        IsStored low high next
        × ((next.interval ≡ p.max_interval) ⊎ (4 * s.interval ≤ 3 * next.interval))
  quiet_step s o q (k, is_k, a, b) =
      let raw = (next_schedule p s.interval s.history o).interval in
      let (l, h) = next_schedule_bounds p s.interval s.history o whole-IsBounded in
      let grows =
        (next_schedule_direction p s.interval s.history o whole-IsBounded
            (omega (arith, w.low_is, is_k, a)) (omega (arith, w.high_is, is_k, b))).1
          q in
      (
        (raw / second, refl, omega (arith, l, w.low_is), omega (arith, h, w.high_is)),
        elim grows [
          | inl e ↦ inl (omega (arith, e, w.high_is))
          | inr g ↦ inr (omega (arith, g, is_k, a, w.three))
        ],
      )

  stays_at_max :
      (s : Schedule) (os : List Outcome)
      → All IsQuiet os
      → IsStored low high s
      → s.interval ≡ p.max_interval
      → (run p s os).interval ≡ p.max_interval
  unfolding run
  stays_at_max s [] q i e = e
  stays_at_max s (o ∷ os) (q, qs) i e =
      let next = stored (next_schedule p s.interval s.history o) in
      let (within, grows) = quiet_step s o q i in
      stays_at_max next os qs within (elim grows [
        | inl k ↦ k
        | inr g ↦ let (k, is_k, a, b) = within in omega (arith, g, e, is_k, b, w.high_is)
      ])

  grow_step : (a n z x y : ℕ) → 4 * a ≤ 3 * n → n * x ≤ z * y → a * (x * 4) ≤ z * (y * 3)
  grow_step a n z x y h k = omega (arith, mul_mono x h)
    where
      mul_mono : (x : ℕ) {b c : ℕ} → b ≤ c → b * x ≤ c * x
      mul_mono x h = grind arith

  -- Quiet targets are left alone: with bounds of whole seconds, the lower one at least three seconds, and
  -- each interval stored in whole seconds, after k outcomes without a change the interval is the policy's
  -- maximum, or has grown by at least the factor (4/3)^k.
  pub run_quiet_grows :
      (s : Schedule) (os : List Outcome)
      → All IsQuiet os
      → IsStored low high s
      → ((run p s os).interval ≡ p.max_interval)
        ⊎ (s.interval * 4 ^ length os ≤ (run p s os).interval * 3 ^ length os)
  unfolding run
  run_quiet_grows s [] q i = inr (omega arith)
  run_quiet_grows s (o ∷ os) (q, qs) i =
      let next = stored (next_schedule p s.interval s.history o) in
      let (within, grows) = quiet_step s o q i in
      elim grows [
        | inl e ↦ inl (stays_at_max next os qs within e)
        | inr g ↦ elim (run_quiet_grows next os qs within) [
          | inl e ↦ inl e
          | inr ih ↦ inr (rw (pow-suc, pow-suc) (grow_step s.interval next.interval _ _ _ g ih))
        ]
      ]
