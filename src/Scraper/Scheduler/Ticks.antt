-- ===== src/Scraper/Scheduler/Ticks.antt =====
-- `RunDue` of internal/scraper/scheduler.go: its limit, its end and its counts.
use classroom.Base.{
  ℕ, zero, suc, ◌+◌, ◌-◌, ◌≤◌, ◌<◌, ◌≡◌, ◌≢◌, refl, ◌∙◌, Bool, true, false, ◌&&◌, not, Option, none,
  some, List, [], ◌∷◌, ltb, ◌==◌, if◌then◌else◌, length, min, arith, ==_iff,
}
use classroom.Store.Target.{Target}
use classroom.Scraper.Scheduler.{
  Config, Report, canceled, error, postponed, unsuccessful, success, Tick, tally, Services, TickEnd,
  claim_failed, out_of_fuel, claim_limit, work_all, claim_more, run_due, no_tick, run_tick,
}

-- The counts of a tick add up.
pub record IsBalanced (k : Tick) : Type 0 where
  pub total : k.claimed ≡ k.succeeded + k.failed + k.canceled_count + k.postponed_count
  pub attempts : k.attempted ≤ k.succeeded + k.failed + k.canceled_count
  pub changes : k.changed ≤ k.succeeded

-- They do but for `n` targets that are claimed and not yet reported.
abbrev Owes : ℕ → Tick → Type 0
Owes n k =
    (k.claimed ≡ k.succeeded + k.failed + k.canceled_count + k.postponed_count + n)
    × (k.attempted ≤ k.succeeded + k.failed + k.canceled_count)
    × (k.changed ≤ k.succeeded)

tally-Owes :
    (r : Report) (n : ℕ) (k : Tick)
    → Owes (suc n) k
    → Owes n (tally r k) × ((tally r k).claimed ≡ k.claimed)
unfolding tally
tally-Owes (canceled a) n k (x, y, z) = ground arith
tally-Owes (error a) n k (x, y, z) = ground arith
tally-Owes postponed n k (x, y, z) = ground arith
tally-Owes unsuccessful n k (x, y, z) = ground arith
tally-Owes (success b) n k (x, y, z) = ground arith

module _ {S : Type 0} (v : Services S) (c : Config) where
  work_all-Owes :
      (ts : List Target) (k : Tick) (s : S)
      → Owes (length ts) k
      → Owes 0 (work_all v c ts k s).0 × ((work_all v c ts k s).0.claimed ≡ k.claimed)
  unfolding work_all
  work_all-Owes [] k s o = (o, refl)
  work_all-Owes (t ∷ ts) k s o =
      let (owes, same) = tally-Owes (v.work t s).0 (length ts) k o in
      let (done, kept) = work_all-Owes ts (tally (v.work t s).0 k) (v.work t s).1 owes in
      (done, kept ∙ same)

  -- A claim takes at most what it is asked for.
  abbrev pub ClaimsWithin : Type 0
  ClaimsWithin =
      (limit : ℕ) (s : S) (ts : List Target) (s' : S)
      → v.claim_due limit s ≡ some (ts, s')
      → length ts ≤ limit

  -- A tick that is over, within its limit.
  abbrev IsOver : ℕ → TickEnd × Tick → Type 0
  IsOver limit r = (r.0 ≢ out_of_fuel) × Owes 0 r.1 × (r.1.claimed ≤ limit)

  either :
      (limit : ℕ) (b : Bool) (x y : TickEnd × Tick)
      → (b ≡ true → IsOver limit x)
      → (b ≡ false → IsOver limit y)
      → IsOver limit (if b then x else y)
  either limit true x y f g = f refl
  either limit false x y f g = g refl

  pick :
      (limit : ℕ) (o : Option (List Target × S)) (k : Tick) (f : List Target × S → TickEnd × Tick)
      → IsOver limit (claim_failed, k)
      → ((ts : List Target) (s' : S) → o ≡ some (ts, s') → IsOver limit (f (ts, s')))
      → IsOver limit (elim o [ none ↦ (claim_failed, k) | some x ↦ f x ])
  pick limit none k f over g = over
  pick limit (some (ts, s')) k f over g = g ts s' refl

  run_due-IsOver :
      ClaimsWithin
      → (fuel limit : ℕ) (k : Tick) (s : S) → Owes 0 k
      → limit ≤ fuel + k.claimed
      → k.claimed ≤ limit
      → IsOver limit (run_due v c fuel limit k s)
  unfolding run_due
  run_due-IsOver within zero limit k s o enough small = (ground arith, o, small)
  run_due-IsOver within (suc fuel) limit k s o enough small =
      either limit (not (ltb k.claimed limit && not (v.context_done s))) _ _
        (λ e. ((λ x. cc), o, small))
        (λ e.
          let batch = claim_limit c (limit - k.claimed) in
          pick limit (v.claim_due batch s) k _ ((λ x. cc), o, small)
            (λ ts s' claimed.
              let size = within batch s ts s' claimed in
              let (owes, same) =
                work_all-Owes ts (claim_more k ts) s' (omega (arith, o.0), o.1, o.2) in
              let fits : k.claimed + length ts ≤ limit = omega (arith, size, small) in
              either limit (length ts == 0) _ _ (λ e. ((λ x. cc), o, small))
                (λ some_there.
                  either limit (ltb (length ts) batch) _ _
                    (λ e. ((λ x. cc), owes, omega (arith, fits, same)))
                    (λ full.
                      run_due-IsOver within fuel limit _ _ owes
                        (let more = ==_iff (length ts) 0 in
                          ground (arith, more, some_there, same, enough))
                        (omega (arith, fits, same))))))

  -- A tick under a positive limit, over claims that keep to theirs, comes to an end: it claims no more than
  -- its limit and the configuration's, and every claimed target is counted once, as succeeded, failed,
  -- cancelled or put off; no more are attempted than those that are not put off, and no more have changed
  -- than have succeeded.
  pub run_tick_ends :
      ClaimsWithin
      → (limit : ℕ) (s : S) → 0 < limit
      → (end : TickEnd) × (k : Tick) × (run_tick v c limit s ≡ some (end, k))
        × (end ≢ out_of_fuel)
        × IsBalanced k
        × (k.claimed ≤ min limit c.tick_limit)
  unfolding run_tick
  run_tick_ends within limit s pos =
      let n = min limit c.tick_limit in
      let (over, owes, small) =
        run_due-IsOver within n n no_tick s (refl, omega arith, omega arith) (omega arith)
          (omega arith) in
      (
        (run_due v c n n no_tick s).0,
        (run_due v c n n no_tick s).1,
        ground arith,
        over,
        record { total = omega (arith, owes.0); attempts = owes.1; changes = owes.2 },
        small,
      )
