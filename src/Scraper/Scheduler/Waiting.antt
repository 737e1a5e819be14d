-- ===== src/Scraper/Scheduler/Waiting.antt =====
-- `executeClaimed` of internal/scraper/scheduler.go waits for a permit only within its lease.
use classroom.Base.{
  ℕ, suc, ◌-◌, ◌≤◌, ◌<◌, ◌≡◌, ◌≢◌, refl, Bool, true, false, List, [], ◌∷◌, some, if◌then◌else◌,
  length, All, arith,
}
use classroom.Store.Target.{Target}
use classroom.Scraper.Scheduler.{
  Config, Round, Decision, acquire_error, permit, retry_at, Ending, given_back, runs, waiting,
  put_off, next_try, too_late, execute_claimed,
}

-- The clock goes on from round to round, from `n` on.
abbrev pub IsTicking : ℕ → List Round → Type 0
IsTicking n [] = Unit
IsTicking n (r ∷ rs) = (n ≤ r.now) × IsTicking (suc r.now) rs

-- The end of a lease less the grace.
abbrev pub deadline : Config → ℕ → ℕ
deadline c end = end - c.commit_grace

-- A loop that waits before the deadline only, and has come to an end.
abbrev EndsBefore : ℕ → List ℕ × Ending → Type 0
EndsBefore d r = All (λ w. w < d) r.0 × (r.1 ≢ waiting)

next_try_later : (c : Config) (now at : ℕ) → now ≤ next_try c now at
next_try_later c now at = ground arith

branch :
    (d : ℕ) (b : Bool) (x y : List ℕ × Ending)
    → (b ≡ true → EndsBefore d x)
    → (b ≡ false → EndsBefore d y)
    → EndsBefore d (if b then x else y)
branch d true x y f g = f refl
branch d false x y f g = g refl

in_time :
    (c : Config) (t : Target) (end w : ℕ)
    → t.lease_expires_at ≡ some end
    → too_late c t w ≡ false
    → w < deadline c end
in_time c t end w lease h = ground (arith, lease)

-- One round, after the check of its context, with what the later rounds do.
decided :
    (c : Config) (t : Target) (end : ℕ) (r : Round) (rest : List ℕ × Ending) (d : Decision)
    → t.lease_expires_at ≡ some end
    → (r.now < deadline c end → EndsBefore (deadline c end) rest)
    → EndsBefore (deadline c end) (elim d [
      | acquire_error ↦ ([], given_back)
      | permit ↦ ([], runs)
      | retry_at at ↦
          let next = next_try c r.now at in
          if too_late c t next
          then ([], put_off next)
          else if r.wait_broken
          then (next ∷ [], given_back)
          else (next ∷ rest.0, rest.1)
    ])
decided c t end r rest acquire_error lease later = (tt, λ x. cc)
decided c t end r rest permit lease later = (tt, λ x. cc)
decided c t end r rest (retry_at at) lease later =
    branch (deadline c end) (too_late c t (next_try c r.now at)) _ _ (λ e. (tt, λ x. cc))
      (λ e.
        let early : next_try c r.now at < deadline c end =
          in_time c t end (next_try c r.now at) lease e in
        let after : r.now < deadline c end = omega (arith, early, next_try_later c r.now at) in
        branch (deadline c end) r.wait_broken _ _ (λ b. ((early, tt), λ x. cc))
          (λ b. ((early, (later after).0), (later after).1)))

-- With a clock that reads later than the time `n` and goes on, and with more rounds than there are instants
-- from `n` to the deadline, the loop ends within these rounds: the target's lease is given back, or the target is put off, or it runs; and every wait of
-- the loop is over before the end of the lease less the grace.
pub execute_claimed_ends :
    (c : Config) (t : Target) (end n : ℕ) (rs : List Round)
    → t.lease_expires_at ≡ some end
    → IsTicking n rs
    → deadline c end - n < length rs
    → All (λ w. w < deadline c end) (execute_claimed c t rs).0
      × ((execute_claimed c t rs).1 ≢ waiting)
unfolding execute_claimed
execute_claimed_ends c t end n [] lease ticks enough = omega (arith, enough)
execute_claimed_ends c t end n (r ∷ rs) lease (now, ticks) enough =
    branch (deadline c end) r.done _ _ (λ e. (tt, λ x. cc))
      (λ e. decided c t end r (execute_claimed c t rs) r.decision lease (λ after.
        execute_claimed_ends c t end (suc r.now) rs lease ticks
          (omega (arith, after, now, enough))))
