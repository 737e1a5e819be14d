-- ===== src/Rooms/Attempts.antt =====
-- The recovery loop of internal/service/room_manager.go: how often it tries, how long it waits, and
-- how it ends.
use classroom.Base.{
  ℕ, ◌+◌, ◌*◌, ◌^◌, ◌<◌, min, ◌≡◌, refl, ap, ◌∙◌, subst, true, false, List, [], ◌∷◌, arith, ◌⊎◌,
  inl, inr, ◌≢◌, leb, Bool-cases,
}
use native.Mathlib.Nat.{pow-suc}
use native.Mathlib.Numerals.{add-one}
use classroom.Domain.Room.{pool_exhausted}
use classroom.Rooms.State.{second, RoomState, Shared, is_done}
use classroom.Rooms.Worker.{Answer, fetch_error}
use classroom.Rooms.Recovery.{
  Round, meanwhile, Recovery, returns, panics, waiting, Verdict, leave, again, failed, judge, round,
  recovery_loop, give_up, next_backoff, initial_backoff, max_backoff, max_attempts,
}

-- An exhausted pool is no attempt.
abbrev pub attempt_of : Answer → ℕ
attempt_of (fetch_error pool_exhausted m) = 0
attempt_of _ = 1

abbrev pub attempts_in : List Round → ℕ
attempts_in [] = 0
attempts_in (r ∷ rs) = attempt_of r.answer + attempts_in rs

-- What a loop that still waits for a round has done.
abbrev pub Waits : ℕ → Recovery → Type 0
Waits n (waiting a b s) = (a ≡ n) × (a < max_attempts) × (b ≡ min max_backoff (second * 2 ^ a))
Waits n _ = Unit

judge_counts :
    (c : ℕ) (r : Round) (st : RoomState) (sh : Shared) (s' : RoomState × Shared)
    → (judge c r st sh ≡ again s' → attempt_of r.answer ≡ 0)
      × (judge c r st sh ≡ failed s' → attempt_of r.answer ≡ 1)
unfolding judge
judge_counts c r st sh s' = (ground arith, ground arith)

round_counts :
    (c : ℕ) (r : Round) (s s' : RoomState × Shared)
    → (round c r s ≡ again s' → attempt_of r.answer ≡ 0)
      × (round c r s ≡ failed s' → attempt_of r.answer ≡ 1)
unfolding round
round_counts c r s s' = elim (Bool-cases (is_done c (meanwhile r.stop_in_wait s).1.canceled)) [
  | inl e ↦ rw (e, round) ((λ h. cc), (λ h. cc))
  | inr e ↦ rw (e, round) (judge_counts c r _ _ s')
]

backoff_step :
    (a b : ℕ)
    → b ≡ min max_backoff (second * 2 ^ a)
    → next_backoff b ≡ min max_backoff (second * 2 ^ (a + 1))
backoff_step a b e = rw (add-one, pow-suc) (ground arith)

pub verdict_cases :
    (v : Verdict)
    → ((out : Recovery) × (v ≡ leave out))
      ⊎ ((s : RoomState × Shared) × (v ≡ again s))
      ⊎ ((s : RoomState × Shared) × (v ≡ failed s))
verdict_cases (leave out) = inl (out, refl)
verdict_cases (again s) = inr (inl (s, refl))
verdict_cases (failed s) = inr (inr (s, refl))

-- Neither the end of the attempts nor a verdict that leaves the loop waits.
Waits-of_over :
    (n : ℕ) (out : Recovery)
    → ((a b : ℕ) (s : RoomState × Shared) → out ≢ waiting a b s)
    → Waits n out
Waits-of_over n (returns ok s) h = tt
Waits-of_over n (panics s) h = tt
Waits-of_over n (waiting a b s) h = absurd (h a b s refl)

give_up-over :
    (now : ℕ) (s : RoomState × Shared) (a b : ℕ) (t : RoomState × Shared)
    → give_up now s ≢ waiting a b t
unfolding give_up
give_up-over now s a b t h = ground arith

round-over :
    (c : ℕ) (r : Round) (s : RoomState × Shared) (a b : ℕ) (t : RoomState × Shared)
    → round c r s ≢ leave (waiting a b t)
unfolding round judge
round-over c r s a b t h = ground arith

-- The loop, by what its first round does.
module _ (c now a b : ℕ) (r : Round) (rs : List Round) (s : RoomState × Shared) where
  pub loop_full : leb max_attempts a ≡ true → recovery_loop c now a b (r ∷ rs) s ≡ give_up now s
  unfolding recovery_loop
  loop_full h = ground arith

  pub loop_leave :
      (out : Recovery)
      → leb max_attempts a ≡ false
      → round c r s ≡ leave out
      → recovery_loop c now a b (r ∷ rs) s ≡ out
  unfolding recovery_loop
  loop_leave out h e = ground arith

  pub loop_again :
      (t : RoomState × Shared)
      → leb max_attempts a ≡ false
      → round c r s ≡ again t
      → recovery_loop c now a b (r ∷ rs) s ≡ recovery_loop c r.now a b rs t
  unfolding recovery_loop
  loop_again t h e = ground arith

  pub loop_failed :
      (t : RoomState × Shared)
      → leb max_attempts a ≡ false
      → round c r s ≡ failed t
      → recovery_loop c now a b (r ∷ rs) s ≡ recovery_loop c r.now (a + 1) (next_backoff b) rs t
  unfolding recovery_loop
  loop_failed t h e = ground arith

loop-Waits :
    (c now a b : ℕ) (rs : List Round) (s : RoomState × Shared)
    → b ≡ min max_backoff (second * 2 ^ a)
    → Waits (a + attempts_in rs) (recovery_loop c now a b rs s)
unfolding recovery_loop
loop-Waits c now a b [] s e = elim (Bool-cases (leb max_attempts a)) [
  | inl h ↦ rw h (Waits-of_over _ (give_up now s) (give_up-over now s))
  | inr h ↦ rw h (omega arith, ground arith, e)
]
loop-Waits c now a b (r ∷ rs) s e = elim (Bool-cases (leb max_attempts a)) [
  | inl h ↦ rw (loop_full c now a b r rs s h) (Waits-of_over _ (give_up now s) (give_up-over now s))
  | inr h ↦ elim (verdict_cases (round c r s)) [
    | inl (out, v) ↦
        rw (loop_leave c now a b r rs s out h v)
          (Waits-of_over _ out (λ a' b' t w. round-over c r s a' b' t (v ∙ ap leave w)))
    | inr rest ↦ elim rest [
      | inl (t, v) ↦ rw (loop_again c now a b r rs s t h v) (
          subst (λ n. Waits n (recovery_loop c r.now a b rs t))
            (omega (arith, (round_counts c r s t).0 v)) (loop-Waits c r.now a b rs t e))
      | inr (t, v) ↦ rw (loop_failed c now a b r rs s t h v) (
          subst (λ n. Waits n (recovery_loop c r.now (a + 1) (next_backoff b) rs t))
            (omega (arith, (round_counts c r s t).1 v))
            (loop-Waits c r.now (a + 1) (next_backoff b) rs t (backoff_step a b e)))
    ]
  ]
]

-- From its start the loop never waits for more than ten attempts: while it waits for another round
-- it has made as many attempts as the rounds hold answers other than an exhausted pool, fewer than
-- ten, and the wait before the next one is the doubling of a second with each attempt, capped at
-- thirty seconds.
pub recovery_attempts :
    (c now : ℕ) (rs : List Round) (s : RoomState × Shared)
    → Waits (attempts_in rs) (recovery_loop c now 0 initial_backoff rs s)
recovery_attempts c now rs s =
    subst (λ n. Waits n (recovery_loop c now 0 initial_backoff rs s)) (omega arith)
      (loop-Waits c now 0 initial_backoff rs s refl)
