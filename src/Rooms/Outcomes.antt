-- ===== src/Rooms/Outcomes.antt =====
-- How the recovery loop of internal/service/room_manager.go leaves a room, and what a stop that comes
-- at the wrong moment, or an early end of the worker, does to it.
use classroom.Base.{
  ℕ, ◌+◌, ◌≡◌, refl, subst, sym, true, false, none, some, List, [], ◌∷◌, arith, ◌⊎◌, inl, inr, leb,
  All, Bool-cases,
}
use classroom.Domain.Room.{RoomStatus, running, stopped, FetchErrorKind}
use classroom.Rooms.State.{RoomState, Shared, is_done, is_some}
use classroom.Rooms.Commands.{emit_keeps}
use classroom.Rooms.Worker.{Answer, code, fetch_error, other_error}
use classroom.Rooms.Recovery.{
  Round, Recovery, returns, panics, waiting, Verdict, leave, again, failed, judge, round,
  recovery_loop, give_up, next_backoff, max_attempts,
}
use classroom.Rooms.Attempts.{loop_full, loop_leave, loop_again, loop_failed, verdict_cases}

abbrev pub NoStop : Round → Type 0
NoStop r = (r.stop_in_wait ≡ none) × (r.stop_in_fetch ≡ none) × (r.stop_in_pause ≡ none)

-- A room in recovery: its session has expired, and its worker `c` is live.
pub record InRecovery (c : ℕ) (s : RoomState × Shared) : Type 0 where
  pub expired : s.0.room.status ≡ RoomStatus.auth_expired
  pub owned : s.0.cancel ≡ some c
  pub open_ : is_done c s.1.canceled ≡ false

abbrev pub Ends : ℕ → Recovery → Type 0
Ends c (returns true (st, sh)) =
    (st.room.status ≡ running) × (is_some st.room.qr_url ≡ true) × (st.cancel ≡ some c)
Ends c (returns false (st, sh)) =
    ((st.room.status ≡ stopped) × (st.cancel ≡ none) × (is_done c sh.canceled ≡ true))
    ⊎ ((st.room.status ≡ stopped) × (st.cancel ≡ some c))
    ⊎ ((st.room.status ≡ RoomStatus.auth_expired) × (st.cancel ≡ some c))
Ends c (panics s) = ⊥
Ends c (waiting a b s) = InRecovery c s

abbrev VerdictEnds : ℕ → RoomState × Shared → Verdict → Type 0
VerdictEnds c s (leave out) = Ends c out
VerdictEnds c s (again t) = t ≡ s
VerdictEnds c s (failed t) = t ≡ s

give_up-Ends :
    (c now : ℕ) (st : RoomState) (sh : Shared)
    → InRecovery c (st, sh)
    → Ends c (give_up now (st, sh))
unfolding give_up is_done
give_up-Ends c now st sh v =
    rw (v.owned, give_up) (inl (ground arith, refl, rw (emit_keeps _ now _).0 (ground arith)))

judge-Ends :
    (c : ℕ) (r : Round) (a : Answer) (st : RoomState) (sh : Shared)
    → NoStop r
    → InRecovery c (st, sh)
    → VerdictEnds c (st, sh) (judge c (record r { answer = a }) st sh)
unfolding judge
judge-Ends c r (code url qr_time) st sh n v = rw v.open_ (ground arith, ground arith, v.owned)
judge-Ends c r (fetch_error FetchErrorKind.auth_expired m) st sh n v = refl
judge-Ends c r (fetch_error FetchErrorKind.network m) st sh n v = refl
judge-Ends c r (fetch_error FetchErrorKind.invalid_payload m) st sh n v =
    inr (inl (ground arith, v.owned))
judge-Ends c r (fetch_error FetchErrorKind.rate_limited m) st sh n v = refl
judge-Ends c r (fetch_error FetchErrorKind.auth_conflict m) st sh n v =
    inr (inr (ground arith, v.owned))
judge-Ends c r (fetch_error FetchErrorKind.pool_exhausted m) st sh n v = ground arith
judge-Ends c r (other_error m) st sh n v = refl

-- With no stop a round is the verdict on its answer.
round_quiet :
    (c : ℕ) (r : Round) (st : RoomState) (sh : Shared)
    → NoStop r
    → is_done c sh.canceled ≡ false
    → round c r (st, sh) ≡ judge c r st sh
unfolding round
round_quiet c r st sh n o = ground arith

round-Ends :
    (c : ℕ) (r : Round) (s : RoomState × Shared)
    → NoStop r
    → InRecovery c s
    → VerdictEnds c s (round c r s)
round-Ends c r (st, sh) n v =
    rw (round_quiet c r st sh n v.open_) (judge-Ends c r r.answer st sh n v)

-- What the loop returns, from a room in recovery with a live worker and with no `StopRoom` meanwhile.
-- With `true` the room is running with a code and keeps its worker. With `false` it is stopped with
-- its worker cancelled and forgotten; or it is stopped or still expired with the worker's cancel
-- function kept. It never panics.
pub recovery_loop-Ends :
    (c now a b : ℕ) (rs : List Round) (s : RoomState × Shared)
    → All NoStop rs
    → InRecovery c s
    → Ends c (recovery_loop c now a b rs s)
unfolding recovery_loop
recovery_loop-Ends c now a b [] (st, sh) n v = elim (Bool-cases (leb max_attempts a)) [
  | inl h ↦ rw h (give_up-Ends c now st sh v)
  | inr h ↦ rw h v
]
recovery_loop-Ends c now a b (r ∷ rs) (st, sh) n v = elim (Bool-cases (leb max_attempts a)) [
  | inl h ↦ rw (loop_full c now a b r rs (st, sh) h) (give_up-Ends c now st sh v)
  | inr h ↦ elim (verdict_cases (round c r (st, sh))) [
    | inl (out, e) ↦
        rw (loop_leave c now a b r rs (st, sh) out h e)
          (subst (VerdictEnds c (st, sh)) e (round-Ends c r (st, sh) n.0 v))
    | inr rest ↦ elim rest [
      | inl (t, e) ↦ rw (loop_again c now a b r rs (st, sh) t h e) (
          recovery_loop-Ends c r.now a b rs t n.1 (
            subst (InRecovery c)
              (sym (subst (VerdictEnds c (st, sh)) e (round-Ends c r (st, sh) n.0 v))) v))
      | inr (t, e) ↦ rw (loop_failed c now a b r rs (st, sh) t h e) (
          recovery_loop-Ends c r.now (a + 1) (next_backoff b) rs t n.1 (
            subst (InRecovery c)
              (sym (subst (VerdictEnds c (st, sh)) e (round-Ends c r (st, sh) n.0 v))) v))
    ]
  ]
]
