-- ===== src/Rooms/Faults.antt =====
-- Where the worker of internal/service/room_manager.go leaves a room in a state that its other
-- methods do not expect.
use classroom.Base.{ℕ, ◌≡◌, refl, ◌∙◌, String, false, none, some, [], ◌∷◌, arith, ◌⊎◌, inl, inr}
use classroom.Domain.Room.{
  RoomStatus, running, stopped, FetchErrorKind, invalid_payload, auth_conflict,
}
use classroom.Rooms.State.{RoomState, Shared, is_done, persist_and_emit}
use classroom.Rooms.Control.{Wiring, start_state, stop_state}
use classroom.Rooms.Commands.{stop_state_lem}
use classroom.Rooms.Isolation.{start_state_live}
use classroom.Rooms.Worker.{fetch_error, other_error, fetch_success}
use classroom.Rooms.Recovery.{
  Round, returns, panics, leave, failed, judge, round, recovery_loop, give_up, invalid_room,
  conflict_room, spent_room,
}
use classroom.Rooms.Attempts.{loop_failed}

-- The recovery of a room with a live worker ends on an invalid payload and on an admin conflict, and
-- the worker ends with it; but its cancel function is kept, so that `StartRoom` takes the worker for
-- alive and does nothing, although the room is then stopped or its session is still expired.
pub ended_worker_blocks_start :
    (w : Wiring) (c d t : ℕ) (r : Round) (kind : FetchErrorKind) (m : String) (st : RoomState)
    (sh : Shared)
    → (kind ≡ invalid_payload) ⊎ (kind ≡ auth_conflict)
    → r.answer ≡ fetch_error kind m
    → st.room.status ≡ RoomStatus.auth_expired
    → st.cancel ≡ some d
    → (s' : RoomState × Shared) × (judge c r st sh ≡ leave (returns false s'))
      × ((s'.0.room.status ≡ stopped) ⊎ (s'.0.room.status ≡ RoomStatus.auth_expired))
      × (start_state w t s'.0 s'.1 ≡ s')
unfolding judge
ended_worker_blocks_start w c d t r kind m st sh k a e h = elim k [
  | inl i ↦
      let s : RoomState × Shared = (
        record st { room = invalid_room m st.room },
        persist_and_emit sh r.now (invalid_room m st.room),
      ) in
      (s, ground arith, inl (ground arith), start_state_live w t s.0 s.1 d h)
  | inr i ↦
      let s : RoomState × Shared = (
        record st { room = conflict_room st.room },
        persist_and_emit sh r.now (conflict_room st.room),
      ) in
      (s, ground arith, inr (ground arith), start_state_live w t s.0 s.1 d h)
]

-- A `StopRoom` that runs after the check of the context in `roomWorkerTick` and before the write of
-- the fetched code is undone: the room is running again, with a code and with no worker.
pub late_success_undoes_stop :
    (t now later qr_time : ℕ) (url : String) (st : RoomState) (sh : Shared)
    → let stop = stop_state t st sh in
      let s' = fetch_success now later url qr_time stop.0 stop.1 in
      (s'.0.room.status ≡ running) × (s'.0.room.qr_url ≡ some url) × (s'.0.cancel ≡ none)
unfolding fetch_success
late_success_undoes_stop t now later qr_time url st sh =
    let stop = stop_state_lem t st sh in (ground arith, ground arith, stop.3)

give_up_panics :
    (now : ℕ) (st : RoomState) (sh : Shared)
    → st.cancel ≡ none
    → (s' : RoomState × Shared) × (give_up now (st, sh) ≡ panics s')
unfolding give_up
give_up_panics now st sh h = ((record st { room = spent_room st.room }, sh), ground arith)

-- A `StopRoom` during the fetch of the tenth attempt, which then fails, makes the loop call the nil
-- cancel function, with the lock of the manager held.
pub stop_in_last_attempt_panics :
    (c now t b : ℕ) (r : Round) (m : String) (s : RoomState × Shared)
    → r.stop_in_wait ≡ none
    → r.stop_in_fetch ≡ some t
    → r.answer ≡ other_error m
    → is_done c s.1.canceled ≡ false
    → (s' : RoomState × Shared) × (recovery_loop c now 9 b (r ∷ []) s ≡ panics s')
unfolding recovery_loop give_up
stop_in_last_attempt_panics c now t b r m (st, sh) e f a o =
    let s' = stop_state t st sh in
    let verdict : round c r (st, sh) ≡ failed s' = unfold round judge in (ground arith) in
    let (s'', over) = give_up_panics r.now s'.0 s'.1 (stop_state_lem t st sh).3 in
    (s'', loop_failed c now 9 b r [] (st, sh) s' refl verdict ∙ over)
