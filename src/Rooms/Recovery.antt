-- ===== src/Rooms/Recovery.antt =====
-- `recoveryLoop` of internal/service/room_manager.go: the attempts after an expired session, with the
-- calls of `StopRoom` that run meanwhile.
use Prim.Native.String.{◌++◌ as str_append}
use classroom.Base.{
  ℕ, ◌+◌, ◌*◌, String, Bool, true, false, Option, none, some, List, [], ◌∷◌, ltb, leb,
  if◌then◌else◌,
}
use classroom.Domain.Room.{
  Room, running, stopped, fetching, warning, transition_to, invalid_payload, auth_conflict,
  pool_exhausted,
}
use classroom.Rooms.State.{second, RoomState, Shared, is_done, cancel_context, persist_and_emit}
use classroom.Rooms.Control.{stop_state}
use classroom.Rooms.Worker.{Answer, code, fetch_error, other_error, with_code}

abbrev pub initial_backoff : ℕ
initial_backoff = second

abbrev pub max_backoff : ℕ
max_backoff = 30 * second

abbrev pub max_attempts : ℕ
max_attempts = 10

-- One round of `recoveryLoop`: the time of a `StopRoom` that runs during the wait, during the fetch
-- and during the pause after an exhausted pool, if one does; the answer; and the time after it.
pub record Round : Type 0 where
  pub stop_in_wait : Option ℕ
  pub stop_in_fetch : Option ℕ
  pub stop_in_pause : Option ℕ
  pub answer : Answer
  pub now : ℕ

abbrev pub meanwhile : Option ℕ → RoomState × Shared → RoomState × Shared
meanwhile none s = s
meanwhile (some t) (st, sh) = stop_state t st sh

-- How `recoveryLoop` ends. `panics` is the call of a nil cancel function, with the manager's lock
-- held; `waiting` means that no further round was given.
pub data Recovery : Type 0 where
  returns : Bool → RoomState × Shared → Recovery
  panics : RoomState × Shared → Recovery
  waiting : ℕ → ℕ → RoomState × Shared → Recovery

-- The success branch, after its check of the context under the lock.
unfoldable pub recovered : ℕ → String → ℕ → RoomState → Shared → RoomState × Shared
unfolding transition_to
recovered now url qr_time st sh =
    let filled = record (with_code st.room url qr_time now) {
      warning_message = none;
      error_message = none;
    } in
    let room = (transition_to (transition_to filled fetching).0 running).0 in
    (record st { room = room; last_qr_time = qr_time }, persist_and_emit sh now room)

abbrev pub conflict_room : Room → Room
conflict_room r =
    (transition_to
      (record r { warning_message = some "Admin logged in, retrying..."; error_message = none })
      warning).0

abbrev pub invalid_room : String → Room → Room
invalid_room m r =
    (transition_to (record r { error_message = some (str_append "Invalid QR response: " m) })
      stopped).0

-- A branch that writes the room, persists it, tells the clients and leaves the loop.
abbrev pub leave_with : Room → ℕ → RoomState → Shared → Recovery
leave_with room now st sh = returns false (record st { room = room }, persist_and_emit sh now room)

abbrev pub spent_room : Room → Room
spent_room r =
    (transition_to (record r { error_message = some "Session recovery failed after 10 attempts" })
      stopped).0

-- What follows the last attempt: the room is stopped and its worker's context is cancelled.
unfoldable pub give_up : ℕ → RoomState × Shared → Recovery
unfolding transition_to
give_up now (st, sh) = elim st.cancel [
  | none ↦ panics (record st { room = spent_room st.room }, sh)
  | some c ↦ returns false (
    record st { room = spent_room st.room; cancel = none },
    persist_and_emit (cancel_context (some c) sh) now (spent_room st.room),
  )
]

abbrev pub next_backoff : ℕ → ℕ
next_backoff b = if ltb max_backoff (b * 2) then max_backoff else b * 2

-- What one answer does to the loop: leave it, try again at once, or count a failed attempt.
pub data Verdict : Type 0 where
  leave : Recovery → Verdict
  again failed : RoomState × Shared → Verdict

unfoldable pub judge : ℕ → Round → RoomState → Shared → Verdict
unfolding recovered transition_to is_done stop_state
judge c r st sh = elim r.answer [
  | code url qr_time ↦
      if is_done c sh.canceled
      then leave (returns false (st, sh))
      else leave (returns true (recovered r.now url qr_time st sh))
  | other_error m ↦ failed (st, sh)
  | fetch_error kind m ↦ elim kind [
    | auth_conflict ↦ leave (leave_with (conflict_room st.room) r.now st sh)
    | pool_exhausted ↦
        let (st', sh') = meanwhile r.stop_in_pause (st, sh) in
        if is_done c sh'.canceled then leave (returns false (st', sh')) else again (st', sh')
    | invalid_payload ↦ leave (leave_with (invalid_room m st.room) r.now st sh)
    | _ ↦ failed (st, sh)
  ]
]

-- One round: the wait, the fetch, the verdict.
unfoldable pub round : ℕ → Round → RoomState × Shared → Verdict
round c r s =
    let (st, sh) = meanwhile r.stop_in_wait s in
    if is_done c sh.canceled
    then leave (returns false (st, sh))
    else let (st', sh') = meanwhile r.stop_in_fetch (st, sh) in judge c r st' sh'

-- `recoveryLoop` after `attempts` failed attempts, with the next wait `backoff`; `now` is the time
-- after the last round.
unfoldable pub recovery_loop : ℕ → ℕ → ℕ → ℕ → List Round → RoomState × Shared → Recovery
recovery_loop c now attempts backoff [] s =
    if leb max_attempts attempts then give_up now s else waiting attempts backoff s
recovery_loop c now attempts backoff (r ∷ rs) s = elim (leb max_attempts attempts) [
  | true ↦ give_up now s
  | false ↦ elim (round c r s) [
    | leave out ↦ out
    | again s' ↦ recovery_loop c r.now attempts backoff rs s'
    | failed s' ↦ recovery_loop c r.now (attempts + 1) (next_backoff backoff) rs s'
  ]
]
