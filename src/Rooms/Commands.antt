-- ===== src/Rooms/Commands.antt =====
-- What `StartRoom`, `StopRoom` and `DeleteRoom` of internal/service/room_manager.go guarantee.
use classroom.Base.{
  ℕ, suc, ◌+◌, ◌≡◌, refl, ap, String, true, none, some, List, [], ◌∷◌, ◌++◌, str_eq, eq_iff, arith,
  if◌then◌else◌, ◌⊎◌, ◌≢◌,
}
use classroom.Domain.Room.{
  Room, running, stopped, warning, auth_expired, transition_to, new_room_lite,
}
use classroom.Rooms.State.{
  Shared, RoomState, room_updated, room_changed, changed_event, is_done, emit_room_events,
  send_pair, find_room, put_room, delete_room,
}
use classroom.Rooms.Control.{Wiring, launch, reset_room, start_state, stop_state}

pub find_room-put_room :
    (k j : String) (v : RoomState) (m : List (String × RoomState))
    → find_room j (put_room k v m) ≡ (if str_eq k j then some v else find_room j m)
unfolding find_room put_room
find_room-put_room k j v [] = refl
find_room-put_room k j v ((i, w) ∷ m) =
    ground (arith, eq_iff k j, eq_iff i k, eq_iff i j, find_room-put_room k j v m)

pub find_room-delete_room :
    (k j : String) (m : List (String × RoomState))
    → find_room j (delete_room k m) ≡ (if str_eq k j then none else find_room j m)
unfolding find_room delete_room
find_room-delete_room k j [] = ground arith
find_room-delete_room k j ((i, w) ∷ m) =
    ground (arith, eq_iff k j, eq_iff i k, eq_iff i j, find_room-delete_room k j m)

-- What `emitRoomEvents` leaves alone.
pub emit_keeps :
    (sh : Shared) (now : ℕ) (room : Room)
    → let sh' = emit_room_events sh now room in
      (sh'.canceled ≡ sh.canceled)
      × (sh'.next_context ≡ sh.next_context)
      × (sh'.tasks ≡ sh.tasks)
      × (sh'.writes ≡ sh.writes)
unfolding emit_room_events
emit_keeps sh now room = ground arith

-- Every status has an edge to `stopped`, and `stopped` itself stays.
pub transition_to-stopped : (r : Room) → (transition_to r stopped).0 ≡ record r { status = stopped }
unfolding transition_to
transition_to-stopped r = ground arith

-- `StopRoom` on a room in any status: the room is stopped, serves no code and has no worker, the
-- context of the worker that it had is cancelled, the stopped row goes to the repository, and exactly one
-- pair of events is sent, the summary and the change of the stopped room under its next revision,
-- whatever the time of the last event.
pub stop_state_lem :
    (now : ℕ) (st : RoomState) (sh : Shared)
    → let (st', sh') = stop_state now st sh in
      (st'.room.status ≡ stopped)
      × (st'.room.qr_url ≡ none)
      × (st'.room.expires_at ≡ none)
      × (st'.cancel ≡ none)
      × ((c : ℕ) → st.cancel ≡ some c → is_done c sh'.canceled ≡ true)
      × (sh'.writes ≡ sh.writes ++ st'.room ∷ [])
      × (sh'.emit_seqs st'.room.room_id ≡ sh.emit_seqs st'.room.room_id + 1)
      × (sh'.events
          ≡ sh.events
            ++ room_updated (new_room_lite st'.room)
              ∷ room_changed (changed_event st'.room (sh.emit_seqs st'.room.room_id + 1))
              ∷ [])
unfolding stop_state is_done emit_room_events send_pair
stop_state_lem now st sh =
    rw (transition_to-stopped st.room, stop_state)
      (
        refl,
        refl,
        refl,
        refl,
        (λ c h. rw (h, stop_state) (ground arith)),
        ground arith,
        ground (arith, eq_iff st.room.room_id st.room.room_id),
        ground arith,
      )

-- `StartRoom` on a room with no worker: it gets a worker under a new context, with the tasks that the
-- wiring asks for; the verification of an earlier worker is gone, and so are the code and the
-- messages unless the room was running. From the statuses idle, stopped, fetching and running it is
-- running afterwards; the other two it keeps.
pub start_state_lem :
    (w : Wiring) (now : ℕ) (st : RoomState) (sh : Shared)
    → st.cancel ≡ none
    → let (st', sh') = start_state w now st sh in
      (st'.cancel ≡ some sh.next_context)
      × (sh'.next_context ≡ sh.next_context + 1)
      × (sh'.tasks ≡ sh.tasks ++ launch w st.course_id sh.next_context)
      × (sh'.canceled ≡ sh.canceled)
      × (st'.room.attendance_label ≡ none)
      × (st'.room.verified_at ≡ none)
      × (st.room.status ≢ running → (st'.room.qr_url ≡ none) × (st'.room.expires_at ≡ none))
      × ((st'.room.status ≡ running)
          ⊎ ((st'.room.status ≡ st.room.status)
              × ((st.room.status ≡ warning) ⊎ (st.room.status ≡ auth_expired))))
unfolding start_state transition_to
start_state_lem w now st sh h =
    let room = (transition_to (reset_room st.room) running).0 in
    let keeps = emit_keeps (record sh { next_context = suc sh.next_context }) now room in
    rw (h, start_state)
      (
        refl,
        omega (arith, keeps.1),
        ap (λ ts. ts ++ launch w st.course_id sh.next_context) keeps.2,
        keeps.0,
        ground arith,
        ground arith,
        (λ n. (ground arith, ground arith)),
        ground arith,
      )
