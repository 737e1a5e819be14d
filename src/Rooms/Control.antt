-- ===== src/Rooms/Control.antt =====
-- Starting, stopping, creating and deleting rooms: the lifecycle methods of
-- internal/service/room_manager.go. What the repository answers is an argument.
use classroom.Base.{
  ℕ, suc, String, Bool, ◌&&◌, not, Option, none, some, List, [], ◌∷◌, ◌++◌, str_eq, if◌then◌else◌,
}
use classroom.Domain.Room.{
  Room, running, stopped, status_eq, transition_to, new_room, new_room_lite,
}
use classroom.Rooms.State.{
  room_created, room_deleted, Task, qr_worker, verification, session_sync, RoomState, Shared,
  Manager, update, cancel_context, emit, emit_room_events, persist_and_emit, find_room, put_room,
  delete_room, fresh_state, is_some,
}

-- What is configured on the manager: a check-in sync driver, an attendance label source.
pub record Wiring : Type 0 where
  pub sync_driver : Bool
  pub label_source : Bool

-- The stale fields that `StartRoom` resets, the verification always and the rest unless running.
abbrev pub reset_room : Room → Room
reset_room r =
    let s =
      if not (status_eq r.status running)
      then record r {
        qr_url = none;
        expires_at = none;
        warning_message = none;
        error_message = none;
      }
      else r in
    record s { attendance_label = none; verified_at = none; verification_error = none }

-- The goroutines of a started room.
abbrev pub launch : Wiring → String → ℕ → List Task
launch w course_id c =
    (if w.label_source then verification c ∷ [] else [])
    ++ (qr_worker c ∷ [])
    ++ (if w.sync_driver && not (str_eq course_id "") then session_sync c ∷ [] else [])

-- `StartRoom` on a room that is there: nothing if it has a worker. A refused transition is logged.
unfoldable pub start_state : Wiring → ℕ → RoomState → Shared → RoomState × Shared
unfolding transition_to
start_state w now st sh = elim st.cancel [
  | some c ↦ (st, sh)
  | none ↦
      let room = (transition_to (reset_room st.room) running).0 in
      let c = sh.next_context in
      let sh' = emit_room_events (record sh { next_context = suc c }) now room in
      (
        record st { room = room; cancel = some c },
        record sh' { tasks = sh'.tasks ++ launch w st.course_id c },
      )
]

pub data RoomError : Type 0 where
  room_not_found context_done : RoomError
  repository_error : String → RoomError
  stop_refused : String → RoomError

-- `StartRoom`.
unfoldable pub start_room : Wiring → ℕ → String → Manager → Manager × Option RoomError
start_room w now id m = elim (find_room id m.rooms) [
  | none ↦ (m, some room_not_found)
  | some st ↦
      let (st', sh') = start_state w now st m.shared in
      (record { rooms = put_room id st' m.rooms; shared = sh' }, none)
]

-- `StopRoom` on a room that is there.
unfoldable pub stop_state : ℕ → RoomState → Shared → RoomState × Shared
unfolding transition_to
stop_state now st sh =
    let room = record (transition_to st.room stopped).0 { qr_url = none; expires_at = none } in
    (
      record st { room = room; cancel = none },
      persist_and_emit (cancel_context st.cancel sh) now room,
    )

-- `StopRoom`.
unfoldable pub stop_room : ℕ → String → Manager → Manager × Option RoomError
stop_room now id m = elim (find_room id m.rooms) [
  | none ↦ (m, some room_not_found)
  | some st ↦
      let (st', sh') = stop_state now st m.shared in
      (record { rooms = put_room id st' m.rooms; shared = sh' }, none)
]

-- `CreateRoom`: `existing` is the row that the repository has, if it answers with one, and `saved`
-- is what it answers to the insertion.
unfoldable pub create_room :
    ℕ
    → String
    → String
    → Option String
    → Option Room
    → (Room → Option Room)
    → Manager
    → Manager × Option Room
unfolding new_room new_room_lite
create_room now id class_id name existing saved m = elim existing [
  | some row ↦
      let rooms =
        if is_some (find_room id m.rooms) then m.rooms else put_room id (fresh_state row) m.rooms in
      (record m { rooms = rooms }, some row)
  | none ↦ elim (saved (new_room id class_id name)) [
    | none ↦ (m, none)
    | some row ↦ (
      record {
        rooms = put_room row.room_id (fresh_state row) m.rooms;
        shared = emit_room_events (emit m.shared (room_created (new_room_lite row))) now row;
      },
      some row,
    )
  ]
]

-- `EnsureSessionRoom`: the room to return, or an error. Only a live worker counts as running.
unfoldable pub ensure_session_room :
    Wiring
    → ℕ
    → String
    → String
    → Option Room
    → (Room → Option Room)
    → Manager
    → Manager × Option Room
ensure_session_room w now session_id course_id existing saved m =
    if str_eq session_id ""
    then (m, none)
    else let (m1, created) = create_room now session_id session_id none existing saved m in
      elim created [
        | none ↦ (m1, none)
        | some row ↦ elim (find_room session_id m1.rooms) [
          | none ↦ (m1, some row)
          | some st ↦
              let course =
                if str_eq st.course_id "" && not (str_eq course_id "")
                then course_id
                else st.course_id in
              let (st', sh') = start_state w now (record st { course_id = course }) m1.shared in
              (record { rooms = put_room session_id st' m1.rooms; shared = sh' }, some st'.room)
        ]
      ]

-- `DeleteRoom`: `failed` is the repository's error, if it has one.
unfoldable pub delete_room_by_id : Option String → String → Manager → Manager × Option RoomError
delete_room_by_id failed id m = elim failed [
  | some e ↦ (m, some (repository_error e))
  | none ↦
      let sh : Shared = elim (find_room id m.rooms) [
        | none ↦ m.shared
        | some st ↦ cancel_context st.cancel m.shared
      ] in
      (
        record {
          rooms = delete_room id m.rooms;
          shared =
              emit
                (record sh {
                  last_emitted_at = update sh.last_emitted_at id none;
                  emit_seqs = update sh.emit_seqs id 0;
                })
                (room_deleted id);
        },
        none,
      )
]
