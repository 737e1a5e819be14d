-- ===== src/Rooms/Bulk.antt =====
-- What internal/service/room_manager.go does to all rooms at once: loading, the recovery after a cold
-- start, clearing old codes, retention and the stop of all workers. What the repository answers and
-- whether a wait ends in time are arguments.
use classroom.Base.{
  ℕ, String, Bool, true, false, ◌&&◌, ◌||◌, not, Option, none, some, List, [], ◌∷◌, ◌++◌, map, ltb,
  if◌then◌else◌,
}
use classroom.Domain.Room.{RoomStatus, Room, idle, stopped, status_eq, transition_to}
use classroom.Rooms.State.{
  RoomState, Shared, Manager, update, cancel_context, emit_room_events, put_room, delete_room,
  fresh_state, is_some,
}
use classroom.Rooms.Control.{RoomError, repository_error, stop_refused, context_done}

-- `LoadRoomsFromDB`.
unfoldable pub load_rooms : List Room → List (String × RoomState) → List (String × RoomState)
load_rooms [] m = m
load_rooms (r ∷ rs) m = load_rooms rs (put_room r.room_id (fresh_state r) m)

-- A room, and whether the loop over the rooms has selected it for persisting.
pub record Item : Type 0 where
  pub id : String
  pub state : RoomState
  pub selected : Bool

abbrev pub unselected : String × RoomState → Item
unselected (id, st) = record { id = id; state = st; selected = false }

abbrev pub is_inactive : RoomStatus → Bool
is_inactive s = status_eq s idle || status_eq s stopped

-- The first loop of `RecoverLoadedRooms`: the rooms after it, and the error that ends it early.
unfoldable pub mark_recovered : List (String × RoomState) → List Item × Option RoomError
unfolding transition_to
mark_recovered [] = ([], none)
mark_recovered ((id, st) ∷ m) =
    let (rest, e) = mark_recovered m in
    if is_inactive st.room.status
    then (unselected (id, st) ∷ rest, e)
    else elim (transition_to st.room stopped).1 [
      | some refused ↦ (unselected (id, st) ∷ map unselected m, some (stop_refused st.room.room_id))
      | none ↦ (
        record {
          id = id;
          state = record st {
            room = (transition_to st.room stopped).0;
            stop_persist_pending = true;
          };
          selected = true;
        }
            ∷ rest,
        e,
      )
    ]

-- The second loop: every selected room that the repository takes is no longer pending.
unfoldable pub persist_recovered :
    (Room → Bool) → List Item → List (String × RoomState) × List RoomError
persist_recovered takes [] = ([], [])
persist_recovered takes (i ∷ is) =
    let (rest, es) = persist_recovered takes is in
    if not i.selected
    then ((i.id, i.state) ∷ rest, es)
    else if takes i.state.room
    then ((i.id, record i.state { stop_persist_pending = false }) ∷ rest, es)
    else ((i.id, i.state) ∷ rest, repository_error i.state.room.room_id ∷ es)

-- `RecoverLoadedRooms`.
unfoldable pub recover_loaded_rooms :
    (Room → Bool) → List (String × RoomState) → List (String × RoomState) × List RoomError
unfolding mark_recovered persist_recovered
recover_loaded_rooms takes m =
    let (items, e) = mark_recovered m in
    elim e [
      | some refused ↦ (map (λ i. (i.id, i.state)) items, refused ∷ [])
      | none ↦ persist_recovered takes items
    ]

-- The test of `ClearExpiredQRs` on a room with a code.
abbrev pub is_outdated : ℕ → Option ℕ → Bool
is_outdated now none = true
is_outdated now (some t) = ltb t now

abbrev pub clear_room : ℕ → Room → Room
clear_room now r =
    if is_some r.qr_url && (is_outdated now r.expires_at || is_inactive r.status)
    then record r { qr_url = none; expires_at = none }
    else r

-- The loop of `ClearExpiredQRs`.
unfoldable pub clear_expired_qrs : ℕ → List (String × RoomState) → List (String × RoomState)
clear_expired_qrs now [] = []
clear_expired_qrs now ((id, st) ∷ m) =
    (id, record st { room = clear_room now st.room }) ∷ clear_expired_qrs now m

abbrev pub forget_emission : Shared → String → Shared
forget_emission sh id = record sh {
  last_emitted_at = update sh.last_emitted_at id none;
  emit_seqs = update sh.emit_seqs id 0;
}

-- `RetainRooms`, for the room ids that the repository has deleted.
unfoldable pub retain_rooms : List String → Manager → Manager
retain_rooms [] m = m
retain_rooms (id ∷ ids) m =
    retain_rooms ids
      (record { rooms = delete_room id m.rooms; shared = forget_emission m.shared id })

-- The first loop of `StopAllActiveRooms`: a refused transition ends it at once.
unfoldable pub mark_stopped :
    List (String × RoomState) → Shared → List Item × Shared × Option RoomError
unfolding transition_to
mark_stopped [] sh = ([], sh, none)
mark_stopped ((id, st) ∷ m) sh =
    let sh' = cancel_context st.cancel sh in
    let (rest, shr, e) = mark_stopped m sh' in
    if not (is_some st.cancel || st.stop_persist_pending)
    then (unselected (id, st) ∷ rest, shr, e)
    else if not (is_some st.cancel)
    then (record { id = id; state = st; selected = true } ∷ rest, shr, e)
    else elim (transition_to st.room stopped).1 [
      | some refused ↦ (
        unselected (id, record st { cancel = none }) ∷ map unselected m,
        sh',
        some (stop_refused st.room.room_id),
      )
      | none ↦ (
        record {
          id = id;
          state = record st {
            room = (transition_to st.room stopped).0;
            cancel = none;
            stop_persist_pending = true;
          };
          selected = true;
        }
            ∷ rest,
        shr,
        e,
      )
    ]

-- One item of the second loop: the errors of the two writes, and the state after them. The worker
-- has exited and the older writes are over before the second write.
abbrev pub persist_stopped : (Room → Bool) → (Room → Bool) → Item → RoomState × List RoomError
persist_stopped first second i =
    let failure = repository_error i.state.room.room_id in
    let early = if first i.state.room then [] else failure ∷ [] in
    if second i.state.room
    then (record i.state { stop_persist_pending = false }, early)
    else (i.state, early ++ failure ∷ [])

-- The second loop. `waits id` says that the room's worker exits and its writes end before the
-- caller's context does; otherwise the loop ends at that room.
unfoldable pub persist_all_stopped :
    (Room → Bool)
    → (Room → Bool)
    → (String → Bool)
    → ℕ
    → List Item
    → Shared
    → List (String × RoomState) × Shared × List RoomError
persist_all_stopped first second waits now [] sh = ([], sh, [])
persist_all_stopped first second waits now (i ∷ is) sh =
    let skip = persist_all_stopped first second waits now is sh in
    let (st, es) = persist_stopped first second i in
    let next =
      persist_all_stopped first second waits now is (emit_room_events sh now i.state.room) in
    if not i.selected
    then ((i.id, i.state) ∷ skip.0, skip.1, skip.2)
    else if waits i.id
    then ((i.id, st) ∷ next.0, next.1, es ++ next.2)
    else (
      (i.id, i.state) ∷ map (λ j. (j.id, j.state)) is,
      sh,
      (if first i.state.room then [] else repository_error i.state.room.room_id ∷ [])
          ++ context_done ∷ [],
    )

-- `StopAllActiveRooms`.
unfoldable pub stop_all_active_rooms :
    (Room → Bool) → (Room → Bool) → (String → Bool) → ℕ → Manager → Manager × List RoomError
unfolding mark_stopped persist_all_stopped
stop_all_active_rooms first second waits now m =
    let (items, sh, e) = mark_stopped m.rooms m.shared in
    elim e [
      | some refused ↦
          (record { rooms = map (λ i. (i.id, i.state)) items; shared = sh }, refused ∷ [])
      | none ↦
          let (rooms, sh', es) = persist_all_stopped first second waits now items sh in
          (record { rooms = rooms; shared = sh' }, es)
    ]
