-- ===== src/Rooms/State.antt =====
-- The state of internal/service/room_manager.go: the rooms, and what all rooms share.
use classroom.Base.{
  ℕ, suc, ◌-◌, ◌*◌, String, Bool, true, false, ◌&&◌, ◌||◌, not, Option, none, some, List, [], ◌∷◌,
  ◌++◌, str_eq, ltb, ◌==◌, if◌then◌else◌,
}
use classroom.Domain.Room.{Room, RoomLite, RoomChanged, status_eq, stopped, new_room_lite}

abbrev pub second : ℕ
second = 1_000_000_000

abbrev pub is_some {ℓ} : {A : Type ℓ} → Option A → Bool
is_some none = false
is_some (some _) = true

-- What the manager publishes. Whether the event hub takes an event is the hub's.
pub data Event : Type 0 where
  room_created : RoomLite → Event
  room_updated : RoomLite → Event
  room_changed : RoomChanged → Event
  room_deleted : String → Event

-- A goroutine that `StartRoom` starts, with the context it runs under.
pub data Task : Type 0 where
  qr_worker verification session_sync : ℕ → Task

-- `RoomState`. A worker's context is a number, and `cancel` is the cancel function of the live one.
pub record RoomState : Type 0 where
  pub room : Room
  pub cancel : Option ℕ
  pub stop_persist_pending : Bool
  pub last_qr_time : ℕ
  pub course_id : String

-- What the workers of all rooms share: the emission maps, the contexts, and the effects so far. `events`
-- are in the order in which they are numbered, under the lock of the emission maps; each handler hands its
-- own pair to the hub after that lock, so the hub may get the pairs of concurrent handlers in another order.
pub record Shared : Type 0 where
  pub last_emitted_at : String → Option ℕ
  pub emit_seqs : String → ℕ
  pub events : List Event
  pub writes : List Room
  pub tasks : List Task
  pub next_context : ℕ
  pub canceled : List ℕ

abbrev pub update {ℓ} : {V : Type ℓ} → (String → V) → String → V → String → V
update f k v j = if str_eq j k then v else f j

-- `ctx.Done()` is closed.
unfoldable pub is_done : ℕ → List ℕ → Bool
is_done c [] = false
is_done c (x ∷ xs) = c == x || is_done c xs

-- `state.cancel()`.
abbrev pub cancel_context : Option ℕ → Shared → Shared
cancel_context none sh = sh
cancel_context (some c) sh = record sh { canceled = c ∷ sh.canceled }

-- `emit`.
abbrev pub emit : Shared → Event → Shared
emit sh e = record sh { events = sh.events ++ e ∷ [] }

abbrev pub min_emit_interval : ℕ
min_emit_interval = 5 * second

abbrev pub too_soon : Option ℕ → ℕ → Bool
too_soon none now = false
too_soon (some last) now = ltb (now - last) min_emit_interval

-- The test of the gate in `emitRoomEvents`: a room with a QR and a stopped room pass it always.
abbrev pub is_time_critical : Room → Bool
is_time_critical room = is_some room.qr_url || status_eq room.status stopped

abbrev pub changed_event : Room → ℕ → RoomChanged
changed_event room revision = record {
  room_id = room.room_id;
  class_id = room.class_id;
  status = room.status;
  expires_at = room.expires_at;
  has_qr = is_some room.qr_url;
  revision = revision;
}

-- The pair of events that the gate lets pass, under the room's next revision, which the lock numbers.
unfoldable pub send_pair : Shared → ℕ → Room → Shared
unfolding new_room_lite
send_pair sh now room =
    let revision = suc (sh.emit_seqs room.room_id) in
    record sh {
      last_emitted_at = update sh.last_emitted_at room.room_id (some now);
      emit_seqs = update sh.emit_seqs room.room_id revision;
      events =
          sh.events
          ++ room_updated (new_room_lite room) ∷ room_changed (changed_event room revision) ∷ [];
    }

-- `emitRoomEvents`, at the time `now`.
unfoldable pub emit_room_events : Shared → ℕ → Room → Shared
unfolding send_pair
emit_room_events sh now room =
    if not (is_time_critical room) && too_soon (sh.last_emitted_at room.room_id) now
    then sh
    else send_pair sh now room

-- `persistRoomUpdate` hands the row to a goroutine that writes it.
abbrev pub persist_room_update : Shared → Room → Shared
persist_room_update sh room = record sh { writes = sh.writes ++ room ∷ [] }

-- The pair that ends most handlers: persist the room, then tell the clients.
abbrev pub persist_and_emit : Shared → ℕ → Room → Shared
persist_and_emit sh now room = emit_room_events (persist_room_update sh room) now room

-- The rooms of the manager, by room id; the order is that of an iteration over Go's map.
pub record Manager : Type 0 where
  pub rooms : List (String × RoomState)
  pub shared : Shared

unfoldable pub find_room : String → List (String × RoomState) → Option RoomState
find_room k [] = none
find_room k ((j, v) ∷ m) = if str_eq j k then some v else find_room k m

unfoldable pub put_room : String → RoomState → List (String × RoomState) → List (String × RoomState)
put_room k v [] = (k, v) ∷ []
put_room k v ((j, w) ∷ m) = if str_eq j k then (k, v) ∷ m else (j, w) ∷ put_room k v m

unfoldable pub delete_room : String → List (String × RoomState) → List (String × RoomState)
delete_room k [] = []
delete_room k ((j, w) ∷ m) = if str_eq j k then delete_room k m else (j, w) ∷ delete_room k m

-- `&RoomState{room: room}`.
abbrev pub fresh_state : Room → RoomState
fresh_state room = record {
  room = room;
  cancel = none;
  stop_persist_pending = false;
  last_qr_time = 0;
  course_id = "";
}
