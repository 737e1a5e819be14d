-- ===== src/Rooms/Shutdown.antt =====
-- What the operations on all rooms of internal/service/room_manager.go reach: after a cold start no
-- room looks active, and after a shutdown none has a worker, unless a room is stopped already and
-- still has one.
use classroom.Base.{
  ℕ, ◌≡◌, refl, sym, subst, ap, ◌∙◌, Option, String, Bool, true, none, some, List, [], ◌∷◌, ◌++◌,
  map, arith, ◌≢◌, All, if◌then◌else◌,
}
use mathlib.Core.List.{map-append}
use classroom.Domain.Room.{Room, stopped}
use classroom.Rooms.State.{
  RoomState, Shared, Manager, is_done, cancel_context, emit_room_events, is_some,
}
use classroom.Rooms.Commands.{emit_keeps}
use classroom.Rooms.Control.{stop_refused}
use classroom.Rooms.Bulk.{
  Item, is_inactive, unselected, mark_recovered, persist_recovered, recover_loaded_rooms,
  mark_stopped, persist_all_stopped, stop_all_active_rooms,
}

abbrev pub Inactive : String × RoomState → Type 0
Inactive (id, st) = is_inactive st.room.status ≡ true

abbrev pub InactiveItem : Item → Type 0
InactiveItem i = is_inactive i.state.room.status ≡ true

mark_recovered_lem :
    (m : List (String × RoomState))
    → ((mark_recovered m).1 ≡ none) × All InactiveItem (mark_recovered m).0
unfolding mark_recovered
mark_recovered_lem [] = (refl, tt)
mark_recovered_lem ((id, st) ∷ m) = ground (arith, mark_recovered_lem m)

persist_recovered-Inactive :
    (takes : Room → Bool) (is : List Item)
    → All InactiveItem is
    → All Inactive (persist_recovered takes is).0
unfolding persist_recovered
persist_recovered-Inactive takes [] h = tt
persist_recovered-Inactive takes (i ∷ is) h =
    ground (arith, persist_recovered-Inactive takes is h.1)

-- After `RecoverLoadedRooms` every room is idle or stopped, whatever its status was and whatever the
-- repository answers: the error return in the first loop is never taken.
pub recover_loaded_rooms-Inactive :
    (takes : Room → Bool) (m : List (String × RoomState))
    → All Inactive (recover_loaded_rooms takes m).0
unfolding recover_loaded_rooms
recover_loaded_rooms-Inactive takes m =
    let (fine, inactive) = mark_recovered_lem m in
    rw (fine, recover_loaded_rooms) (persist_recovered-Inactive takes (mark_recovered m).0 inactive)

-- A room whose worker is taken for alive although the room is stopped.
abbrev pub IsWedged : RoomState → Type 0
IsWedged st = (is_some st.cancel ≡ true) × (st.room.status ≡ stopped)

abbrev pub Sane : String × RoomState → Type 0
Sane (id, st) = is_some st.cancel ≡ true → st.room.status ≢ stopped

abbrev pub NoWorker : String × RoomState → Type 0
NoWorker (id, st) = st.cancel ≡ none

abbrev NoWorkerItem : Item → Type 0
NoWorkerItem i = i.state.cancel ≡ none

mark_stopped-Sane :
    (m : List (String × RoomState)) (sh : Shared)
    → All Sane m
    → ((mark_stopped m sh).2 ≡ none) × All NoWorkerItem (mark_stopped m sh).0
unfolding mark_stopped
mark_stopped-Sane [] sh h = (refl, tt)
mark_stopped-Sane ((id, st) ∷ m) sh h =
    ground (arith, mark_stopped-Sane m (cancel_context st.cancel sh) h.1, h.0)

abbrev restore : Item → String × RoomState
restore j = (j.id, j.state)

restored : (m : List (String × RoomState)) → map restore (map unselected m) ≡ m
restored [] = refl
restored ((id, st) ∷ m) = ap (◌∷◌ (id, st)) (restored m)

All-restored : (is : List Item) → All NoWorkerItem is → All NoWorker (map (λ j. (j.id, j.state)) is)
All-restored [] h = tt
All-restored (i ∷ is) h = (h.0, All-restored is h.1)

persist_all_stopped-NoWorker :
    (first second : Room → Bool) (waits : String → Bool) (now : ℕ) (is : List Item) (sh : Shared)
    → All NoWorkerItem is
    → All NoWorker (persist_all_stopped first second waits now is sh).0
unfolding persist_all_stopped
persist_all_stopped-NoWorker first second waits now [] sh h = tt
persist_all_stopped-NoWorker first second waits now (i ∷ is) sh h = ground (
  arith,
  persist_all_stopped-NoWorker first second waits now is sh h.1,
  persist_all_stopped-NoWorker first second waits now is (emit_room_events sh now i.state.room) h.1,
  All-restored is h.1,
)

-- Every worker of the rooms has a cancelled context.
abbrev pub Canceled : List ℕ → String × RoomState → Type 0
Canceled contexts (id, st) = (c : ℕ) → st.cancel ≡ some c → is_done c contexts ≡ true

is_done-grows :
    (c : ℕ) (o : Option ℕ) (sh : Shared)
    → is_done c sh.canceled ≡ true
    → is_done c (cancel_context o sh).canceled ≡ true
unfolding is_done
is_done-grows c none sh h = h
is_done-grows c (some x) sh h = ground (arith, h)

cancel_context-done :
    (c : ℕ) (o : Option ℕ) (sh : Shared)
    → o ≡ some c
    → is_done c (cancel_context o sh).canceled ≡ true
unfolding is_done
cancel_context-done c none sh h = cc
cancel_context-done c (some x) sh h = ground arith

mark_stopped-shared :
    (id : String) (st : RoomState) (m : List (String × RoomState)) (sh : Shared)
    → Sane (id, st)
    → (mark_stopped ((id, st) ∷ m) sh).1 ≡ (mark_stopped m (cancel_context st.cancel sh)).1
unfolding mark_stopped
mark_stopped-shared id st m sh h = ground (arith, h)

-- The first loop cancels what it passes, and keeps cancelled what is.
mark_stopped-Canceled :
    (m : List (String × RoomState)) (sh : Shared)
    → All Sane m
    → ((c : ℕ) → is_done c sh.canceled ≡ true → is_done c (mark_stopped m sh).1.canceled ≡ true)
      × All (Canceled (mark_stopped m sh).1.canceled) m
unfolding mark_stopped
mark_stopped-Canceled [] sh h = (λ c e. e, tt)
mark_stopped-Canceled ((id, st) ∷ m) sh h =
    let (grows, rest) = mark_stopped-Canceled m (cancel_context st.cancel sh) h.1 in
    let same = mark_stopped-shared id st m sh h.0 in
    (
      λ c e. ap (λ u. is_done c u.canceled) same ∙ grows c (is_done-grows c st.cancel sh e),
      subst (λ u. All (Canceled u.canceled) ((id, st) ∷ m)) (sym same)
          (λ c k. grows c (cancel_context-done c st.cancel sh k), rest),
    )

persist_all_stopped-canceled :
    (first second : Room → Bool) (waits : String → Bool) (now : ℕ) (is : List Item) (sh : Shared)
    → (persist_all_stopped first second waits now is sh).1.canceled ≡ sh.canceled
unfolding persist_all_stopped
persist_all_stopped-canceled first second waits now [] sh = refl
persist_all_stopped-canceled first second waits now (i ∷ is) sh =
    let keeps = (emit_keeps sh now i.state.room).0 in
    ground (
      arith,
      keeps,
      persist_all_stopped-canceled first second waits now is sh,
      persist_all_stopped-canceled first second waits now is (emit_room_events sh now i.state.room),
    )

-- `StopAllActiveRooms` leaves no room with a worker, if no room was stopped with a worker before, and
-- has cancelled the context of every worker that there was, whatever the repository answers and however
-- long the workers take.
pub stop_all_active_rooms-NoWorker :
    (first second : Room → Bool) (waits : String → Bool) (now : ℕ) (m : Manager)
    → All Sane m.rooms
    → let m' = (stop_all_active_rooms first second waits now m).0 in
      All NoWorker m'.rooms × All (Canceled m'.shared.canceled) m.rooms
unfolding stop_all_active_rooms
stop_all_active_rooms-NoWorker first second waits now m h =
    let (fine, off) = mark_stopped-Sane m.rooms m.shared h in
    let (_, canceled) = mark_stopped-Canceled m.rooms m.shared h in
    let same =
      persist_all_stopped-canceled first second waits now (mark_stopped m.rooms m.shared).0
        (mark_stopped m.rooms m.shared).1 in
    rw (fine, stop_all_active_rooms)
      (
        persist_all_stopped-NoWorker first second waits now (mark_stopped m.rooms m.shared).0
            (mark_stopped m.rooms m.shared).1 off,
        subst (λ cs. All (Canceled cs) m.rooms) (sym same) canceled,
      )

-- What the first loop makes of a room that it does not stumble over.
marked_item : String × RoomState → Item
marked_item (id, st) =
    if is_some st.cancel
    then record {
      id = id;
      state = record st {
        room = record st.room { status = stopped };
        cancel = none;
        stop_persist_pending = true;
      };
      selected = true;
    }
    else record { id = id; state = st; selected = st.stop_persist_pending }

mark_stopped_step :
    (id : String) (st : RoomState) (m : List (String × RoomState)) (sh : Shared)
    → Sane (id, st)
    → let rest = mark_stopped m (cancel_context st.cancel sh) in
      ((mark_stopped ((id, st) ∷ m) sh).0 ≡ marked_item (id, st) ∷ rest.0)
      × ((mark_stopped ((id, st) ∷ m) sh).2 ≡ rest.2)
unfolding mark_stopped marked_item
mark_stopped_step id st m sh h = ground (arith, h)

mark_stopped_wedged :
    (before after : List (String × RoomState)) (id : String) (st : RoomState) (sh : Shared)
    → All Sane before
    → IsWedged st
    → (items : List Item) × ((mark_stopped (before ++ (id, st) ∷ after) sh).0
        ≡ items ++ map unselected after)
      × ((mark_stopped (before ++ (id, st) ∷ after) sh).2 ≡ some (stop_refused st.room.room_id))
unfolding mark_stopped
mark_stopped_wedged [] after id st sh h w =
    (unselected (id, record st { cancel = none }) ∷ [], ground arith, ground arith)
mark_stopped_wedged ((i, s) ∷ before) after id st sh h w =
    let (items, e, f) = mark_stopped_wedged before after id st (cancel_context s.cancel sh) h.1 w in
    let (step, same) = mark_stopped_step i s (before ++ (id, st) ∷ after) sh h.0 in
    (marked_item (i, s) ∷ items, step ∙ ap (◌∷◌ (marked_item (i, s))) e, same ∙ f)

-- A room that is stopped and still has a worker makes `StopAllActiveRooms` fail at that room, with
-- the refused transition as its only error: the rooms that come after it in the iteration are left
-- as they were, with their workers.
pub stop_all_active_rooms_wedged :
    (first second : Room → Bool) (waits : String → Bool) (now : ℕ)
    (before after : List (String × RoomState)) (id : String) (st : RoomState) (sh : Shared)
    → All Sane before
    → IsWedged st
    → let m : Manager = record { rooms = before ++ (id, st) ∷ after; shared = sh } in
      ((stop_all_active_rooms first second waits now m).1 ≡ stop_refused st.room.room_id ∷ [])
      × ((handled : List (String × RoomState)) × ((stop_all_active_rooms first second waits now
              m).0.rooms
            ≡ handled ++ after))
unfolding stop_all_active_rooms
stop_all_active_rooms_wedged first second waits now before after id st sh h w =
    let (items, e, f) = mark_stopped_wedged before after id st sh h w in
    rw (f, stop_all_active_rooms)
      (
        refl,
        (
          map restore items,
          ap (map restore) e
              ∙ map-append restore items (map unselected after)
              ∙ ap (◌++◌ (map restore items)) (restored after),
        ),
      )
