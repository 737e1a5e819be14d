-- ===== src/Tests/Rooms.antt =====
-- internal/service/room_manager.go at concrete inputs.
use mathlib.Core.List.{Permᴰ}
use classroom.Base.{
  ℕ, ◌+◌, ◌≡◌, refl, sym, ◌∙◌, eq_iff, String, true, false, Option, none, some, List, [], ◌∷◌, ◌++◌,
  arith, ◌⊎◌, inl, ◌↔◌, All,
}
use classroom.Domain.Room.{
  new_room_lite, RoomStatus, Room, idle, running, fetching, warning, stopped, TransitionError,
  transition_to, invalid_payload, network,
}
use classroom.Domain.Room.Lifecycle.{◌⟶◌, transition_to-edges}
use classroom.Rooms.State.{
  Event, room_updated, room_changed, changed_event, RoomState, Shared, Manager, is_done, find_room,
  fresh_state,
}
use classroom.Rooms.Control.{Wiring, start_state, start_room, stop_state, stop_room, stop_refused}
use classroom.Rooms.Worker.{fetch_error, other_error, tick_end, fetch_success}
use classroom.Rooms.Recovery.{Round, returns, panics, leave, judge, recovery_loop, initial_backoff}
use classroom.Rooms.Bulk.{stop_all_active_rooms}
use classroom.Rooms.Commands.{stop_state_lem}
use classroom.Rooms.Isolation.{IsSound, KeepsOthers, commands-IsSound}
use classroom.Rooms.Refresh.{EndsWell, tick_end_answers}
use classroom.Rooms.Attempts.{Waits, recovery_attempts}
use classroom.Rooms.Outcomes.{Ends, recovery_loop-Ends}
use classroom.Rooms.Revisions.{revisions, count_up, IsNumbered, count_up, revisions}
use classroom.Rooms.Trace.{starts, stops, here, next, Trace-IsNumbered}
use classroom.Rooms.Shutdown.{
  NoWorker, Canceled, stop_all_active_rooms-NoWorker, stop_all_active_rooms_wedged,
}
use classroom.Rooms.Faults.{
  ended_worker_blocks_start, late_success_undoes_stop, stop_in_last_attempt_panics,
}

abbrev blank_room : RoomStatus → Room
blank_room s = record {
  room_id = "r";
  class_id = "r";
  name = none;
  status = s;
  qr_url = none;
  expires_at = none;
  last_updated_at = none;
  warning_message = none;
  error_message = none;
  last_fetch_at = none;
  attendance_label = none;
  verified_at = none;
  verification_error = none;
}

abbrev room_in : RoomStatus → Option ℕ → RoomState
room_in s c = record (fresh_state (blank_room s)) { cancel = c }

abbrev clean : Shared
clean = record {
  last_emitted_at = λ id. none;
  emit_seqs = λ id. 0;
  events = [];
  writes = [];
  tasks = [];
  next_context = 8;
  canceled = [];
}

abbrev wiring : Wiring
wiring = record { sync_driver = false; label_source = true }

transition_to-edges_example :
    (((transition_to (blank_room idle) fetching).1 ≡ none) ↔ (idle ⟶ fetching))
    × ((transition_to (blank_room idle) fetching).1 ≡ none
        → (transition_to (blank_room idle) fetching).0 ≡ blank_room fetching)
    × ((e : TransitionError)
        → (transition_to (blank_room idle) fetching).1 ≡ some e
        → ((transition_to (blank_room idle) fetching).0 ≡ blank_room idle)
          × (e ≡ record { from = idle; to = fetching }))
transition_to-edges_example = transition_to-edges (blank_room idle) fetching

stop_state_lem_example :
    let (st', sh') = stop_state 5 (room_in warning (some 3)) clean in
    (st'.room.status ≡ stopped)
    × (st'.room.qr_url ≡ none)
    × (st'.room.expires_at ≡ none)
    × (st'.cancel ≡ none)
    × ((c : ℕ) → some 3 ≡ some c → is_done c sh'.canceled ≡ true)
    × (sh'.writes ≡ [] ++ st'.room ∷ [])
    × (sh'.emit_seqs st'.room.room_id ≡ 0 + 1)
    × (sh'.events
        ≡ []
          ++ room_updated (new_room_lite st'.room)
            ∷ room_changed (changed_event st'.room (0 + 1))
            ∷ [])
stop_state_lem_example = stop_state_lem 5 (room_in warning (some 3)) clean

abbrev one_room : Manager
one_room = record { rooms = ("r", room_in running (some 3)) ∷ []; shared = clean }

found_one :
    (i : String) (s t : RoomState) → find_room i (("r", s) ∷ []) ≡ some t → ("r" ≡ i) × (s ≡ t)
unfolding find_room
found_one i s t h = ground (arith, eq_iff "r" i)

one_room-IsSound : IsSound one_room
unfolding is_done
one_room-IsSound = record {
  live = λ id st c h hc.
      let e = (found_one id (room_in running (some 3)) st h).1 in (ground arith, refl);
  apart = λ i j s t c h k hs ht.
      let a = (found_one i (room_in running (some 3)) s h).0 in
      let b = (found_one j (room_in running (some 3)) t k).0 in sym a ∙ b;
  unused = λ c h. refl;
}

commands-IsSound_example :
    (IsSound (start_room wiring 5 "r" one_room).0
      × KeepsOthers "r" one_room (start_room wiring 5 "r" one_room).0)
    × (IsSound (stop_room 5 "r" one_room).0 × KeepsOthers "r" one_room (stop_room 5 "r" one_room).0)
commands-IsSound_example = commands-IsSound wiring 5 "r" one_room one_room-IsSound

tick_end_answers_example :
    EndsWell 7
      (fetch_error network "down")
      (room_in fetching (some 3))
      (tick_end 3 5 7 (fetch_error network "down") (room_in fetching (some 3)) clean)
unfolding is_done
tick_end_answers_example =
    tick_end_answers 3 5 7 (fetch_error network "down") (room_in fetching (some 3)) clean refl refl

abbrev lost : Round
lost = record {
  stop_in_wait = none;
  stop_in_fetch = none;
  stop_in_pause = none;
  answer = other_error "down";
  now = 9;
}

abbrev expired_room : RoomState
expired_room = room_in RoomStatus.auth_expired (some 3)

recovery_attempts_example :
    Waits 2 (recovery_loop 3 0 0 initial_backoff (lost ∷ lost ∷ []) (expired_room, clean))
recovery_attempts_example = recovery_attempts 3 0 (lost ∷ lost ∷ []) (expired_room, clean)

recovery_loop-Ends_example :
    Ends 3 (recovery_loop 3 0 0 initial_backoff (lost ∷ lost ∷ []) (expired_room, clean))
unfolding is_done
recovery_loop-Ends_example =
    recovery_loop-Ends 3 0 0 initial_backoff (lost ∷ lost ∷ []) (expired_room, clean)
      ((refl, refl, refl), ((refl, refl, refl), tt))
      (record { expired = refl; owned = refl; open_ = refl })

clean-IsNumbered : IsNumbered clean
unfolding revisions count_up
clean-IsNumbered id = refl

Trace-IsNumbered_example :
    let sh' =
      (stop_state 6
        (room_in running (some 8))
        (start_state wiring 5 (room_in idle none) clean).1).1 in
    IsNumbered sh'
    × ((id : String) (published pending : List Event)
        → Permᴰ (published ++ pending) sh'.events
        → Permᴰ (revisions id published ++ revisions id pending) (count_up (sh'.emit_seqs id)))
Trace-IsNumbered_example =
    Trace-IsNumbered
      (next (room_in running (some 8)) _
        (stop_state 6 (room_in running (some 8)) (start_state wiring 5 (room_in idle none) clean).1)
        (next (room_in idle none) clean (start_state wiring 5 (room_in idle none) clean)
          (here clean) (starts wiring 5 _ _))
        (stops 6 _ _))
      clean-IsNumbered

stop_all_active_rooms-NoWorker_example :
    let m' = (stop_all_active_rooms (λ r. true) (λ r. true) (λ id. true) 5 one_room).0 in
    All NoWorker m'.rooms × All (Canceled m'.shared.canceled) (("r", room_in running (some 3)) ∷ [])
stop_all_active_rooms-NoWorker_example =
    stop_all_active_rooms-NoWorker (λ r. true) (λ r. true) (λ id. true) 5 one_room ((λ h e. cc), tt)

abbrev behind : List (String × RoomState)
behind = ("b", room_in running (some 4)) ∷ []

stop_all_active_rooms_wedged_example :
    let m : Manager = record {
      rooms = [] ++ ("r", room_in stopped (some 3)) ∷ behind;
      shared = clean;
    } in
    ((stop_all_active_rooms (λ r. true) (λ r. true) (λ id. true) 5 m).1 ≡ stop_refused "r" ∷ [])
    × ((handled : List (String × RoomState)) × ((stop_all_active_rooms
            (λ r. true)
            (λ r. true)
            (λ id. true)
            5
            m).0.rooms
          ≡ handled ++ behind))
stop_all_active_rooms_wedged_example =
    stop_all_active_rooms_wedged (λ r. true) (λ r. true) (λ id. true) 5 [] behind "r"
      (room_in stopped (some 3)) clean tt (refl, refl)

abbrev garbled : Round
garbled = record lost { answer = fetch_error invalid_payload "no code" }

ended_worker_blocks_start_example :
    (s' : RoomState × Shared) × (judge 3 garbled expired_room clean ≡ leave (returns false s'))
    × ((s'.0.room.status ≡ stopped) ⊎ (s'.0.room.status ≡ RoomStatus.auth_expired))
    × (start_state wiring 10 s'.0 s'.1 ≡ s')
ended_worker_blocks_start_example =
    ended_worker_blocks_start wiring 3 3 10 garbled invalid_payload "no code" expired_room clean
      (inl refl) refl refl refl

late_success_undoes_stop_example :
    let stop = stop_state 5 (room_in fetching (some 3)) clean in
    let s' = fetch_success 4 6 "url" 60 stop.0 stop.1 in
    (s'.0.room.status ≡ running) × (s'.0.room.qr_url ≡ some "url") × (s'.0.cancel ≡ none)
late_success_undoes_stop_example =
    late_success_undoes_stop 5 4 6 60 "url" (room_in fetching (some 3)) clean

stop_in_last_attempt_panics_example :
    (s' : RoomState × Shared) × (recovery_loop 3 0 9 initial_backoff
        (record lost { stop_in_fetch = some 6 } ∷ [])
        (expired_room, clean)
      ≡ panics s')
unfolding is_done
stop_in_last_attempt_panics_example =
    stop_in_last_attempt_panics 3 0 6 initial_backoff (record lost { stop_in_fetch = some 6 })
      "down" (expired_room, clean) refl refl refl refl
