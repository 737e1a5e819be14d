-- ===== src/Rooms/Trace.antt =====
-- The room operations of internal/service/room_manager.go as steps, in any order, and what holds of
-- the events after every sequence of them.
use mathlib.Core.List.{Permᴰ}
use classroom.Base.{
  List, ◌++◌, ℕ, ◌≡◌, subst, sym, String, Bool, Option, none, some, arith, ◌⊎◌, inl, inr,
  Bool-cases, Option-cases,
}
use classroom.Domain.Room.{
  Room, RoomStatus, FetchErrorKind, status_eq, to_room_status, transition_to, fetching, warning,
}
use classroom.Rooms.State.{
  RoomState, Shared, Event, is_done, emit_room_events, persist_and_emit, cancel_context,
}
use classroom.Rooms.Control.{Wiring, start_state, stop_state}
use classroom.Rooms.Isolation.{start_state_live}
use classroom.Rooms.Worker.{
  Answer, code, fetch_error, other_error, tick_begin, tick_end, after_error, error_text,
  with_status, non_recoverable, fetch_success, TickEnd, goes_on, ends, recovers,
}
use classroom.Rooms.Recovery.{
  Round, returns, panics, waiting, Verdict, leave, again, failed, judge, meanwhile, give_up,
}
use classroom.Rooms.Revisions.{
  IsNumbered, revisions, count_up, revisions-append, revisions-Permᴰ, emit_room_events-IsNumbered,
}

-- The state that a verdict or the end of the recovery leaves.
pub data Leads : Verdict → RoomState × Shared → Type 0 where
  returned : (ok : Bool) (s : RoomState × Shared) → Leads (leave (returns ok s)) s
  panicked : (s : RoomState × Shared) → Leads (leave (panics s)) s
  repeated : (s : RoomState × Shared) → Leads (again s) s
  counted : (s : RoomState × Shared) → Leads (failed s) s

-- One step on a room and what it shares with the others: `StartRoom`, `StopRoom`, the two halves of
-- a fetch cycle, an attempt of the recovery, and what follows the last one.
pub data Step : RoomState × Shared → RoomState × Shared → Type 0 where
  starts :
      (w : Wiring) (now : ℕ) (st : RoomState) (sh : Shared)
      → Step (st, sh) (start_state w now st sh)
  stops : (now : ℕ) (st : RoomState) (sh : Shared) → Step (st, sh) (stop_state now st sh)
  begins :
      (now : ℕ) (st : RoomState) (sh : Shared) (s' : RoomState × Shared)
      → tick_begin now st sh ≡ some s'
      → Step (st, sh) s'
  ticks :
      (c now later : ℕ) (a : Answer) (st : RoomState) (sh : Shared) (s' : RoomState × Shared)
      → (tick_end c now later a st sh ≡ goes_on s') ⊎ (tick_end c now later a st sh ≡ recovers s')
      → Step (st, sh) s'
  retries :
      (c : ℕ) (r : Round) (st : RoomState) (sh : Shared) (v : Verdict) (s' : RoomState × Shared)
      → judge c r st sh ≡ v
      → Leads v s'
      → Step (st, sh) s'
  gives_up :
      (now : ℕ) (st : RoomState) (sh : Shared) (s' : RoomState × Shared)
      → Leads (leave (give_up now (st, sh))) s'
      → Step (st, sh) s'

-- Steps on any rooms: each step takes a state of its own and the shared part that the last one left.
pub data Trace : Shared → Shared → Type 0 where
  here : (sh : Shared) → Trace sh sh
  next :
      {sh : Shared} (st : RoomState) (sh' : Shared) (s' : RoomState × Shared)
      → Trace sh sh'
      → Step (st, sh') s'
      → Trace sh s'.1

emit-num :
    (sh : Shared) (now : ℕ) (room : Room)
    → IsNumbered sh
    → IsNumbered (persist_and_emit sh now room)
emit-num sh now room h = emit_room_events-IsNumbered _ now room h

stop-num :
    (now : ℕ) (st : RoomState) (sh : Shared) → IsNumbered sh → IsNumbered (stop_state now st sh).1
unfolding stop_state
stop-num now st sh h = emit-num (cancel_context st.cancel sh) now _ (canceled st.cancel)
  where
    canceled : (o : Option ℕ) → IsNumbered (cancel_context o sh)
    canceled none = h
    canceled (some c) = h

start-num :
    (w : Wiring) (now : ℕ) (st : RoomState) (sh : Shared)
    → IsNumbered sh
    → IsNumbered (start_state w now st sh).1
unfolding start_state
start-num w now st sh h = elim (Option-cases st.cancel) [
  | inl e ↦ rw (e, start_state) (emit_room_events-IsNumbered _ now _ h)
  | inr (c, e) ↦ subst (λ p. IsNumbered p.1) (sym (start_state_live w now st sh c e)) h
]

abbrev EndNum : TickEnd → Type 0
EndNum (goes_on s) = IsNumbered s.1
EndNum (ends s) = IsNumbered s.1
EndNum (recovers s) = IsNumbered s.1

after_error-num :
    (later : ℕ) (m : String) (st : RoomState) (sh : Shared)
    → IsNumbered sh
    → EndNum (after_error later m st sh)
unfolding non_recoverable
after_error-num later m st sh h =
    elim (Bool-cases (status_eq st.room.status RoomStatus.auth_expired)) [
      | inl e ↦ rw e (emit-num sh later _ h)
      | inr e ↦ rw e (emit-num sh later _ h)
    ]

tick-num :
    (c now later : ℕ) (a : Answer) (st : RoomState) (sh : Shared)
    → IsNumbered sh
    → EndNum (tick_end c now later a st sh)
unfolding tick_end
tick-num c now later a st sh h = elim (Bool-cases (is_done c sh.canceled)) [
  | inl e ↦ rw e h
  | inr e ↦ rw e (answered a)
]
  where
    answered :
        (a : Answer)
        → EndNum (elim a [
          | code url qr_time ↦ goes_on (fetch_success now later url qr_time st sh)
          | fetch_error kind m ↦
              after_error later (error_text kind m) (with_status st (to_room_status kind)) sh
          | other_error m ↦ after_error later m (with_status st warning) sh
        ])
    answered (code url qr_time) = emit-num sh later _ h
    answered (fetch_error kind m) =
        after_error-num later _ (with_status st (to_room_status kind)) sh h
    answered (other_error m) = after_error-num later _ (with_status st warning) sh h

abbrev VerdictNum : Verdict → Type 0
VerdictNum (leave (returns ok s)) = IsNumbered s.1
VerdictNum (leave (panics s)) = IsNumbered s.1
VerdictNum (leave (waiting a b s)) = IsNumbered s.1
VerdictNum (again s) = IsNumbered s.1
VerdictNum (failed s) = IsNumbered s.1

meanwhile-num :
    (o : Option ℕ) (s : RoomState × Shared) → IsNumbered s.1 → IsNumbered (meanwhile o s).1
meanwhile-num none s h = h
meanwhile-num (some t) s h = stop-num t s.0 s.1 h

judge-num :
    (c : ℕ) (r : Round) (a : Answer) (st : RoomState) (sh : Shared)
    → IsNumbered sh
    → VerdictNum (judge c (record r { answer = a }) st sh)
unfolding judge
judge-num c r (code url qr_time) st sh h = elim (Bool-cases (is_done c sh.canceled)) [
  | inl e ↦ rw e h
  | inr e ↦ rw e (emit-num sh r.now _ h)
]
judge-num c r (fetch_error FetchErrorKind.auth_expired m) st sh h = h
judge-num c r (fetch_error FetchErrorKind.network m) st sh h = h
judge-num c r (fetch_error FetchErrorKind.invalid_payload m) st sh h = emit-num sh r.now _ h
judge-num c r (fetch_error FetchErrorKind.rate_limited m) st sh h = h
judge-num c r (fetch_error FetchErrorKind.auth_conflict m) st sh h = emit-num sh r.now _ h
judge-num c r (fetch_error FetchErrorKind.pool_exhausted m) st sh h =
    elim (Bool-cases (is_done c (meanwhile r.stop_in_pause (st, sh)).1.canceled)) [
      | inl e ↦ rw e (meanwhile-num r.stop_in_pause (st, sh) h)
      | inr e ↦ rw e (meanwhile-num r.stop_in_pause (st, sh) h)
    ]
judge-num c r (other_error m) st sh h = h

tick_begin-num :
    (now : ℕ) (st : RoomState) (sh : Shared) (s' : RoomState × Shared)
    → IsNumbered sh
    → tick_begin now st sh ≡ some s'
    → IsNumbered s'.1
unfolding tick_begin
tick_begin-num now st sh s' h e =
    let room = (transition_to st.room fetching).0 in
    let same : s'.1 ≡ emit_room_events sh now room = ground arith in
    subst IsNumbered (sym same) (emit_room_events-IsNumbered sh now room h)

give_up-num :
    (now : ℕ) (st : RoomState) (sh : Shared)
    → IsNumbered sh
    → VerdictNum (leave (give_up now (st, sh)))
unfolding give_up
give_up-num now st sh h = elim (Option-cases st.cancel) [
  | inl e ↦ rw (e, give_up) h
  | inr (c, e) ↦ rw (e, give_up) (emit-num (cancel_context (some c) sh) now _ h)
]

led-num : {v : Verdict} {s : RoomState × Shared} → Leads v s → VerdictNum v → IsNumbered s.1
led-num (returned ok s) k = k
led-num (panicked s) k = k
led-num (repeated s) k = k
led-num (counted s) k = k

Step-IsNumbered : {s s' : RoomState × Shared} → Step s s' → IsNumbered s.1 → IsNumbered s'.1
Step-IsNumbered (starts w now st sh) h = start-num w now st sh h
Step-IsNumbered (stops now st sh) h = stop-num now st sh h
Step-IsNumbered (begins now st sh s' e) h = tick_begin-num now st sh s' h e
Step-IsNumbered (ticks c now later a st sh s' (inl e)) h =
    subst EndNum e (tick-num c now later a st sh h)
Step-IsNumbered (ticks c now later a st sh s' (inr e)) h =
    subst EndNum e (tick-num c now later a st sh h)
Step-IsNumbered (retries c r st sh v s' e l) h =
    led-num l (subst VerdictNum e (judge-num c r r.answer st sh h))
Step-IsNumbered (gives_up now st sh s' l) h = led-num l (give_up-num now st sh h)

Trace-Numbered : {sh sh' : Shared} → Trace sh sh' → IsNumbered sh → IsNumbered sh'
Trace-Numbered (here sh) h = h
Trace-Numbered (next st sh' s' t step) h = Step-IsNumbered step (Trace-Numbered t h)

-- The events of a room are numbered without a gap: if the revisions of every room's ROOM_CHANGED events
-- are 1, 2, … up to the number that the manager keeps, they still are, in the order in which they are
-- numbered, after any sequence of starts, stops, fetch cycles, recovery attempts and ends of a recovery,
-- on any rooms; and in whatever order these events are then published, the published and the pending ones
-- of a room have each of these revisions exactly once.
pub Trace-IsNumbered :
    {sh sh' : Shared}
    → Trace sh sh'
    → IsNumbered sh
    → IsNumbered sh'
      × ((id : String) (published pending : List Event)
          → Permᴰ (published ++ pending) sh'.events
          → Permᴰ (revisions id published ++ revisions id pending) (count_up (sh'.emit_seqs id)))
Trace-IsNumbered {sh' = sh'} t h =
    let numbered = Trace-Numbered t h in
    (
      numbered,
      λ id published pending p.
          subst (λ l. Permᴰ l (count_up (sh'.emit_seqs id))) (revisions-append id published pending)
            (subst (Permᴰ (revisions id (published ++ pending))) (numbered id)
              (revisions-Permᴰ id p)),
    )
