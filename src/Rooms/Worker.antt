-- ===== src/Rooms/Worker.antt =====
-- The QR worker of internal/service/room_manager.go: one fetch cycle, and the recovery after an
-- expired session. What the QR client answers is an argument.
use Prim.Native.String.{◌++◌ as str_append}
use classroom.Base.{
  ℕ, ◌+◌, ◌-◌, ◌*◌, ◌%◌, ◌^◌, String, Bool, true, not, Option, none, some, ltb, ◌==◌, if◌then◌else◌,
}
use classroom.Domain.Room.{
  RoomStatus, Room, running, stopped, fetching, warning, status_eq, transition_to, FetchErrorKind,
  invalid_payload, auth_conflict, pool_exhausted, network, rate_limited, to_room_status,
  next_fetch_delay,
}
use classroom.Rooms.State.{second, RoomState, Shared, is_done, emit_room_events, persist_and_emit}

-- The nanoseconds of an `int64` whose 64 bits are `d`: how far it goes on, and how far it goes back.
unfoldable pub forward : ℕ → ℕ
forward d = let w = d % 2 ^ 64 in if ltb w (2 ^ 63) then w else 0

unfoldable pub backward : ℕ → ℕ
backward d = let w = d % 2 ^ 64 in if ltb w (2 ^ 63) then 0 else 2 ^ 64 - w

-- `now.Add(time.Duration(q) * time.Second)`, a product that wraps around.
unfoldable pub add_seconds : ℕ → ℕ → ℕ
unfolding forward backward
add_seconds now q = now + forward (q * second) - backward (q * second)

-- `shouldFetchQR`. Times are nanoseconds and the lifetime of a code is in seconds; the comparison is
-- Go's `now.After(issuedAt.Add(delay))` with what goes back added on the other side.
unfoldable pub should_fetch_qr : Option ℕ → ℕ → ℕ → Bool
unfolding next_fetch_delay forward backward
should_fetch_qr none last_qr_time now = true
should_fetch_qr (some expires_at) last_qr_time now =
    let ttl = if last_qr_time == 0 then 60 else last_qr_time in
    let issued = (2 ^ 64 - ttl % 2 ^ 64) * second in
    let delay = next_fetch_delay ttl * second in
    ltb (expires_at + forward issued + forward delay) (now + backward issued + backward delay)

-- What the QR client answers: a code with its lifetime, a `*FetchError`, or another error.
pub data Answer : Type 0 where
  code : String → ℕ → Answer
  fetch_error : FetchErrorKind → String → Answer
  other_error : String → Answer

-- `FetchError.Error`.
unfoldable pub error_text : FetchErrorKind → String → String
error_text FetchErrorKind.auth_expired m = "warwick session expired"
error_text network m = str_append "network request failed: " m
error_text invalid_payload m = str_append "invalid response payload: " m
error_text rate_limited m = "warwick rate limit exceeded"
error_text auth_conflict m = "warwick auth conflict — human admin likely logged in"
error_text pool_exhausted m = "pool exhausted — all sessions in use"

-- The QR fields that a successful fetch at `now` writes.
abbrev pub with_code : Room → String → ℕ → ℕ → Room
with_code r url qr_time now = record r {
  qr_url = some url;
  expires_at = some (add_seconds now qr_time);
  last_updated_at = some now;
  last_fetch_at = some now;
}

-- `handleRoomFetchSuccess`: `now` is when the cycle began, `later` is when the events go out.
unfoldable pub fetch_success : ℕ → ℕ → String → ℕ → RoomState → Shared → RoomState × Shared
unfolding transition_to
fetch_success now later url qr_time st sh =
    let room = record (transition_to (with_code st.room url qr_time now) running).0 {
      warning_message = none;
      error_message = none;
    } in
    (record st { room = room; last_qr_time = qr_time }, persist_and_emit sh later room)

-- `handleNonRecoverableError`.
unfoldable pub non_recoverable : ℕ → String → RoomState → Shared → RoomState × Shared
non_recoverable later message st sh =
    let room = record st.room { warning_message = some (str_append "Error: " message) } in
    (record st { room = room }, persist_and_emit sh later room)

-- `handleNoQRClient`.
unfoldable pub no_qr_client : ℕ → RoomState → Shared → RoomState × Shared
unfolding transition_to
no_qr_client later st sh =
    let room =
      (transition_to
        (record st.room {
          error_message = some "QR client not available (session pool not initialized)";
        })
        stopped).0 in
    (record st { room = room }, persist_and_emit sh later room)

-- The first half of `roomWorkerTick`, up to the fetch: `none` if no fetch is due.
unfoldable pub tick_begin : ℕ → RoomState → Shared → Option (RoomState × Shared)
unfolding transition_to should_fetch_qr
tick_begin now st sh =
    if not (should_fetch_qr st.room.expires_at st.last_qr_time now)
    then none
    else let room = (transition_to st.room fetching).0 in
      some (record st { room = room }, emit_room_events sh now room)

-- How a fetch cycle ends: the worker goes on, ends, or enters `recoveryLoop`.
pub data TickEnd : Type 0 where
  goes_on ends recovers : RoomState × Shared → TickEnd

abbrev pub with_status : RoomState → RoomStatus → RoomState
with_status st s = record st { room = (transition_to st.room s).0 }

abbrev pub retrying_room : Room → Room
retrying_room r = record r {
  warning_message = some "Session expired, retrying...";
  error_message = none;
}

-- What follows the status that an error has given.
abbrev pub after_error : ℕ → String → RoomState → Shared → TickEnd
after_error later message st sh =
    if status_eq st.room.status RoomStatus.auth_expired
    then recovers (
      record st { room = retrying_room st.room },
      persist_and_emit sh later (retrying_room st.room),
    )
    else goes_on (non_recoverable later message st sh)

-- The second half of `roomWorkerTick`, from the answer on, for the worker with context `c`.
unfoldable pub tick_end : ℕ → ℕ → ℕ → Answer → RoomState → Shared → TickEnd
unfolding transition_to to_room_status fetch_success non_recoverable is_done error_text
tick_end c now later answer st sh = if is_done c sh.canceled then ends (st, sh) else elim answer [
  | code url qr_time ↦ goes_on (fetch_success now later url qr_time st sh)
  | fetch_error kind m ↦
      after_error later (error_text kind m) (with_status st (to_room_status kind)) sh
  | other_error m ↦ after_error later m (with_status st warning) sh
]
