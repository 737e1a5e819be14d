-- ===== src/Rooms/Refresh.antt =====
-- When the worker of internal/service/room_manager.go fetches, and how a cycle ends.
use classroom.Base.{ℕ, ◌≡◌, true, false, none, some, arith, ◌≢◌}
use classroom.Domain.Room.{RoomStatus, idle, running, fetching, warning, stopped, FetchErrorKind}
use classroom.Rooms.State.{RoomState, Shared, is_done}
use classroom.Rooms.Worker.{
  should_fetch_qr, Answer, code, fetch_error, other_error, tick_begin, tick_end, TickEnd, goes_on,
  recovers,
}

-- A fetch begins only when one is due. From the statuses running, warning and auth_expired the room
-- is then fetching, with its worker, its code and the contexts as they were.
pub tick_begin_lem :
    (now : ℕ) (st st' : RoomState) (sh sh' : Shared)
    → tick_begin now st sh ≡ some (st', sh')
    → (should_fetch_qr st.room.expires_at st.last_qr_time now ≡ true)
      × ((st.room.status ≢ idle) → (st.room.status ≢ stopped) → st'.room.status ≡ fetching)
      × (st'.cancel ≡ st.cancel)
      × (st'.room.qr_url ≡ st.room.qr_url)
unfolding tick_begin
tick_begin_lem now st st' sh sh' h = ground arith

abbrev pub EndsWell : ℕ → Answer → RoomState → TickEnd → Type 0
EndsWell later (code url qr_time) st (goes_on (st', sh')) =
    (st'.room.status ≡ running)
    × (st'.room.qr_url ≡ some url)
    × (st'.last_qr_time ≡ qr_time)
    × (st'.room.warning_message ≡ none)
    × (st'.room.error_message ≡ none)
EndsWell later (fetch_error FetchErrorKind.auth_expired m) st (recovers (st', sh')) =
    (st'.room.status ≡ RoomStatus.auth_expired) × (st'.room.qr_url ≡ st.room.qr_url)
EndsWell later (fetch_error _ m) st (goes_on (st', sh')) =
    (st'.room.status ≡ warning) × (st'.room.qr_url ≡ st.room.qr_url)
EndsWell later (other_error m) st (goes_on (st', sh')) =
    (st'.room.status ≡ warning) × (st'.room.qr_url ≡ st.room.qr_url)
EndsWell later answer st _ = ⊥

-- A cycle of a fetching room whose worker is not cancelled: a code makes it running with that code
-- and no messages; an expired session hands over to the recovery, in status auth_expired; any other
-- error makes it a warning and the worker goes on. The old code is kept on every error.
pub tick_end_answers :
    (c now later : ℕ) (answer : Answer) (st : RoomState) (sh : Shared)
    → st.room.status ≡ fetching
    → is_done c sh.canceled ≡ false
    → EndsWell later answer st (tick_end c now later answer st sh)
unfolding tick_end
tick_end_answers c now later (code url qr_time) st sh f d = rw (d, tick_end) (ground arith)
tick_end_answers c now later (fetch_error FetchErrorKind.auth_expired m) st sh f d =
    rw (d, tick_end) (ground arith)
tick_end_answers c now later (fetch_error FetchErrorKind.network m) st sh f d =
    rw (d, tick_end) (ground arith)
tick_end_answers c now later (fetch_error FetchErrorKind.invalid_payload m) st sh f d =
    rw (d, tick_end) (ground arith)
tick_end_answers c now later (fetch_error FetchErrorKind.rate_limited m) st sh f d =
    rw (d, tick_end) (ground arith)
tick_end_answers c now later (fetch_error FetchErrorKind.auth_conflict m) st sh f d =
    rw (d, tick_end) (ground arith)
tick_end_answers c now later (fetch_error FetchErrorKind.pool_exhausted m) st sh f d =
    rw (d, tick_end) (ground arith)
tick_end_answers c now later (other_error m) st sh f d = rw (d, tick_end) (ground arith)
