-- ===== src/Domain/Room.antt =====
-- internal/domain/room.go: the status of a QR room, its transitions, and the errors of a fetch.
pub mod Lifecycle
use classroom.Base.{
  ℕ, ◌*◌, ◌/◌, ◌%◌, ◌^◌, String, Bool, true, false, ◌||◌, Option, none, some, List, [], ◌∷◌, map,
  if◌then◌else◌,
}

pub data RoomStatus : Type 0 where
  idle running fetching warning auth_expired stopped : RoomStatus

pub RoomStatus-discrete : Discrete RoomStatus
RoomStatus-discrete = hlevel

abbrev pub status_eq : RoomStatus → RoomStatus → Bool
status_eq idle idle = true
status_eq running running = true
status_eq fetching fetching = true
status_eq warning warning = true
status_eq auth_expired auth_expired = true
status_eq stopped stopped = true
status_eq _ _ = false

-- The map `allowedTransitions`.
unfoldable pub allowed_transitions : RoomStatus → List RoomStatus
allowed_transitions idle = running ∷ stopped ∷ []
allowed_transitions running = fetching ∷ stopped ∷ []
allowed_transitions fetching = running ∷ warning ∷ auth_expired ∷ stopped ∷ []
allowed_transitions warning = fetching ∷ stopped ∷ []
allowed_transitions auth_expired = fetching ∷ stopped ∷ []
allowed_transitions stopped = running ∷ []

pub record TransitionError : Type 0 where
  pub from : RoomStatus
  pub to : RoomStatus

-- The loop of `CanTransitionTo`.
unfoldable pub is_listed : RoomStatus → List RoomStatus → Bool
is_listed next [] = false
is_listed next (v ∷ vs) = status_eq next v || is_listed next vs

-- `CanTransitionTo`; `none` is the nil error.
unfoldable pub can_transition_to : RoomStatus → RoomStatus → Option TransitionError
unfolding allowed_transitions is_listed
can_transition_to s next =
    if is_listed next (allowed_transitions s) then none else some (record { from = s; to = next })

pub record Room : Type 0 where
  pub room_id : String
  pub class_id : String
  pub name : Option String
  pub status : RoomStatus
  pub qr_url : Option String
  pub expires_at : Option ℕ
  pub last_updated_at : Option ℕ
  pub warning_message : Option String
  pub error_message : Option String
  pub last_fetch_at : Option ℕ
  pub attendance_label : Option String
  pub verified_at : Option ℕ
  pub verification_error : Option String

-- `NewRoom`.
unfoldable pub new_room : String → String → Option String → Room
new_room room_id class_id name = record {
  room_id = room_id;
  class_id = class_id;
  name = name;
  status = idle;
  qr_url = none;
  expires_at = none;
  last_updated_at = none;
  warning_message = none;
  error_message = none;
  last_fetch_at = none;
  attendance_label = none;
  verified_at = none;
  verification_error = none;
}

-- `Room.TransitionTo`: the room is left alone when the transition is refused.
unfoldable pub transition_to : Room → RoomStatus → Room × Option TransitionError
unfolding can_transition_to
transition_to r next = elim (can_transition_to r.status next) [
  | some e ↦ (r, some e)
  | none ↦ (record r { status = next }, none)
]

pub data FetchErrorKind : Type 0 where
  auth_expired network invalid_payload rate_limited auth_conflict pool_exhausted : FetchErrorKind

-- `FetchError.ToRoomStatus`.
unfoldable pub to_room_status : FetchErrorKind → RoomStatus
to_room_status FetchErrorKind.auth_expired = RoomStatus.auth_expired
to_room_status rate_limited = warning
to_room_status auth_conflict = warning
to_room_status pool_exhausted = warning
to_room_status _ = warning

pub record RoomLite : Type 0 where
  pub room_id : String
  pub class_id : String
  pub name : Option String
  pub status : RoomStatus
  pub expires_at : Option ℕ

-- `NewRoomLite`.
unfoldable pub new_room_lite : Room → RoomLite
new_room_lite r = record {
  room_id = r.room_id;
  class_id = r.class_id;
  name = r.name;
  status = r.status;
  expires_at = r.expires_at;
}

-- `RoomsToLite`.
unfoldable pub rooms_to_lite : List Room → List RoomLite
unfolding new_room_lite
rooms_to_lite = map new_room_lite

pub record RoomChanged : Type 0 where
  pub room_id : String
  pub class_id : String
  pub status : RoomStatus
  pub expires_at : Option ℕ
  pub has_qr : Bool
  pub revision : ℕ

-- `CalculateNextFetchDelay`, in 64-bit arithmetic.
unfoldable pub next_fetch_delay : ℕ → ℕ
next_fetch_delay ttl = (ttl * 3 % 2 ^ 64) / 4
