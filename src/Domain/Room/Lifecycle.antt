-- ===== src/Domain/Room/Lifecycle.antt =====
-- The room lifecycle of internal/domain/room.go as a relation, and what can be reached in it.
use classroom.Base.{◌≡◌, refl, ◌↔◌, ◌≢◌, none, some, arith}
use classroom.Domain.Room.{
  RoomStatus, idle, running, fetching, warning, auth_expired, stopped, Room, TransitionError,
  can_transition_to, transition_to,
}

infix 40 ◌⟶◌
-- One edge of the lifecycle: a room starts, fetches, reports what the fetch gave, recovers by
-- fetching again, and can be stopped from every other status.
pub data ◌⟶◌ : RoomStatus → RoomStatus → Type 0 where
  start : idle ⟶ running
  restart : stopped ⟶ running
  fetch : running ⟶ fetching
  fetched : fetching ⟶ running
  warn : fetching ⟶ warning
  expire : fetching ⟶ auth_expired
  retry_warning : warning ⟶ fetching
  retry_expired : auth_expired ⟶ fetching
  stop : {s : RoomStatus} → s ≢ stopped → s ⟶ stopped

ruleset edges = (start, restart, fetch, fetched, warn, expire, retry_warning, retry_expired)

can_transition_to-edge : (s next : RoomStatus) → can_transition_to s next ≡ none → s ⟶ next
unfolding can_transition_to
can_transition_to-edge s next h = grind (arith, edges, stop)

edge-can_transition_to : {s next : RoomStatus} → s ⟶ next → can_transition_to s next ≡ none
unfolding can_transition_to
edge-can_transition_to start = refl
edge-can_transition_to restart = refl
edge-can_transition_to fetch = refl
edge-can_transition_to fetched = refl
edge-can_transition_to warn = refl
edge-can_transition_to expire = refl
edge-can_transition_to retry_warning = refl
edge-can_transition_to retry_expired = refl
edge-can_transition_to (stop h) = ground arith

-- A transition is accepted exactly along an edge, and then only the status changes; a refused one
-- leaves the room as it was and names both statuses.
pub transition_to-edges :
    (r : Room) (next : RoomStatus)
    → (((transition_to r next).1 ≡ none) ↔ (r.status ⟶ next))
      × ((transition_to r next).1 ≡ none → (transition_to r next).0 ≡ record r { status = next })
      × ((e : TransitionError)
          → (transition_to r next).1 ≡ some e
          → ((transition_to r next).0 ≡ r) × (e ≡ record { from = r.status; to = next }))
unfolding transition_to
transition_to-edges r next = (
  (
    (λ h. can_transition_to-edge r.status next (ground arith)),
    (λ e. rw (edge-can_transition_to e, transition_to) refl),
  ),
  (λ h. ground arith),
  (λ e h. (ground arith, ground arith)),
)
