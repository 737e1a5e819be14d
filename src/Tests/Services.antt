-- ===== src/Tests/Services.antt =====
-- internal/service/event_hub.go, internal/service/session_sync.go and internal/domain/enrichment.go at
-- concrete inputs.
use classroom.Base.{ℕ, ◌≡◌, refl, String, Bool, true, false, none, some, List, [], ◌∷◌, ◌++◌, get}
use classroom.Domain.Classroom.{StudentCheckin, StudentProfile}
use classroom.Domain.Enrichment.{build_codes, on_roster, resolve_student}
use classroom.Domain.Enrichment.Codes.{resolve_student-code}
use classroom.Service.EventHub.{new_hub}
use classroom.Service.EventHub.Log.{
  Action, publishes, pumps, subscribes, reads, closes, play, empty_log, Refines,
}
use classroom.Service.EventHub.Delivery.{play-Refines}
use classroom.Service.SessionSync.{SyncState, publish_checkin_deltas, events_of}
use classroom.Service.SessionSync.Deltas.{
  publish_checkin_deltas-follow, follow_events, fetched, or_before,
}

-- A subscriber that reads one of three events, of which its queue has room for one.
abbrev steps : List (Action ℕ)
steps =
    subscribes
    ∷ publishes 7 1
    ∷ pumps 2
    ∷ publishes 8 3
    ∷ pumps 4
    ∷ reads 1
    ∷ publishes 9 5
    ∷ pumps 6
    ∷ closes
    ∷ []

play-Refines_example :
    Refines (play steps (new_hub 1 1, empty_log)).0 (play steps (new_hub 1 1, empty_log)).1
play-Refines_example = play-Refines steps 1 1

abbrev student : String → Bool → StudentCheckin
student id here = record { student_id = id; name = "n"; checked_in = here; checked_in_at = none }

abbrev room : SyncState
room = record {
  last_checkins = some (("a", false) ∷ ("b", true) ∷ []);
  last_set_due_at = 0;
  published = [];
  reconciles = 0;
}

publish_checkin_deltas-follow_example :
    let (updates, s') = publish_checkin_deltas (student "a" true ∷ []) room in
    (get "b" (follow_events (events_of updates) (("a", false) ∷ ("b", true) ∷ []))
      ≡ or_before (fetched "b" (student "a" true ∷ [])) (get "b" (("a", false) ∷ ("b", true) ∷ [])))
    × (s'.published ≡ [] ++ events_of updates)
    × ((kept : List (String × Bool)) × (s'.last_checkins ≡ some kept)
        × (get "b" kept ≡ fetched "b" (student "a" true ∷ [])))
publish_checkin_deltas-follow_example =
    publish_checkin_deltas-follow (student "a" true ∷ []) room (("a", false) ∷ ("b", true) ∷ []) "b"
      refl

abbrev profile : String → String → StudentProfile
profile id guid = record { student_id = id; student_guid = guid; full_name = "n" }

resolve_student-code_example :
    resolve_student "u1" (student "g1" true ∷ []) (profile "u0" "g0" ∷ profile "u1" "g1" ∷ [])
    ≡ some "g1"
unfolding on_roster build_codes
resolve_student-code_example =
    resolve_student-code "g1" "u1" (student "g1" true ∷ [])
      (profile "u0" "g0" ∷ profile "u1" "g1" ∷ []) ((refl, tt), (tt, tt)) refl refl refl
