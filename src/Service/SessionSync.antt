-- ===== src/Service/SessionSync.antt =====
-- internal/service/session_sync.go: how an active room follows the check-ins of its session. The loop's
-- timers and jitter are left out; a cycle is what happens between two of them.
pub mod Deltas
use classroom.Base.{
  ℕ, suc, ◌+◌, ◌-◌, ◌*◌, Bool, true, false, ◌&&◌, not, String, Option, none, some, List, [], ◌∷◌,
  ◌++◌, ltb, leb, ◌==◌, if◌then◌else◌, length, put, get,
}
use classroom.Domain.Classroom.{StudentCheckin}
use classroom.Scraper.Policy.{second}

-- The errors that a cycle tells apart.
pub data SyncError : Type 0 where
  rate_limited auth_expired auth_conflict pool_exhausted other_error : SyncError

-- A `CheckinUpdate`, less the keys and the time that all updates of a cycle share.
pub record CheckinUpdate : Type 0 where
  pub student_id : String
  pub checked_in : Bool

-- One event for each update, or one for all of them.
pub data SyncEvent : Type 0 where
  checkin_updated : CheckinUpdate → SyncEvent
  checkins_updated : List CheckinUpdate → SyncEvent

-- What a room keeps for its cycles. `last_set_due_at` is 0 for none.
pub record SyncState : Type 0 where
  pub last_checkins : Option (List (String × Bool))
  pub last_set_due_at : ℕ
  pub published : List SyncEvent
  pub reconciles : ℕ

-- `checkinMap`, from the map so far.
unfoldable pub checkin_map : List (String × Bool) → List StudentCheckin → List (String × Bool)
checkin_map m [] = m
checkin_map m (s ∷ ss) = checkin_map (put s.student_id s.checked_in m) ss

-- `growSyncInterval`.
unfoldable pub grow_sync_interval : ℕ → ℕ
grow_sync_interval unchanged =
    if leb 7 unchanged then 10 * second else 3 * second + unchanged * second

abbrev pub bool_eq : Bool → Bool → Bool
bool_eq true b = b
bool_eq false b = not b

abbrev pub is_news : Option Bool → Bool → Bool
is_news none checked = true
is_news (some before) checked = not (bool_eq before checked)

-- The loop of `publishCheckinDeltas` over the current map.
unfoldable pub deltas : List (String × Bool) → List (String × Bool) → List CheckinUpdate
deltas prev [] = []
deltas prev ((id, checked) ∷ rest) =
    let more = deltas prev rest in
    if is_news (get id prev) checked
    then record { student_id = id; checked_in = checked } ∷ more
    else more

abbrev pub single_events : List CheckinUpdate → List SyncEvent
single_events [] = []
single_events (u ∷ us) = checkin_updated u ∷ single_events us

-- The events of the updates: none, one each up to eight, or one batch.
unfoldable pub events_of : List CheckinUpdate → List SyncEvent
events_of [] = []
events_of (u ∷ us) =
    if leb (length (u ∷ us)) 8 then single_events (u ∷ us) else checkins_updated (u ∷ us) ∷ []

abbrev pub updates_since : Option (List (String × Bool)) → List (String × Bool) → List CheckinUpdate
updates_since none current = []
updates_since (some prev) current = deltas prev current

-- `publishCheckinDeltas`.
unfoldable pub publish_checkin_deltas :
    List StudentCheckin → SyncState → List CheckinUpdate × SyncState
unfolding checkin_map deltas events_of
publish_checkin_deltas students s =
    let current = checkin_map [] students in
    let updates = updates_since s.last_checkins current in
    (
      updates,
      record s { last_checkins = some current; published = s.published ++ events_of updates },
    )

-- `triggerSyncReconcile`, at the time `now`.
unfoldable pub trigger_sync_reconcile : ℕ → SyncState → SyncState
trigger_sync_reconcile now s =
    if not (s.last_set_due_at == 0) && ltb (now - s.last_set_due_at) (3 * second)
    then s
    else record s { last_set_due_at = now; reconciles = suc s.reconciles }

-- What a fetch of the check-ins gives.
pub data Checkins : Type 0 where
  fetched : List StudentCheckin → Checkins
  fetch_failed : SyncError → Checkins

-- `sessionSyncCycleResult`.
pub record CycleResult : Type 0 where
  pub interval : ℕ
  pub unchanged : ℕ

unfoldable pub failed_cycle : SyncError → ℕ → CycleResult
unfolding grow_sync_interval
failed_cycle pool_exhausted unchanged = record {
  interval = grow_sync_interval unchanged;
  unchanged = unchanged;
}
failed_cycle other_error unchanged = record {
  interval = grow_sync_interval (suc unchanged);
  unchanged = suc unchanged;
}
failed_cycle _ unchanged = record { interval = 30 * second; unchanged = unchanged }

abbrev pub after_deltas : ℕ → ℕ → List CheckinUpdate → SyncState → CycleResult × SyncState
after_deltas now unchanged [] s =
    (record { interval = grow_sync_interval (suc unchanged); unchanged = suc unchanged }, s)
after_deltas now unchanged (u ∷ us) s =
    (record { interval = 3 * second; unchanged = 0 }, trigger_sync_reconcile now s)

-- `sessionSyncCycle`.
unfoldable pub session_sync_cycle : Checkins → ℕ → ℕ → SyncState → CycleResult × SyncState
unfolding failed_cycle publish_checkin_deltas trigger_sync_reconcile
session_sync_cycle (fetch_failed e) now unchanged s = (failed_cycle e unchanged, s)
session_sync_cycle (fetched students) now unchanged s =
    let (updates, published) = publish_checkin_deltas students s in
    after_deltas now unchanged updates published
