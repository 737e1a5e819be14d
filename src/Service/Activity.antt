-- ===== src/Service/Activity.antt =====
-- internal/service/activity_controller.go: speculative workers that run while there is activity. `Run` is
-- one goroutine; requests record activity meanwhile, in two atomic steps.
pub mod Idle
use classroom.Base.{ℕ, suc, ◌-◌, ◌<◌, ◌≡◌, Bool, true, false, ◌||◌, not, ltb, ◌==◌, if◌then◌else◌}

-- Where `Run` is: at its select; in the branch of the timer, with the lock, after the workers have stopped,
-- or after the check that follows; in the branch of a cancelled context, after the workers have stopped; or
-- returned.
pub data Phase : Type 0 where
  listening stopping idling leaving returned : Phase

-- The controller. `token` is the notification in its channel, `senders` are the calls of `RecordActivity`
-- between their count and their send, `armed` is whether `idleTimerC` is set, `expiring` the activity that
-- the timer's branch has read. The last two count starts of the workers and rounds of the idle handlers.
pub record Controller : Type 0 where
  pub phase : Phase
  pub activity_seq : ℕ
  pub in_flight : ℕ
  pub token : Bool
  pub senders : ℕ
  pub handled : ℕ
  pub expiring : ℕ
  pub running : Bool
  pub armed : Bool
  pub generation : ℕ
  pub idle_rounds : ℕ

-- `transitionMu` is held by `Run`.
abbrev pub is_locked : Phase → Bool
is_locked stopping = true
is_locked idling = true
is_locked _ = false

-- `NewActivityController`, with `Run` at its select.
abbrev pub new_controller : Controller
new_controller = record {
  phase = listening;
  activity_seq = 0;
  in_flight = 0;
  token = false;
  senders = 0;
  handled = 0;
  expiring = 0;
  running = false;
  armed = false;
  generation = 0;
  idle_rounds = 0;
}

-- `RecordActivity`: the count, and the send, which a full channel skips.
unfoldable pub count_activity : Controller → Controller
count_activity c = record c { activity_seq = suc c.activity_seq; senders = suc c.senders }

unfoldable pub send_activity : Controller → Controller
send_activity c = record c { token = true; senders = c.senders - 1 }

-- `BeginActivity`, once it has the lock.
unfoldable pub begin_activity : Controller → Controller
begin_activity c = record c { in_flight = suc c.in_flight }

-- The first `Finish` of a lease; a success then records activity.
unfoldable pub finish_activity : Bool → Controller → Controller
unfolding count_activity
finish_activity success c =
    let done = record c { in_flight = c.in_flight - 1 } in
    if success then count_activity done else done

-- The branch of `activityCh`.
unfoldable pub wake : Controller → Controller
wake c = record c {
  token = false;
  handled = c.activity_seq;
  armed = true;
  running = true;
  generation = if c.running then c.generation else suc c.generation;
}

-- The branch of the timer, up to the end of `stopWorkers`. A busy controller arms it again.
unfoldable pub expire : Controller → Controller
expire c =
    if ltb 0 c.in_flight || not (c.activity_seq == c.handled)
    then record c { expiring = c.handled; armed = true }
    else record c { expiring = c.handled; armed = false; running = false; phase = stopping }

-- The check after the stop: new activity meanwhile skips the handlers.
unfoldable pub settle : Controller → Controller
settle c =
    if not (c.activity_seq == c.expiring)
    then record c { phase = listening }
    else record c { phase = idling }

-- The idle handlers, which end the timer's branch.
unfoldable pub run_handlers : Controller → Controller
run_handlers c = record c { phase = listening; idle_rounds = suc c.idle_rounds }

-- The branch of the context that is done: the workers stop, then the handlers run, whatever is in flight.
unfoldable pub cancel : Controller → Controller
cancel c = record c { running = false; phase = leaving }

unfoldable pub run_last_handlers : Controller → Controller
run_last_handlers c = record c { phase = returned; idle_rounds = suc c.idle_rounds }

-- One step of a request or of `Run`, under the conditions of the code: the lock keeps requests from
-- beginning in the timer's branch, and `Run` selects a notification, a timer that is there, or a context
-- that is done. `RecordActivity` takes no lock, so it can come between any two steps.
pub data Step : Controller → Controller → Type 0 where
  counts : (c : Controller) → Step c (count_activity c)
  sends : (c : Controller) → 0 < c.senders → Step c (send_activity c)
  begins : (c : Controller) → is_locked c.phase ≡ false → Step c (begin_activity c)
  finishes :
      (success : Bool) (c : Controller) → 0 < c.in_flight → Step c (finish_activity success c)
  wakes : (c : Controller) → c.phase ≡ listening → c.token ≡ true → Step c (wake c)
  expires : (c : Controller) → c.phase ≡ listening → c.armed ≡ true → Step c (expire c)
  settles : (c : Controller) → c.phase ≡ stopping → Step c (settle c)
  handles : (c : Controller) → c.phase ≡ idling → Step c (run_handlers c)
  cancels : (c : Controller) → c.phase ≡ listening → Step c (cancel c)
  leaves : (c : Controller) → c.phase ≡ leaving → Step c (run_last_handlers c)

pub data Reachable : Controller → Type 0 where
  starts : Reachable new_controller
  goes : {c c' : Controller} → Reachable c → Step c c' → Reachable c'
