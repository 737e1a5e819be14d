-- ===== src/Service/EventHub.antt =====
-- internal/service/event_hub.go: a bounded fan-out that never blocks. One goroutine owns the subscribers,
-- so its selections, the calls and the reads of the clients are steps of one sequence.
pub mod Delivery
pub mod Log
use classroom.Base.{
  ℕ, suc, ◌+◌, ◌-◌, Bool, true, false, ◌||◌, ◌&&◌, not, List, [], ◌∷◌, ◌++◌, ltb, ◌==◌,
  if◌then◌else◌, length,
}
use classroom.Scraper.Policy.{minute}

-- A subscriber's channel: whether the hub still sends to it, what it holds, and what its client has
-- read. A closed channel can still be read.
pub record Subscriber (E : Type 0) : Type 0 where
  pub id : ℕ
  pub attached : Bool
  pub queue : List E
  pub taken : List E

-- The hub. Events wait in `waiting`; `warned_at` is the time of the last warning, 0 for none.
pub record Hub (E : Type 0) : Type 0 where
  pub publish_depth : ℕ
  pub subscriber_depth : ℕ
  pub waiting : List E
  pub subscribers : List (Subscriber E)
  pub last_id : ℕ
  pub closed : Bool
  pub dropped : ℕ
  pub warned_at : ℕ

abbrev or_default : ℕ → ℕ → ℕ
or_default n default = if n == 0 then default else n

module _ {E : Type 0} where
  -- `NewEventHub`.
  unfoldable pub new_hub : ℕ → ℕ → Hub E
  new_hub publish_depth subscriber_depth = record {
    publish_depth = or_default publish_depth 100;
    subscriber_depth = or_default subscriber_depth 256;
    waiting = [];
    subscribers = [];
    last_id = 0;
    closed = false;
    dropped = 0;
    warned_at = 0;
  }

  -- `recordDrop`, at the time `now`: the count, and at most one warning a minute.
  unfoldable pub record_drop : ℕ → Hub E → Hub E
  record_drop now h = record h {
    dropped = suc h.dropped;
    warned_at =
        if not (h.warned_at == 0) && ltb (now - h.warned_at) minute then h.warned_at else now;
  }

  -- `Publish`, and its result.
  unfoldable pub publish : E → ℕ → Hub E → Bool × Hub E
  unfolding record_drop
  publish e now h =
      if h.closed
      then (false, h)
      else if ltb (length h.waiting) h.publish_depth
      then (true, record h { waiting = h.waiting ++ e ∷ [] })
      else (false, record_drop now h)

  abbrev pub has_room : ℕ → Subscriber E → Bool
  has_room depth s = ltb (length s.queue) depth

  -- The send to one subscriber, where there is room.
  abbrev pub offer : ℕ → E → Subscriber E → Subscriber E
  offer depth e s =
      if s.attached && has_room depth s then record s { queue = s.queue ++ e ∷ [] } else s

  abbrev pub misses : ℕ → Subscriber E → Bool
  misses depth s = s.attached && not (has_room depth s)

  -- The loop over the subscribers for one event.
  unfoldable pub fan_out : E → ℕ → List (Subscriber E) → Hub E → List (Subscriber E) × Hub E
  unfolding record_drop
  fan_out e now [] h = ([], h)
  fan_out e now (s ∷ ss) h =
      let rest = fan_out e now ss (if misses h.subscriber_depth s then record_drop now h else h) in
      (offer h.subscriber_depth e s ∷ rest.0, rest.1)

  abbrev pub pump_waiting : ℕ → List E → Hub E → Hub E
  pump_waiting now [] h = h
  pump_waiting now (e ∷ es) h =
      if h.closed
      then h
      else let sent = fan_out e now h.subscribers h in
        record (sent.1) { waiting = es; subscribers = sent.0 }

  -- The owner takes the first waiting event.
  unfoldable pub pump : ℕ → Hub E → Hub E
  pump now h = pump_waiting now h.waiting h

  -- `Subscribe`. A closed hub gives a closed channel, which is not the hub's.
  unfoldable pub subscribe : Hub E → Hub E
  subscribe h = if h.closed then h else record h {
    last_id = suc h.last_id;
    subscribers =
        h.subscribers
        ++ record { id = suc h.last_id; attached = true; queue = []; taken = [] } ∷ [];
  }

  unfoldable pub close_one : ℕ → List (Subscriber E) → List (Subscriber E)
  close_one id [] = []
  close_one id (s ∷ ss) =
      (if s.id == id then record s { attached = false } else s) ∷ close_one id ss

  unfoldable pub close_all : List (Subscriber E) → List (Subscriber E)
  close_all [] = []
  close_all (s ∷ ss) = record s { attached = false } ∷ close_all ss

  -- The function that `Subscribe` returns.
  unfoldable pub unsubscribe : ℕ → Hub E → Hub E
  unfolding close_one
  unsubscribe id h = if h.closed then h else record h { subscribers = close_one id h.subscribers }

  -- `Close`, and the end of the owner. What the owner still takes meanwhile is a step before this one.
  unfoldable pub close : Hub E → Hub E
  unfolding close_all
  close h =
      if h.closed then h else record h { closed = true; subscribers = close_all h.subscribers }

  -- A client reads the first event of its channel.
  abbrev pub take_first : Subscriber E → Subscriber E
  take_first s = elim (s.queue) [
    | [] ↦ s
    | e ∷ es ↦ record s { queue = es; taken = s.taken ++ e ∷ [] }
  ]

  unfoldable pub read_one : ℕ → List (Subscriber E) → List (Subscriber E)
  read_one id [] = []
  read_one id (s ∷ ss) = (if s.id == id then take_first s else s) ∷ read_one id ss
