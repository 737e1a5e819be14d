-- ===== src/Service/EventHub/Delivery.antt =====
-- internal/service/event_hub.go keeps its promise over every sequence of actions.
use classroom.Base.{
  ℕ, suc, ◌≡◌, refl, sym, ◌∙◌, ap, subst, Bool, true, false, List, [], ◌∷◌, ◌++◌, ltb,
  if◌then◌else◌, length, length-append, arith, ltb→lt,
}
use classroom.Service.EventHub.{
  Subscriber, Hub, new_hub, record_drop, publish, fan_out, pump, pump_waiting, subscribe,
  unsubscribe, close,
}
use classroom.Service.EventHub.Log.{
  Action, publishes, pumps, subscribes, closes, unsubscribes, reads, act, took, note, note_waiting,
  play, Reader, Log, empty_log, AllFollow, Refines, grow_all, fan_out-AllFollow, fan_out-same,
  close_one-AllFollow, close_all-AllFollow, read_one-AllFollow, joined-AllFollow,
}

module _ {E : Type 0} where
  -- Both sides do nothing once closed.
  unless_closed :
      {h h' : Hub E} {l l' : Log E} (b c : Bool)
      → b ≡ c
      → Refines h l
      → Refines h' l'
      → Refines (if b then h else h') (if c then l else l')
  unless_closed true true e r r' = r
  unless_closed false false e r r' = r'
  unless_closed true false e r r' = cc
  unless_closed false true e r r' = cc

  if_taken :
      {h h' h'' : Hub E} {l l' l'' : Log E} (b c room : Bool)
      → b ≡ c
      → Refines h l
      → (room ≡ true → Refines h' l')
      → (room ≡ false → Refines h'' l'')
      → let p : Bool × Hub E =
          if b then (false, h) else if room then (true, h') else (false, h'') in
        Refines p.1 (if c then l else if p.0 then l' else l'')
  if_taken true true room e r f g = r
  if_taken false false true e r f g = f refl
  if_taken false false false e r f g = g refl
  if_taken true false room e r f g = cc
  if_taken false true room e r f g = cc

  publish-Refines :
      (e : E) (now : ℕ) (h : Hub E) (l : Log E)
      → Refines h l
      → Refines (publish e now h).1 (note (publishes e now) (publish e now h).0 l)
  unfolding publish record_drop
  publish-Refines e now h l r =
      if_taken h.closed l.closed (ltb (length h.waiting) h.publish_depth) r.same_closed r
        (λ room. record {
          same_waiting = ap (λ x. x ++ e ∷ []) r.same_waiting;
          same_id = r.same_id;
          same_closed = r.same_closed;
          bounded = omega (
            arith,
            length-append h.waiting (e ∷ []),
            ltb→lt (length h.waiting) h.publish_depth room,
          );
          left_out = r.left_out;
          counted = r.counted;
          followed = r.followed;
        })
        (λ full. record {
          same_waiting = r.same_waiting;
          same_id = r.same_id;
          same_closed = r.same_closed;
          bounded = r.bounded;
          left_out = r.left_out;
          counted = let total = r.counted in omega (arith, total);
          followed = r.followed;
        })

  -- The subscribers and the flag change together on both sides.
  channels-Refines :
      (ss : List (Subscriber E)) (rs : List (Reader E)) (b c : Bool) (h : Hub E) (l : Log E)
      (r : Refines h l)
      → b ≡ c
      → AllFollow h.subscriber_depth r.left_out ss rs
      → Refines (record h { closed = b; subscribers = ss }) (record l { closed = c; readers = rs })
  channels-Refines ss rs b c h l r same f = record {
    same_waiting = r.same_waiting;
    same_id = r.same_id;
    same_closed = same;
    bounded = r.bounded;
    left_out = r.left_out;
    counted = r.counted;
    followed = f;
  }

  waiting-Refines :
      (now : ℕ) (ws : List E) (h : Hub E) (l : Log E)
      → h.waiting ≡ ws
      → Refines h l
      → Refines (pump_waiting now ws h) (note_waiting ws l)
  waiting-Refines now [] h l e r = r
  waiting-Refines now (x ∷ ws) h l e r =
      let (left, count, follow) =
        fan_out-AllFollow x now r.left_out h.subscribers l.readers h r.followed in
      let (depth, room, id, closed) = fan_out-same x now h.subscribers h in
      let fits = r.bounded in
      let longer : length h.waiting ≡ suc (length ws) = ap length e in
      let total = r.counted in
      unless_closed h.closed l.closed r.same_closed r (record {
        same_waiting = refl;
        same_id = id ∙ r.same_id;
        same_closed = closed ∙ r.same_closed;
        bounded = omega (arith, fits, longer, room);
        left_out = left;
        counted = omega (arith, count, total);
        followed =
            subst (λ d. AllFollow d left (fan_out x now h.subscribers h).0 (grow_all x l.readers))
              (sym depth) follow;
      })

  pump-Refines :
      (now : ℕ) (h : Hub E) (l : Log E)
      → Refines h l
      → Refines (pump now h) (note (pumps now) true l)
  unfolding pump
  pump-Refines now h l r =
      subst (λ ws. Refines (pump_waiting now h.waiting h) (note_waiting ws l)) r.same_waiting
        (waiting-Refines now h.waiting h l refl r)

  act-Refines :
      (a : Action E) (h : Hub E) (l : Log E) → Refines h l → Refines (act a h) (note a (took a h) l)
  unfolding subscribe unsubscribe close
  act-Refines (publishes e now) h l r = publish-Refines e now h l r
  act-Refines (pumps now) h l r = pump-Refines now h l r
  act-Refines subscribes h l r = unless_closed h.closed l.closed r.same_closed r (record {
    same_waiting = r.same_waiting;
    same_id = ap suc r.same_id;
    same_closed = r.same_closed;
    bounded = r.bounded;
    left_out = r.left_out;
    counted = r.counted;
    followed =
        subst
          (λ id.
            AllFollow h.subscriber_depth r.left_out
              (h.subscribers
                ++ record { id = suc h.last_id; attached = true; queue = []; taken = [] } ∷ [])
              (l.readers ++ record { id = suc id; attached = true; history = [] } ∷ []))
          r.same_id
          (joined-AllFollow (suc h.last_id) h.subscriber_depth r.left_out h.subscribers l.readers
            r.followed);
  })
  act-Refines closes h l r = unless_closed h.closed l.closed r.same_closed r (
      channels-Refines _ _ true true h l r refl
        (close_all-AllFollow h.subscriber_depth r.left_out h.subscribers l.readers r.followed))
  act-Refines (unsubscribes id) h l r = unless_closed h.closed l.closed r.same_closed r (
      channels-Refines _ _ h.closed l.closed h l r r.same_closed
        (close_one-AllFollow id h.subscriber_depth r.left_out h.subscribers l.readers r.followed))
  act-Refines (reads id) h l r =
      channels-Refines _ _ h.closed l.closed h l r r.same_closed
        (read_one-AllFollow id h.subscriber_depth r.left_out h.subscribers l.readers r.followed)

  new_hub-Refines :
      (publish_depth subscriber_depth : ℕ)
      → Refines (new_hub {E = E} publish_depth subscriber_depth) empty_log
  unfolding new_hub
  new_hub-Refines publish_depth subscriber_depth = record {
    same_waiting = refl;
    same_id = refl;
    same_closed = refl;
    bounded = omega arith;
    left_out = 0;
    counted = refl;
    followed = refl;
  }

  play_from :
      (steps : List (Action E)) (h : Hub E) (l : Log E)
      → Refines h l
      → Refines (play steps (h, l)).0 (play steps (h, l)).1
  unfolding play
  play_from [] h l r = r
  play_from (a ∷ steps) h l r =
      play_from steps (act a h) (note a (took a h) l) (act-Refines a h l r)

  -- After every sequence of publications, deliveries, subscriptions, reads and closings, a hub refines
  -- its log: what the client of each subscriber has read and can still read is the history of the events
  -- that the hub took while the subscriber was attached, in their order and with the missing ones left out; the
  -- count of dropped events is exactly that of the refused ones and of those left out of the histories;
  -- and no queue is longer than its depth.
  pub play-Refines :
      (steps : List (Action E)) (publish_depth subscriber_depth : ℕ)
      → Refines
          (play steps (new_hub publish_depth subscriber_depth, empty_log)).0
          (play steps (new_hub publish_depth subscriber_depth, empty_log)).1
  play-Refines steps publish_depth subscriber_depth =
      play_from steps (new_hub publish_depth subscriber_depth) empty_log
        (new_hub-Refines publish_depth subscriber_depth)
