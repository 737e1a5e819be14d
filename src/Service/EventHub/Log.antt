-- ===== src/Service/EventHub/Log.antt =====
-- What the hub of internal/service/event_hub.go promises: each subscriber's channel is a history of
-- events, without bounds, of which the hub may leave out some and counts them.
use classroom.Base.{
  ℕ, suc, ◌+◌, ◌≤◌, ◌≡◌, refl, sym, ◌∙◌, ap, subst, Bool, true, false, List, [], ◌∷◌, ◌++◌, ◌==◌,
  if◌then◌else◌, length, length-append, arith, ltb→lt, Bool-cases, inl, inr,
}
use mathlib.Core.List.{append_assoc}
use classroom.Service.EventHub.{
  Subscriber, Hub, record_drop, publish, has_room, offer, misses, fan_out, pump, subscribe,
  close_one, close_all, unsubscribe, close, take_first, read_one,
}

-- What happens to a hub, at its times.
pub data Action (E : Type 0) : Type 0 where
  publishes : E → ℕ → Action E
  pumps : ℕ → Action E
  subscribes closes : Action E
  unsubscribes reads : ℕ → Action E

-- A history, and whether it still grows.
pub record Reader (E : Type 0) : Type 0 where
  pub id : ℕ
  pub attached : Bool
  pub history : List E

pub record Log (E : Type 0) : Type 0 where
  pub waiting : List E
  pub readers : List (Reader E)
  pub last_id : ℕ
  pub closed : Bool
  pub refused : ℕ

-- `Thinned n xs ys`: `xs` is `ys` with `n` entries left out.
pub data Thinned {E : Type 0} : ℕ → List E → List E → Type 0 where
  empty : Thinned 0 [] []
  heard :
      {n : ℕ} {xs ys : List E} (e : E) → Thinned n xs ys → Thinned n (xs ++ e ∷ []) (ys ++ e ∷ [])
  missed : {n : ℕ} {xs ys : List E} (e : E) → Thinned n xs ys → Thinned (suc n) xs (ys ++ e ∷ [])

module _ {E : Type 0} where
  abbrev pub act : Action E → Hub E → Hub E
  act (publishes e now) h = (publish e now h).1
  act (pumps now) h = pump now h
  act subscribes h = subscribe h
  act closes h = close h
  act (unsubscribes id) h = unsubscribe id h
  act (reads id) h = record h { subscribers = read_one id h.subscribers }

  abbrev pub empty_log : Log E
  empty_log = record { waiting = []; readers = []; last_id = 0; closed = false; refused = 0 }

  abbrev pub grow : E → Reader E → Reader E
  grow e r = if r.attached then record r { history = r.history ++ e ∷ [] } else r

  unfoldable pub grow_all : E → List (Reader E) → List (Reader E)
  grow_all e [] = []
  grow_all e (r ∷ rs) = grow e r ∷ grow_all e rs

  unfoldable pub end_one : ℕ → List (Reader E) → List (Reader E)
  end_one id [] = []
  end_one id (r ∷ rs) = (if r.id == id then record r { attached = false } else r) ∷ end_one id rs

  unfoldable pub end_all : List (Reader E) → List (Reader E)
  end_all [] = []
  end_all (r ∷ rs) = record r { attached = false } ∷ end_all rs

  abbrev pub note_waiting : List E → Log E → Log E
  note_waiting [] l = l
  note_waiting (e ∷ es) l =
      if l.closed then l else record l { waiting = es; readers = grow_all e l.readers }

  -- The same action on the log; `took` is whether the ingress took a published event.
  abbrev pub note : Action E → Bool → Log E → Log E
  note (publishes e now) took l =
      if l.closed
      then l
      else if took
      then record l { waiting = l.waiting ++ e ∷ [] }
      else record l { refused = suc l.refused }
  note (pumps now) took l = note_waiting l.waiting l
  note subscribes took l = if l.closed then l else record l {
    last_id = suc l.last_id;
    readers = l.readers ++ record { id = suc l.last_id; attached = true; history = [] } ∷ [];
  }
  note closes took l =
      if l.closed then l else record l { closed = true; readers = end_all l.readers }
  note (unsubscribes id) took l =
      if l.closed then l else record l { readers = end_one id l.readers }
  note (reads id) took l = l

  abbrev pub took : Action E → Hub E → Bool
  took (publishes e now) h = (publish e now h).0
  took _ h = true

  -- A hub and its log after a sequence of actions.
  unfoldable pub play : List (Action E) → Hub E × Log E → Hub E × Log E
  play [] p = p
  play (a ∷ more) p = play more (act a p.0, note a (took a p.0) p.1)

  -- What a client has read and can still read.
  abbrev pub seen : Subscriber E → List E
  seen s = s.taken ++ s.queue

  -- A subscriber follows a history: it has `n` events less, and its queue is within the depth.
  abbrev pub Follows : ℕ → ℕ → Subscriber E → Reader E → Type 0
  Follows depth n s r =
      (s.id ≡ r.id)
      × (s.attached ≡ r.attached)
      × Thinned n (seen s) r.history
      × (length s.queue ≤ depth)

  -- All do, and `total` events are left out.
  abbrev pub AllFollow : ℕ → ℕ → List (Subscriber E) → List (Reader E) → Type 0
  AllFollow depth total [] [] = total ≡ 0
  AllFollow depth total (s ∷ ss) (r ∷ rs) =
      (n : ℕ) × (rest : ℕ) × (total ≡ n + rest) × Follows depth n s r × AllFollow depth rest ss rs
  AllFollow depth total _ _ = ⊥

-- The hub refines its log.
pub record Refines {E : Type 0} (h : Hub E) (l : Log E) : Type 0 where
  pub same_waiting : h.waiting ≡ l.waiting
  pub same_id : h.last_id ≡ l.last_id
  pub same_closed : h.closed ≡ l.closed
  pub bounded : length h.waiting ≤ h.publish_depth
  pub left_out : ℕ
  pub counted : h.dropped ≡ l.refused + left_out
  pub followed : AllFollow h.subscriber_depth left_out h.subscribers l.readers

module _ {E : Type 0} where
  seen-offer :
      (xs q : List E) (e : E) (ys : List E) (n : ℕ)
      → Thinned n (xs ++ q) ys
      → Thinned n (xs ++ (q ++ e ∷ [])) (ys ++ e ∷ [])
  seen-offer xs q e ys n t =
      subst (λ l. Thinned n l (ys ++ e ∷ [])) (append_assoc xs q (e ∷ [])) (heard e t)

  offer-Follows :
      (depth n : ℕ) (e : E) (s : Subscriber E) (r : Reader E)
      → Follows depth n s r
      → Follows depth (if misses depth s then suc n else n) (offer depth e s) (grow e r)
  offer-Follows depth n e s r (id, same, thin, bound) = elim (Bool-cases s.attached) [
    | inr b ↦ rw (b, sym same ∙ b) (id, refl, thin, bound)
    | inl b ↦ elim (Bool-cases (has_room depth s)) [
      | inl room ↦
          rw (b, sym same ∙ b, room)
            (
              id,
              refl,
              seen-offer s.taken s.queue e r.history n thin,
              omega (arith, length-append s.queue (e ∷ []), ltb→lt (length s.queue) depth room),
            )
      | inr full ↦ rw (b, sym same ∙ b, full) (id, refl, missed e thin, bound)
    ]
  ]

  take_queue :
      (depth n id : ℕ) (attached : Bool) (q taken : List E) (r : Reader E)
      → Follows depth n (record { id = id; attached = attached; queue = q; taken = taken }) r
      → Follows depth n
          (take_first (record { id = id; attached = attached; queue = q; taken = taken }))
          r
  take_queue depth n id attached [] taken r f = f
  take_queue depth n id attached (e ∷ q) taken r (same_id, same, thin, bound) = (
    same_id,
    same,
    subst (λ l. Thinned n l r.history) (sym (append_assoc taken (e ∷ []) q)) thin,
    omega (arith, bound),
  )

  take_first-Follows :
      (depth n : ℕ) (s : Subscriber E) (r : Reader E)
      → Follows depth n s r
      → Follows depth n (take_first s) r
  take_first-Follows depth n s r f = take_queue depth n s.id s.attached s.queue s.taken r f

  -- The owner's loop leaves out as many events as it counts.
  pub fan_out-AllFollow :
      (e : E) (now total : ℕ) (ss : List (Subscriber E)) (rs : List (Reader E)) (h : Hub E)
      → AllFollow h.subscriber_depth total ss rs
      → (left : ℕ) × ((fan_out e now ss h).1.dropped + total ≡ h.dropped + left)
        × AllFollow h.subscriber_depth left (fan_out e now ss h).0 (grow_all e rs)
  unfolding fan_out grow_all record_drop
  fan_out-AllFollow e now total [] [] h f = (0, omega (arith, f), refl)
  fan_out-AllFollow e now total [] (r ∷ rs) h f = elim f [ ]
  fan_out-AllFollow e now total (s ∷ ss) [] h f = elim f [ ]
  fan_out-AllFollow e now total (s ∷ ss) (r ∷ rs) h (n, rest, sum, f, fs) =
      elim (Bool-cases (misses h.subscriber_depth s)) [
        | inl b ↦
            let (left, count, follow) = fan_out-AllFollow e now rest ss rs (record_drop now h) fs in
            rw b
              (suc n + left, omega (arith, sum, count), (suc n, left, refl, counted_as b, follow))
        | inr b ↦
            let (left, count, follow) = fan_out-AllFollow e now rest ss rs h fs in
            rw b (n + left, omega (arith, sum, count), (n, left, refl, counted_as b, follow))
      ]
    where
      counted_as :
          {b : Bool}
          → misses h.subscriber_depth s ≡ b
          → Follows h.subscriber_depth
              (if b then suc n else n)
              (offer h.subscriber_depth e s)
              (grow e r)
      counted_as b =
          subst
            (λ x.
              Follows h.subscriber_depth (if x then suc n else n) (offer h.subscriber_depth e s)
                (grow e r))
            b (offer-Follows h.subscriber_depth n e s r f)

  pub fan_out-same :
      (e : E) (now : ℕ) (ss : List (Subscriber E)) (h : Hub E)
      → ((fan_out e now ss h).1.subscriber_depth ≡ h.subscriber_depth)
        × ((fan_out e now ss h).1.publish_depth ≡ h.publish_depth)
        × ((fan_out e now ss h).1.last_id ≡ h.last_id)
        × ((fan_out e now ss h).1.closed ≡ h.closed)
  unfolding fan_out record_drop
  fan_out-same e now [] h = (refl, refl, refl, refl)
  fan_out-same e now (s ∷ ss) h = elim (Bool-cases (misses h.subscriber_depth s)) [
    | inl b ↦ rw b (fan_out-same e now ss (record_drop now h))
    | inr b ↦ rw b (fan_out-same e now ss h)
  ]

  pub close_one-AllFollow :
      (id depth total : ℕ) (ss : List (Subscriber E)) (rs : List (Reader E))
      → AllFollow depth total ss rs
      → AllFollow depth total (close_one id ss) (end_one id rs)
  unfolding close_one end_one
  close_one-AllFollow id depth total [] [] f = f
  close_one-AllFollow id depth total [] (r ∷ rs) f = f
  close_one-AllFollow id depth total (s ∷ ss) [] f = f
  close_one-AllFollow id depth total (s ∷ ss) (r ∷ rs) (n, rest, sum, f, fs) =
      let follow = close_one-AllFollow id depth rest ss rs fs in
      elim (Bool-cases (s.id == id)) [
        | inl b ↦
            rw (b, ap (λ x. x == id) (sym f.0) ∙ b) (n, rest, sum, (f.0, refl, f.2, f.3), follow)
        | inr b ↦ rw (b, ap (λ x. x == id) (sym f.0) ∙ b) (n, rest, sum, f, follow)
      ]

  pub close_all-AllFollow :
      (depth total : ℕ) (ss : List (Subscriber E)) (rs : List (Reader E))
      → AllFollow depth total ss rs
      → AllFollow depth total (close_all ss) (end_all rs)
  unfolding close_all end_all
  close_all-AllFollow depth total [] [] f = f
  close_all-AllFollow depth total [] (r ∷ rs) f = f
  close_all-AllFollow depth total (s ∷ ss) [] f = f
  close_all-AllFollow depth total (s ∷ ss) (r ∷ rs) (n, rest, sum, f, fs) =
      (n, rest, sum, (f.0, refl, f.2, f.3), close_all-AllFollow depth rest ss rs fs)

  pub read_one-AllFollow :
      (id depth total : ℕ) (ss : List (Subscriber E)) (rs : List (Reader E))
      → AllFollow depth total ss rs
      → AllFollow depth total (read_one id ss) rs
  unfolding read_one
  read_one-AllFollow id depth total [] [] f = f
  read_one-AllFollow id depth total [] (r ∷ rs) f = f
  read_one-AllFollow id depth total (s ∷ ss) [] f = f
  read_one-AllFollow id depth total (s ∷ ss) (r ∷ rs) (n, rest, sum, f, fs) =
      let follow = read_one-AllFollow id depth rest ss rs fs in
      elim (Bool-cases (s.id == id)) [
        | inl b ↦ rw b (n, rest, sum, take_first-Follows depth n s r f, follow)
        | inr b ↦ rw b (n, rest, sum, f, follow)
      ]

  pub joined-AllFollow :
      (id depth total : ℕ) (ss : List (Subscriber E)) (rs : List (Reader E))
      → AllFollow depth total ss rs
      → AllFollow depth total
          (ss ++ record { id = id; attached = true; queue = []; taken = [] } ∷ [])
          (rs ++ record { id = id; attached = true; history = [] } ∷ [])
  joined-AllFollow id depth total [] [] f =
      (0, 0, omega (arith, f), (refl, refl, empty, omega arith), refl)
  joined-AllFollow id depth total [] (r ∷ rs) f = elim f [ ]
  joined-AllFollow id depth total (s ∷ ss) [] f = elim f [ ]
  joined-AllFollow id depth total (s ∷ ss) (r ∷ rs) (n, rest, sum, f, fs) =
      (n, rest, sum, f, joined-AllFollow id depth rest ss rs fs)
