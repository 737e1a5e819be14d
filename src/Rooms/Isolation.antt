-- ===== src/Rooms/Isolation.antt =====
-- The contexts of the workers of internal/service/room_manager.go: no two rooms share one, and what
-- is done to one room does not cancel the worker of another.
use classroom.Base.{
  ℕ, ◌+◌, ◌≤◌, ◌<◌, ◌≡◌, refl, sym, ◌∙◌, ap, subst, String, false, Option, none, some, eq_iff,
  arith, ◌⊎◌, inl, inr, ◌≢◌, Option-cases,
}
use classroom.Rooms.State.{Shared, RoomState, Manager, is_done, cancel_context, find_room, put_room}
use classroom.Rooms.Control.{Wiring, start_state, start_room, stop_state, stop_room}
use classroom.Rooms.Commands.{find_room-put_room, emit_keeps, start_state_lem}

-- Every live worker runs under a context that was handed out and is not cancelled, and two rooms
-- never have the same one.
pub record IsSound (m : Manager) : Type 0 where
  pub live :
      (id : String) (st : RoomState) (c : ℕ)
      → find_room id m.rooms ≡ some st
      → st.cancel ≡ some c
      → (c < m.shared.next_context) × (is_done c m.shared.canceled ≡ false)
  pub apart :
      (i j : String) (s t : RoomState) (c : ℕ)
      → find_room i m.rooms ≡ some s
      → find_room j m.rooms ≡ some t
      → s.cancel ≡ some c
      → t.cancel ≡ some c
      → i ≡ j
  pub unused : (c : ℕ) → m.shared.next_context ≤ c → is_done c m.shared.canceled ≡ false

-- What a command that rewrites the room `id` must do to the contexts.
record Rewrites (st st' : RoomState) (sh sh' : Shared) : Type 0 where
  grows : sh.next_context ≤ sh'.next_context
  keeps_others :
      (c : ℕ) → is_done c sh.canceled ≡ false → st.cancel ≢ some c → is_done c sh'.canceled ≡ false
  stays_unused :
      (c : ℕ)
      → sh'.next_context ≤ c
      → is_done c sh.canceled ≡ false
      → is_done c sh'.canceled ≡ false
  new_live :
      (c : ℕ)
      → st'.cancel ≡ some c
      → (c < sh'.next_context)
        × (is_done c sh'.canceled ≡ false)
        × ((st.cancel ≡ some c) ⊎ (sh.next_context ≤ c))

module _ (id : String) (st st' : RoomState) (m : Manager) (sh' : Shared)
    (there : find_room id m.rooms ≡ some st) (r : Rewrites st st' m.shared sh')
    (v : IsSound m) where
  abbrev after : Manager
  after = record { rooms = put_room id st' m.rooms; shared = sh' }

  -- What is found afterwards is the new state at `id`, or what was found there before.
  found_after :
      (j : String) (s : RoomState)
      → find_room j after.rooms ≡ some s
      → ((j ≡ id) × (s ≡ st')) ⊎ ((j ≢ id) × (find_room j m.rooms ≡ some s))
  found_after j s h = ground (arith, find_room-put_room id j st' m.rooms, eq_iff id j)

  live_after :
      (j : String) (s : RoomState) (c : ℕ)
      → ((j ≡ id) × (s ≡ st')) ⊎ ((j ≢ id) × (find_room j m.rooms ≡ some s))
      → s.cancel ≡ some c
      → (c < sh'.next_context) × (is_done c sh'.canceled ≡ false)
  live_after j s c (inl (_, e)) hc =
      let (below, open_, _) = r.new_live c (sym (ap (λ x. x.cancel) e) ∙ hc) in (below, open_)
  live_after j s c (inr (other, h)) hc =
      let (below, open_) = v.live j s c h hc in
      (
        omega (arith, r.grows),
        r.keeps_others c open_ (λ e. other (v.apart j id s st c h there hc e)),
      )

  -- A context of the new state is that of the old one or fresh, so no other room has it.
  not_shared :
      (j : String) (t : RoomState) (c : ℕ)
      → find_room j m.rooms ≡ some t
      → t.cancel ≡ some c
      → st'.cancel ≡ some c
      → j ≡ id
  not_shared j t c h ht hs = elim (r.new_live c hs).2 [
    | inl e ↦ v.apart j id t st c h there ht e
    | inr fresh ↦ absurd (omega (arith, (v.live j t c h ht).0))
  ]

  apart_after :
      (i j : String) (s t : RoomState) (c : ℕ)
      → ((i ≡ id) × (s ≡ st')) ⊎ ((i ≢ id) × (find_room i m.rooms ≡ some s))
      → ((j ≡ id) × (t ≡ st')) ⊎ ((j ≢ id) × (find_room j m.rooms ≡ some t))
      → s.cancel ≡ some c
      → t.cancel ≡ some c
      → i ≡ j
  apart_after i j s t c (inl (a, _)) (inl (b, _)) hs ht = a ∙ sym b
  apart_after i j s t c (inl (a, e)) (inr (n, h)) hs ht =
      absurd (n (not_shared j t c h ht (sym (ap (λ x. x.cancel) e) ∙ hs)))
  apart_after i j s t c (inr (n, h)) (inl (b, e)) hs ht =
      absurd (n (not_shared i s c h hs (sym (ap (λ x. x.cancel) e) ∙ ht)))
  apart_after i j s t c (inr (_, h)) (inr (_, k)) hs ht = v.apart i j s t c h k hs ht

  rewrite-IsSound : IsSound after
  rewrite-IsSound = record {
    live = λ j s c h hc. live_after j s c (found_after j s h) hc;
    apart =
        λ i j s t c h k hs ht. apart_after i j s t c (found_after i s h) (found_after j t k) hs ht;
    unused = λ c h. r.stays_unused c h (v.unused c (omega (arith, r.grows)));
  }

-- A second `StartRoom` finds the worker and does nothing.
pub start_state_live :
    (w : Wiring) (now : ℕ) (st : RoomState) (sh : Shared) (c : ℕ)
    → st.cancel ≡ some c
    → start_state w now st sh ≡ (st, sh)
unfolding start_state
start_state_live w now st sh c e = ground arith

start-Rewrites :
    (w : Wiring) (now : ℕ) (st : RoomState) (sh : Shared)
    → ((c : ℕ) → st.cancel ≡ some c → (c < sh.next_context) × (is_done c sh.canceled ≡ false))
    → ((c : ℕ) → sh.next_context ≤ c → is_done c sh.canceled ≡ false)
    → Rewrites st (start_state w now st sh).0 sh (start_state w now st sh).1
unfolding start_state
start-Rewrites w now st sh live unused = elim (Option-cases st.cancel) [
  | inr (c, e) ↦
      subst (λ p. Rewrites st p.0 sh p.1) (sym (start_state_live w now st sh c e))
        (record {
          grows = omega arith;
          keeps_others = λ c h n. h;
          stays_unused = λ c h k. k;
          new_live = λ c h. ((live c h).0, (live c h).1, inl h);
        })
  | inl e ↦ fresh_context e
]
  where
    facts :
        st.cancel ≡ none
        → let (st', sh') = start_state w now st sh in
          (st'.cancel ≡ some sh.next_context)
          × (sh'.next_context ≡ sh.next_context + 1)
          × (sh'.canceled ≡ sh.canceled)
    facts e = let f = start_state_lem w now st sh e in (f.0, f.1, f.3)

    fresh_context :
        st.cancel ≡ none → Rewrites st (start_state w now st sh).0 sh (start_state w now st sh).1
    fresh_context e =
        let (own, next, same) = facts e in
        record {
          grows = omega arith;
          keeps_others = λ c h n. rw same h;
          stays_unused = λ c h k. rw same k;
          new_live = λ c h.
              let at : c ≡ sh.next_context = cc in
              (
                omega arith,
                rw (same, at) (unused sh.next_context (omega arith)),
                inr (omega arith),
              );
        }

cancel_keeps_others :
    (o : Option ℕ) (sh : Shared) (c : ℕ)
    → is_done c sh.canceled ≡ false
    → o ≢ some c
    → is_done c (cancel_context o sh).canceled ≡ false
unfolding is_done
cancel_keeps_others none sh c h n = h
cancel_keeps_others (some x) sh c h n = ground (arith, λ (e : x ≡ c). n (ap some e))

cancel_next : (o : Option ℕ) (sh : Shared) → (cancel_context o sh).next_context ≡ sh.next_context
cancel_next none sh = refl
cancel_next (some x) sh = refl

-- The contexts after a stop are those after the cancellation alone.
stop_contexts :
    (now : ℕ) (st : RoomState) (sh : Shared)
    → ((stop_state now st sh).1.canceled ≡ (cancel_context st.cancel sh).canceled)
      × ((stop_state now st sh).1.next_context ≡ sh.next_context)
      × ((stop_state now st sh).0.cancel ≡ none)
unfolding stop_state
stop_contexts now st sh =
    let keeps = emit_keeps _ now (stop_state now st sh).0.room in
    (keeps.0, keeps.1 ∙ cancel_next st.cancel sh, refl)

stop-Rewrites :
    (now : ℕ) (st : RoomState) (sh : Shared)
    → ((c : ℕ) → st.cancel ≡ some c → (c < sh.next_context) × (is_done c sh.canceled ≡ false))
    → Rewrites st (stop_state now st sh).0 sh (stop_state now st sh).1
stop-Rewrites now st sh live =
    let (done_, next, off) = stop_contexts now st sh in
    record {
      grows = omega arith;
      keeps_others = λ c h n. rw done_ (cancel_keeps_others st.cancel sh c h n);
      stays_unused = λ c h k.
          rw done_ (cancel_keeps_others st.cancel sh c k (λ e. absurd (omega (arith, live c e))));
      new_live = λ c h. absurd (unused_cancel c off h);
    }
  where
    unused_cancel : (c : ℕ) {o : Option ℕ} → o ≡ none → o ≡ some c → ⊥
    unused_cancel c e h = cc

-- The other rooms are as they were.
abbrev pub KeepsOthers : String → Manager → Manager → Type 0
KeepsOthers id m m' = (j : String) → j ≢ id → find_room j m'.rooms ≡ find_room j m.rooms

put_room-KeepsOthers :
    (id : String) (st : RoomState) (m : Manager) (sh : Shared)
    → KeepsOthers id m (record { rooms = put_room id st m.rooms; shared = sh })
put_room-KeepsOthers id st m sh j n =
    ground (arith, find_room-put_room id j st m.rooms, eq_iff id j, n)

-- `StartRoom` and `StopRoom` leave every other room as it was, and keep every live worker, of any room, on
-- a context of its own that is not cancelled: so a stop neither cancels nor forgets another room's worker.
pub commands-IsSound :
    (w : Wiring) (now : ℕ) (id : String) (m : Manager)
    → IsSound m
    → (IsSound (start_room w now id m).0 × KeepsOthers id m (start_room w now id m).0)
      × (IsSound (stop_room now id m).0 × KeepsOthers id m (stop_room now id m).0)
unfolding start_room stop_room
commands-IsSound w now id m v = elim (Option-cases (find_room id m.rooms)) [
  | inl e ↦ (rw (e, start_room) (v, λ j n. refl), rw (e, stop_room) (v, λ j n. refl))
  | inr (st, e) ↦ (
    rw (e, start_room)
        (
          rewrite-IsSound id st _ m _ e
              (start-Rewrites w now st m.shared (λ c. v.live id st c e) v.unused) v,
          put_room-KeepsOthers id (start_state w now st m.shared).0 m
              (start_state w now st m.shared).1,
        ),
    rw (e, stop_room)
        (
          rewrite-IsSound id st _ m _ e (stop-Rewrites now st m.shared (λ c. v.live id st c e)) v,
          put_room-KeepsOthers id (stop_state now st m.shared).0 m (stop_state now st m.shared).1,
        ),
  )
]
