-- ===== src/Rooms/Revisions.antt =====
-- The revisions of the ROOM_CHANGED events that internal/service/room_manager.go sends.
use classroom.Base.{
  ℕ, zero, suc, ◌≡◌, refl, sym, ◌∙◌, ap, subst, Option, none, some, String, not, ◌&&◌, List, [],
  ◌∷◌, ◌++◌, str_eq, eq_iff, arith, if◌then◌else◌, inl, inr, Bool-cases,
}
use mathlib.Core.List.{append-nil, Permᴰ}
use mathlib.Core.List.Permᴰ
use classroom.Domain.Room.{Room}
use classroom.Rooms.State.{
  Event, room_created, room_updated, room_changed, room_deleted, Shared, emit_room_events,
  send_pair, is_time_critical, too_soon,
}

-- The revisions that a client sees for one room, in the order of the events.
unfoldable pub revisions : String → List Event → List ℕ
revisions id [] = []
revisions id (room_changed c ∷ es) =
    let rest = revisions id es in if str_eq id c.room_id then c.revision ∷ rest else rest
revisions id (_ ∷ es) = revisions id es

-- 1, 2, …, n.
unfoldable pub count_up : ℕ → List ℕ
count_up zero = []
count_up (suc n) = count_up n ++ suc n ∷ []

-- For every room the events sent so far carry the revisions 1, 2, … with no gap and no repetition,
-- up to the number that the manager keeps.
abbrev pub IsNumbered : Shared → Type 0
IsNumbered sh = (id : String) → revisions id sh.events ≡ count_up (sh.emit_seqs id)

pub revisions-append :
    (id : String) (es fs : List Event)
    → revisions id (es ++ fs) ≡ revisions id es ++ revisions id fs
unfolding revisions
revisions-append id [] fs = refl
revisions-append id (room_created r ∷ es) fs = revisions-append id es fs
revisions-append id (room_updated r ∷ es) fs = revisions-append id es fs
revisions-append id (room_deleted r ∷ es) fs = revisions-append id es fs
revisions-append id (room_changed c ∷ es) fs = ground (arith, revisions-append id es fs)

-- The revision of one event, where it is one of the room.
abbrev revision_of : String → Event → Option ℕ
revision_of id (room_changed c) = if str_eq id c.room_id then some c.revision else none
revision_of id (room_created r) = none
revision_of id (room_updated r) = none
revision_of id (room_deleted r) = none

abbrev prepend : Option ℕ → List ℕ → List ℕ
prepend none l = l
prepend (some n) l = n ∷ l

revisions-cons :
    (id : String) (e : Event) (es : List Event)
    → revisions id (e ∷ es) ≡ prepend (revision_of id e) (revisions id es)
unfolding revisions
revisions-cons id (room_changed c) es = elim (Bool-cases (str_eq id c.room_id)) [
  | inl e ↦ rw e refl
  | inr e ↦ rw e refl
]
revisions-cons id (room_created r) es = refl
revisions-cons id (room_updated r) es = refl
revisions-cons id (room_deleted r) es = refl

prepend-Permᴰ : (o : Option ℕ) {l m : List ℕ} → Permᴰ l m → Permᴰ (prepend o l) (prepend o m)
prepend-Permᴰ none p = p
prepend-Permᴰ (some n) p = Permᴰ.cons refl p

prepend-swap :
    (o q : Option ℕ) (l : List ℕ) → Permᴰ (prepend o (prepend q l)) (prepend q (prepend o l))
prepend-swap none q l = Permᴰ.refl _
prepend-swap (some n) none l = Permᴰ.refl _
prepend-swap (some n) (some m) l = Permᴰ.swap refl refl

-- A reordering of the events reorders the revisions.
pub revisions-Permᴰ :
    (id : String) {es fs : List Event} → Permᴰ es fs → Permᴰ (revisions id es) (revisions id fs)
unfolding revisions
revisions-Permᴰ id Permᴰ.nil = Permᴰ.nil
revisions-Permᴰ id (Permᴰ.trans p q) = Permᴰ.trans (revisions-Permᴰ id p) (revisions-Permᴰ id q)
revisions-Permᴰ id (Permᴰ.cons {a = a} {b = b} {l₁ = es} {l₂ = fs} e p) =
    subst (λ x. Permᴰ (revisions id (a ∷ es)) (revisions id (x ∷ fs))) e
      (subst (λ l. Permᴰ l (revisions id (a ∷ fs))) (sym (revisions-cons id a es))
        (subst (λ l. Permᴰ (prepend (revision_of id a) (revisions id es)) l)
          (sym (revisions-cons id a fs)) (prepend-Permᴰ (revision_of id a) (revisions-Permᴰ id p))))
revisions-Permᴰ id (Permᴰ.swap {a = a} {b = b} {a' = x} {b' = y} {l = es} e k) =
    subst (λ u. Permᴰ (revisions id (a ∷ b ∷ es)) (revisions id (u ∷ y ∷ es))) k
      (subst (λ v. Permᴰ (revisions id (a ∷ b ∷ es)) (revisions id (b ∷ v ∷ es))) e
        (swapped id a b es))
  where
    two :
        (id : String) (a b : Event) (es : List Event)
        → revisions id (a ∷ b ∷ es)
          ≡ prepend (revision_of id a) (prepend (revision_of id b) (revisions id es))
    two id a b es =
        revisions-cons id a (b ∷ es) ∙ ap (prepend (revision_of id a)) (revisions-cons id b es)

    swapped :
        (id : String) (a b : Event) (es : List Event)
        → Permᴰ (revisions id (a ∷ b ∷ es)) (revisions id (b ∷ a ∷ es))
    swapped id a b es =
        subst (λ l. Permᴰ l (revisions id (b ∷ a ∷ es))) (sym (two id a b es))
          (subst
            (λ l.
              Permᴰ (prepend (revision_of id a) (prepend (revision_of id b) (revisions id es))) l)
            (sym (two id b a es))
            (prepend-swap (revision_of id a) (revision_of id b) (revisions id es)))

send_pair-IsNumbered :
    (sh : Shared) (now : ℕ) (room : Room) → IsNumbered sh → IsNumbered (send_pair sh now room)
unfolding send_pair revisions count_up
send_pair-IsNumbered sh now room h id =
    rw (revisions-append id sh.events _)
      (ground (arith, h id, eq_iff id room.room_id, append-nil (revisions id sh.events)))

pub emit_room_events-IsNumbered :
    (sh : Shared) (now : ℕ) (room : Room)
    → IsNumbered sh
    → IsNumbered (emit_room_events sh now room)
unfolding emit_room_events
emit_room_events-IsNumbered sh now room h id =
    elim (Bool-cases
      (not (is_time_critical room) && too_soon (sh.last_emitted_at room.room_id) now)) [
        | inl closed ↦ rw closed (h id)
        | inr passes ↦ rw passes (send_pair-IsNumbered sh now room h id)
      ]
