-- ===== src/Service/SessionSync/Deltas.antt =====
-- The deltas of internal/service/session_sync.go bring a client from one state to the next.
use classroom.Base.{
  ◌≡◌, refl, sym, ◌∙◌, ap, subst, inl, inr, Bool, true, false, String, Option, none, some, List, [],
  ◌∷◌, ◌++◌, if◌then◌else◌, str_eq, eq_iff, put, get, get-put, leb, arith, Bool-cases, length,
}
use classroom.Domain.Classroom.{StudentCheckin}
use classroom.Service.SessionSync.{
  CheckinUpdate, SyncEvent, checkin_updated, checkins_updated, SyncState, checkin_map, is_news,
  deltas, single_events, events_of, publish_checkin_deltas, updates_since,
}

-- A client keeps the last state of each student.
abbrev pub follow : List CheckinUpdate → List (String × Bool) → List (String × Bool)
follow [] m = m
follow (u ∷ us) m = follow us (put u.student_id u.checked_in m)

abbrev pub follow_event : SyncEvent → List (String × Bool) → List (String × Bool)
follow_event (checkin_updated u) m = put u.student_id u.checked_in m
follow_event (checkins_updated us) m = follow us m

abbrev pub follow_events : List SyncEvent → List (String × Bool) → List (String × Bool)
follow_events [] m = m
follow_events (e ∷ es) m = follow_events es (follow_event e m)

single-follow :
    (us : List CheckinUpdate) (m : List (String × Bool))
    → follow_events (single_events us) m ≡ follow us m
single-follow [] m = refl
single-follow (u ∷ us) m = single-follow us (put u.student_id u.checked_in m)

-- One by one or as a batch, the events say the same.
events_of-follow :
    (us : List CheckinUpdate) (m : List (String × Bool))
    → follow_events (events_of us) m ≡ follow us m
unfolding events_of
events_of-follow [] m = refl
events_of-follow (u ∷ us) m = elim (Bool-cases (leb (length (u ∷ us)) 8)) [
  | inl e ↦ rw (e, events_of) (single-follow (u ∷ us) m)
  | inr e ↦ rw (e, events_of) refl
]

-- The keys of a map that is made by `put` are distinct.
abbrev IsNewIn : String → List (String × Bool) → Type 0
IsNewIn k [] = Unit
IsNewIn k ((a, b) ∷ m) = (str_eq a k ≡ false) × IsNewIn k m

abbrev IsMap : List (String × Bool) → Type 0
IsMap [] = Unit
IsMap ((a, b) ∷ m) = IsNewIn a m × IsMap m

get-IsNewIn : (k : String) (m : List (String × Bool)) → IsNewIn k m → get k m ≡ none
get-IsNewIn k [] n = refl
get-IsNewIn k ((a, b) ∷ m) (e, n) = rw e (get-IsNewIn k m n)

put-IsNewIn :
    (k j : String) (v : Bool) (m : List (String × Bool))
    → str_eq j k ≡ false
    → IsNewIn k m
    → IsNewIn k (put j v m)
put-IsNewIn k j v [] e n = (e, tt)
put-IsNewIn k j v ((a, b) ∷ m) e (d, n) = elim (Bool-cases (str_eq a j)) [
  | inl q ↦ rw q (d, n)
  | inr q ↦ rw q (d, put-IsNewIn k j v m e n)
]

put-IsMap : (j : String) (v : Bool) (m : List (String × Bool)) → IsMap m → IsMap (put j v m)
put-IsMap j v [] i = (tt, tt)
put-IsMap j v ((a, b) ∷ m) (n, i) = elim (Bool-cases (str_eq a j)) [
  | inl q ↦ rw q (n, i)
  | inr q ↦ rw q (put-IsNewIn a j v m (ground (arith, eq_iff a j, eq_iff j a)) n, put-IsMap j v m i)
]

checkin_map-IsMap :
    (m : List (String × Bool)) (ss : List StudentCheckin) → IsMap m → IsMap (checkin_map m ss)
unfolding checkin_map
checkin_map-IsMap m [] i = i
checkin_map-IsMap m (s ∷ ss) i =
    checkin_map-IsMap (put s.student_id s.checked_in m) ss (put-IsMap s.student_id s.checked_in m i)

follow-absent :
    (k : String) (prev m current : List (String × Bool))
    → IsNewIn k current
    → get k (follow (deltas prev current) m) ≡ get k m
unfolding deltas
follow-absent k prev m [] n = refl
follow-absent k prev m ((a, b) ∷ current) (e, n) = elim (Bool-cases (is_news (get a prev) b)) [
  | inl q ↦ rw q (follow-absent k prev (put a b m) current n ∙ get-put k a b m ∙ rw e refl)
  | inr q ↦ rw q (follow-absent k prev m current n)
]

IsNewIn-same : (a k : String) (m : List (String × Bool)) → a ≡ k → IsNewIn a m → IsNewIn k m
IsNewIn-same a k m e n = subst (λ x. IsNewIn x m) e n

no_news : (o : Option Bool) (b : Bool) → is_news o b ≡ false → o ≡ some b
no_news none b h = cc
no_news (some true) true h = refl
no_news (some false) false h = refl
no_news (some true) false h = cc
no_news (some false) true h = cc

abbrev pub or_before : Option Bool → Option Bool → Option Bool
or_before (some b) o = some b
or_before none o = o

-- After the deltas the client has the current state of each current student, and of the others what it had.
follow-deltas :
    (k : String) (prev m current : List (String × Bool))
    → IsMap current
    → get k m ≡ get k prev
    → get k (follow (deltas prev current) m) ≡ or_before (get k current) (get k prev)
unfolding deltas
follow-deltas k prev m [] i h = h
follow-deltas k prev m ((a, b) ∷ current) (n, i) h = elim (Bool-cases (str_eq a k)) [
  | inl e ↦
      let same : a ≡ k = ground (arith, eq_iff a k, e) in
      let absent = IsNewIn-same a k current same n in
      elim (Bool-cases (is_news (get a prev) b)) [
        | inl q ↦
            rw (q, e)
              (follow-absent k prev (put a b m) current absent ∙ get-put k a b m ∙ rw e refl)
        | inr q ↦
            rw (q, e)
              (follow-absent k prev m current absent
                ∙ h
                ∙ ap (λ x. get x prev) (sym same)
                ∙ no_news (get a prev) b q)
      ]
  | inr e ↦ elim (Bool-cases (is_news (get a prev) b)) [
    | inl q ↦ rw (q, e) (follow-deltas k prev (put a b m) current i (get-put k a b m ∙ rw e h))
    | inr q ↦ rw (q, e) (follow-deltas k prev m current i h)
  ]
]

-- Whether a student is checked in by a fetched list: the last entry of the student says it.
abbrev pub fetched : String → List StudentCheckin → Option Bool
fetched k [] = none
fetched k (s ∷ ss) =
    or_before (fetched k ss) (if str_eq s.student_id k then some s.checked_in else none)

or_before_assoc : (a b c : Option Bool) → or_before a (or_before b c) ≡ or_before (or_before a b) c
or_before_assoc none b c = refl
or_before_assoc (some x) b c = refl

get-checkin_map :
    (k : String) (m : List (String × Bool)) (ss : List StudentCheckin)
    → get k (checkin_map m ss) ≡ or_before (fetched k ss) (get k m)
unfolding checkin_map
get-checkin_map k m [] = refl
get-checkin_map k m (s ∷ ss) =
    get-checkin_map k (put s.student_id s.checked_in m) ss
    ∙ ap (or_before (fetched k ss)) (last s)
    ∙ or_before_assoc (fetched k ss) _ (get k m)
  where
    last :
        (s : StudentCheckin)
        → get k (put s.student_id s.checked_in m)
          ≡ or_before (if str_eq s.student_id k then some s.checked_in else none) (get k m)
    last s = elim (Bool-cases (str_eq s.student_id k)) [
      | inl e ↦ get-put k s.student_id s.checked_in m ∙ rw e refl
      | inr e ↦ get-put k s.student_id s.checked_in m ∙ rw e refl
    ]

or_before-none : (a : Option Bool) → or_before a none ≡ a
or_before-none none = refl
or_before-none (some b) = refl

-- A client that knows the state of the previous cycle and applies the events of this one, one by one or
-- as a batch, then has of every fetched student the check-in that the last fetched entry of the student
-- says, and of every other student the state of before; and the room keeps a map that says the same of
-- every fetched student, and nothing of others, for the next cycle.
pub publish_checkin_deltas-follow :
    (students : List StudentCheckin) (s : SyncState) (prev : List (String × Bool)) (k : String)
    → s.last_checkins ≡ some prev
    → let (updates, s') = publish_checkin_deltas students s in
      (get k (follow_events (events_of updates) prev) ≡ or_before (fetched k students) (get k prev))
      × (s'.published ≡ s.published ++ events_of updates)
      × ((kept : List (String × Bool)) × (s'.last_checkins ≡ some kept)
          × (get k kept ≡ fetched k students))
unfolding publish_checkin_deltas
publish_checkin_deltas-follow students s prev k known =
    let current = checkin_map [] students in
    let same : get k current ≡ fetched k students =
      get-checkin_map k [] students ∙ or_before-none (fetched k students) in
    (
      ap (λ us. get k (follow_events (events_of us) prev)) (ap (λ o. updates_since o current) known)
          ∙ ap (get k) (events_of-follow (deltas prev current) prev)
          ∙ follow-deltas k prev prev current (checkin_map-IsMap [] students tt) refl
          ∙ ap (λ o. or_before o (get k prev)) same,
      refl,
      (current, refl, same),
    )
