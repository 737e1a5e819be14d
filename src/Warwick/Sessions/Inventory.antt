-- ===== src/Warwick/Sessions/Inventory.antt =====
-- No session of the pool of internal/warwick/session_pool.go is lost or given out twice.
use classroom.Base.{
  ℕ, zero, suc, ◌+◌, ◌≤◌, ◌<◌, ◌≡◌, ◌≢◌, refl, sym, ◌∙◌, ap, subst, Bool, true, false, not, Option,
  none, some, List, [], ◌∷◌, ◌++◌, ltb, ◌==◌, if◌then◌else◌, length, arith, lt→ltb, ltb→lt,
  Bool-cases, Option-cases, inl, inr,
}
use classroom.Warwick.Sessions.{Session, Access, granted, denied, ensure_valid_session}
use classroom.Warwick.Sessions.Pool.{
  Tier, qr, teacher, interactive, Handle, Pool, range, start_sessions, full_pool, new_pool,
  with_queue, put_back, get_session, set_session, Acquired, out_of_range, Visit, hand_out, conclude,
  visit_session, acquire_index, acquire_from, acquire, get_handle, mark_released, release,
}

-- How often an index occurs in a queue, and among the handles that are not released.
abbrev pub count : ℕ → List ℕ → ℕ
count i [] = 0
count i (x ∷ xs) = (if x == i then 1 else 0) + count i xs

abbrev pub count_held : ℕ → List Handle → ℕ
count_held i [] = 0
count_held i (h ∷ hs) =
    (if not h.released then (if h.index == i then 1 else 0) else 0) + count_held i hs

abbrev pub count_free : ℕ → (Tier → List ℕ) → ℕ
count_free i available =
    count i (available qr) + count i (available teacher) + count i (available interactive)

abbrev pub places : ℕ → Pool → ℕ
places i p = count_free i p.available + count_held i p.handles

-- Every session is in one place, and every index that is somewhere is a session's.
pub record IsConserved (p : Pool) : Type 0 where
  pub inside : (i : ℕ) → i < length p.sessions → places i p ≡ 1
  pub outside : (i : ℕ) → length p.sessions ≤ i → places i p ≡ 0

count-append : (i : ℕ) (xs ys : List ℕ) → count i (xs ++ ys) ≡ count i xs + count i ys
count-append i [] ys = omega arith
count-append i (x ∷ xs) ys = omega (arith, count-append i xs ys)

count_held-append :
    (i : ℕ) (xs ys : List Handle) → count_held i (xs ++ ys) ≡ count_held i xs + count_held i ys
count_held-append i [] ys = omega arith
count_held-append i (x ∷ xs) ys = omega (arith, count_held-append i xs ys)

-- Replacing one queue.
count_free-with_queue :
    (i : ℕ) (tier : Tier) (xs : List ℕ) (available : Tier → List ℕ)
    → count_free i (with_queue tier xs available) + count i (available tier)
      ≡ count_free i available + count i xs
count_free-with_queue i qr xs available = omega arith
count_free-with_queue i teacher xs available = omega arith
count_free-with_queue i interactive xs available = omega arith

with_queue_same :
    (tier : Tier) (xs : List ℕ) (available : Tier → List ℕ) → with_queue tier xs available tier ≡ xs
with_queue_same qr xs available = refl
with_queue_same teacher xs available = refl
with_queue_same interactive xs available = refl

one : ℕ → ℕ → ℕ
one i index = count i (index ∷ [])

places-put_back :
    (i : ℕ) (tier : Tier) (index : ℕ) (p : Pool)
    → places i (put_back tier index p) ≡ places i p + count i (index ∷ [])
places-put_back i tier index p =
    let a = count_free-with_queue i tier (p.available tier ++ index ∷ []) p.available in
    let b = count-append i (p.available tier) (index ∷ []) in omega (arith, a, b)

places-hand_out :
    (i : ℕ) (tier : Tier) (index : ℕ) (p : Pool)
    → places i (hand_out tier index p) ≡ places i p + count i (index ∷ [])
places-hand_out i tier index p =
    let b =
      count_held-append i p.handles
        (record { tier = tier; index = index; released = false } ∷ []) in
    omega (arith, b)

length-set_session :
    (k : ℕ) (x : Session) (ss : List Session) → length (set_session k x ss) ≡ length ss
length-set_session k x [] = refl
length-set_session zero x (s ∷ ss) = refl
length-set_session (suc k) x (s ∷ ss) = ap suc (length-set_session k x ss)

get_session_inside : (k : ℕ) (ss : List Session) → k < length ss → get_session k ss ≢ none
get_session_inside k [] h e = omega (arith, h)
get_session_inside zero (s ∷ ss) h e = cc
get_session_inside (suc k) (s ∷ ss) h e = get_session_inside k ss (omega (arith, h)) e

places-conclude :
    (i : ℕ) (tier : Tier) (index : ℕ) (v : Visit) (a : Access) (p : Pool)
    → (places i (conclude tier index v a p).1 ≡ places i p + count i (index ∷ []))
      × (length (conclude tier index v a p).1.sessions ≡ length p.sessions)
unfolding conclude
places-conclude i tier index v (denied e) p = (places-put_back i tier index p, refl)
places-conclude i tier index v (granted cookie generation) p = elim (Bool-cases v.done_after) [
  | inl b ↦ rw b (places-put_back i tier index p, refl)
  | inr b ↦ rw b (places-hand_out i tier index p, refl)
]

count_self : (i : ℕ) → count i (i ∷ []) ≡ 1
count_self i = ground arith

-- An index that is somewhere is a session's.
present_is_inside : (p : Pool) (i : ℕ) → IsConserved p → 0 < places i p → i < length p.sessions
present_is_inside p i c h = elim (Bool-cases (ltb i (length p.sessions))) [
  | inl b ↦ ltb→lt i (length p.sessions) b
  | inr b ↦ let none_there = c.outside i in ground (arith, none_there)
]

-- What an operation keeps: each index in as many places, and as many sessions.
abbrev Keeps : Pool → Pool → Type 0
Keeps p p' = ((i : ℕ) → places i p' ≡ places i p) × (length p'.sessions ≡ length p.sessions)

Keeps-IsConserved : (p p' : Pool) → Keeps p p' → IsConserved p → IsConserved p'
Keeps-IsConserved p p' (same, size) c = record {
  inside = λ i h. same i ∙ c.inside i (omega (arith, h, size));
  outside = λ i h. same i ∙ c.outside i (omega (arith, h, size));
}

-- The pool without the index that is under way.
abbrev Without : ℕ → Pool → Pool → Type 0
Without index p taken = (i : ℕ) → places i taken + count i (index ∷ []) ≡ places i p

conclude_in_range :
    (tier : Tier) (index : ℕ) (v : Visit) (a : Access) (p : Pool)
    → (conclude tier index v a p).0 ≢ out_of_range
unfolding conclude
conclude_in_range tier index v (denied e) p = ground arith
conclude_in_range tier index v (granted cookie generation) p = ground arith

-- An acquisition that finds its session, and keeps what there is.
abbrev IsSound : Pool → Acquired × Pool → Type 0
IsSound p r = Keeps p r.1 × (r.0 ≢ out_of_range)

either :
    (p : Pool) (b : Bool) (x y : Acquired × Pool)
    → IsSound p x
    → IsSound p y
    → IsSound p (if b then x else y)
either p true x y f g = f
either p false x y f g = g

visit_session-IsSound :
    (tier : Tier) (index : ℕ) (v : Visit) (p taken : Pool) (o : Option Session)
    → o ≢ none
    → length taken.sessions ≡ length p.sessions
    → Without index p taken
    → IsSound p (visit_session tier index v o taken)
unfolding visit_session
visit_session-IsSound tier index v p taken none some_there same missing = absurd (some_there refl)
visit_session-IsSound tier index v p taken (some s) some_there same missing =
    let answer = ensure_valid_session v.done_before v.now v.login s in
    let after = record taken { sessions = set_session index answer.1 taken.sessions } in
    (
      (
        λ i. (places-conclude i tier index v answer.0 after).0 ∙ missing i,
        (places-conclude 0 tier index v answer.0 after).1
            ∙ length-set_session index answer.1 taken.sessions
            ∙ same,
      ),
      conclude_in_range tier index v answer.0 after,
    )

-- `acquireIndex` puts the index back or hands it out.
acquire_index-IsSound :
    (tier : Tier) (index : ℕ) (v : Visit) (p taken : Pool)
    → index < length taken.sessions
    → length taken.sessions ≡ length p.sessions
    → Without index p taken
    → IsSound p (acquire_index tier index v taken)
unfolding acquire_index
acquire_index-IsSound tier index v p taken inside same missing =
    either p v.done_before _ _
      ((λ i. places-put_back i tier index taken ∙ missing i, same), λ e. cc)
      (visit_session-IsSound tier index v p taken _ (get_session_inside index taken.sessions inside)
        same missing)

acquire_from-IsSound :
    (tier : Tier) (xs : List ℕ) (v : Visit) (p : Pool)
    → p.available tier ≡ xs
    → IsConserved p
    → IsSound p (acquire_from tier xs v p)
acquire_from-IsSound tier [] v p e c = ((λ i. refl, refl), λ e. cc)
acquire_from-IsSound tier (x ∷ xs) v p e c =
    acquire_index-IsSound tier x v p (record p { available = with_queue tier xs p.available })
      inside refl missing
  where
    missing : Without x p (record p { available = with_queue tier xs p.available })
    missing i =
        let moved = count_free-with_queue i tier xs p.available in
        let head : count i (p.available tier) ≡ count i (x ∷ xs) = ap (count i) e in
        omega (arith, moved, head)

    inside : x < length p.sessions
    inside =
        let there = missing x in
        let self = count_self x in present_is_inside p x c (omega (arith, there, self))

get_handle-count :
    (k : ℕ) (hs : List Handle) (h : Handle) (i : ℕ)
    → get_handle k hs ≡ some h
    → h.released ≡ false
    → count_held i (mark_released k hs) + count i (h.index ∷ []) ≡ count_held i hs
get_handle-count k [] h i e r = cc
get_handle-count zero (x ∷ hs) h i e r =
    let same : x ≡ h = cc in
    subst
      (λ y.
        count_held i (record y { released = true } ∷ hs) + count i (h.index ∷ [])
        ≡ count_held i (y ∷ hs))
      (sym same) (rw r (omega arith))
get_handle-count (suc k) (x ∷ hs) h i e r = omega (arith, get_handle-count k hs h i e r)

release-IsConserved : (k : ℕ) (p : Pool) → IsConserved p → IsConserved (release k p)
unfolding release
release-IsConserved k p c = elim (Option-cases (get_handle k p.handles)) [
  | inl e ↦ rw (e, release) c
  | inr (h, e) ↦ elim (Bool-cases h.released) [
    | inl r ↦ rw (e, r, release) c
    | inr r ↦ rw (e, r, inside_test h e r, release) (Keeps-IsConserved p _ (kept h e r, refl) c)
  ]
]
  where
    freed : Handle → Pool
    freed h = put_back h.tier h.index (record p { handles = mark_released k p.handles })

    kept :
        (h : Handle)
        → get_handle k p.handles ≡ some h
        → h.released ≡ false
        → (i : ℕ) → places i (freed h) ≡ places i p
    kept h e r i =
        let back =
          places-put_back i h.tier h.index (record p { handles = mark_released k p.handles }) in
        let gone = get_handle-count k p.handles h i e r in omega (arith, back, gone)

    inside_test :
        (h : Handle)
        → get_handle k p.handles ≡ some h
        → h.released ≡ false
        → ltb h.index (length p.sessions) ≡ true
    inside_test h e r =
        let gone = get_handle-count k p.handles h h.index e r in
        let self = count_self h.index in
        lt→ltb h.index (length p.sessions)
          (present_is_inside p h.index c (omega (arith, gone, self)))

acquire-IsSound :
    (tier : Tier) (v : Visit) (p : Pool) → IsConserved p → IsSound p (acquire tier v p)
unfolding acquire
acquire-IsSound tier v p c = acquire_from-IsSound tier (p.available tier) v p refl c

count-range :
    (i a n : ℕ) → count i (range a n) ≡ (if ltb i a then 0 else if ltb i (a + n) then 1 else 0)
count-range i a zero = ground arith
count-range i a (suc n) = let rest = count-range i (suc a) n in ground (arith, rest)

-- Acquisitions and releases, in any order.
pub data Use : Type 0 where
  acquires : Tier → Visit → Use
  releases : ℕ → Use

abbrev pub use_pool : Use → Pool → Pool
use_pool (acquires tier v) p = (acquire tier v p).1
use_pool (releases k) p = release k p

unfoldable pub use_all : List Use → Pool → Pool
use_all [] p = p
use_all (u ∷ us) p = use_all us (use_pool u p)

use_all-IsConserved : (us : List Use) (p : Pool) → IsConserved p → IsConserved (use_all us p)
unfolding use_all
use_all-IsConserved [] p c = c
use_all-IsConserved (acquires tier v ∷ us) p c =
    use_all-IsConserved us (acquire tier v p).1
      (Keeps-IsConserved p (acquire tier v p).1 (acquire-IsSound tier v p c).0 c)
use_all-IsConserved (releases k ∷ us) p c =
    use_all-IsConserved us (release k p) (release-IsConserved k p c)

length-start_sessions : (fresh : ℕ → Session) (a k : ℕ) → length (start_sessions fresh a k) ≡ k
length-start_sessions fresh a zero = refl
length-start_sessions fresh a (suc k) = ap suc (length-start_sessions fresh (suc a) k)

full_pool-IsConserved : (fresh : ℕ → Session) (q t n : ℕ) → IsConserved (full_pool fresh q t n)
full_pool-IsConserved fresh q t n =
    let size = length-start_sessions fresh 0 (q + t + n) in
    record {
      inside = λ i h.
          ground (arith, size, count-range i 0 q, count-range i q t, count-range i (q + t) n);
      outside = λ i h.
          ground (arith, size, count-range i 0 q, count-range i q t, count-range i (q + t) n);
    }

new_pool_inv :
    (fresh : ℕ → Session) (q t n : ℕ) (p : Pool)
    → new_pool fresh q t n ≡ some p
    → full_pool fresh q t n ≡ p
unfolding new_pool
new_pool_inv fresh q t n p h = ground arith

-- In every sequence of acquisitions and releases of a new pool, in any order, with releases of handles
-- twice, and whatever the contexts and the logins do: each session is at every time either in the queue of
-- one tier, once, or in one handle that is not released; so no session is given out twice and none is
-- lost, and no acquisition reads a session that is not there.
pub pool-IsConserved :
    (fresh : ℕ → Session) (q t n : ℕ) (p : Pool) (us : List Use)
    → new_pool fresh q t n ≡ some p
    → IsConserved (use_all us p)
      × ((tier : Tier) (v : Visit) → (acquire tier v (use_all us p)).0 ≢ out_of_range)
pool-IsConserved fresh q t n p us h =
    let c =
      use_all-IsConserved us p
        (subst IsConserved (new_pool_inv fresh q t n p h) (full_pool-IsConserved fresh q t n)) in
    (c, λ tier v. (acquire-IsSound tier v (use_all us p) c).1)
