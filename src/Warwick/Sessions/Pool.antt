-- ===== src/Warwick/Sessions/Pool.antt =====
-- `SessionPool` of internal/warwick/session_pool.go: the queues of free sessions, and the handles given
-- out. A handle is known by its position.
use classroom.Base.{
  ℕ, zero, suc, ◌+◌, Bool, true, false, Option, none, some, List, [], ◌∷◌, ◌++◌, ltb, ◌==◌,
  if◌then◌else◌, length,
}
use classroom.Warwick.Sessions.{
  Session, Login, AuthError, Access, granted, denied, ensure_valid_session,
}

-- `SessionTier`; another number is an error of the caller.
pub data Tier : Type 0 where
  qr teacher interactive : Tier

abbrev pub tier_eq : Tier → Tier → Bool
tier_eq qr qr = true
tier_eq teacher teacher = true
tier_eq interactive interactive = true
tier_eq _ _ = false

-- `SessionRef`.
pub record Handle : Type 0 where
  pub tier : Tier
  pub index : ℕ
  pub released : Bool

pub record Pool : Type 0 where
  pub sessions : List Session
  pub available : Tier → List ℕ
  pub handles : List Handle

-- The numbers from `a`, `n` of them.
abbrev pub range : ℕ → ℕ → List ℕ
range a zero = []
range a (suc n) = a ∷ range (suc a) n

-- The sessions as they start, and the queues, which are full.
abbrev pub start_sessions : (ℕ → Session) → ℕ → ℕ → List Session
start_sessions fresh a zero = []
start_sessions fresh a (suc k) = fresh a ∷ start_sessions fresh (suc a) k

abbrev pub full_queues : ℕ → ℕ → ℕ → Tier → List ℕ
full_queues q t n qr = range 0 q
full_queues q t n teacher = range q t
full_queues q t n interactive = range (q + t) n

abbrev pub full_pool : (ℕ → Session) → ℕ → ℕ → ℕ → Pool
full_pool fresh q t n = record {
  sessions = start_sessions fresh 0 (q + t + n);
  available = full_queues q t n;
  handles = [];
}

-- `NewSessionPool`; `none` is its error.
unfoldable pub new_pool : (ℕ → Session) → ℕ → ℕ → ℕ → Option Pool
new_pool fresh q t n =
    if q == 0
    then none
    else if t == 0
    then none
    else if n == 0
    then none
    else some (full_pool fresh q t n)

abbrev pub with_queue : Tier → List ℕ → (Tier → List ℕ) → Tier → List ℕ
with_queue tier xs available u = if tier_eq u tier then xs else available u

-- `available <- index`.
abbrev pub put_back : Tier → ℕ → Pool → Pool
put_back tier index p = record p {
  available = with_queue tier (p.available tier ++ index ∷ []) p.available;
}

abbrev pub get_session : ℕ → List Session → Option Session
get_session k [] = none
get_session zero (s ∷ ss) = some s
get_session (suc k) (s ∷ ss) = get_session k ss

abbrev pub set_session : ℕ → Session → List Session → List Session
set_session k x [] = []
set_session zero x (s ∷ ss) = x ∷ ss
set_session (suc k) x (s ∷ ss) = s ∷ set_session k x ss

-- How an acquisition ends; `out_of_range` is the panic of an index that is no session's.
pub data Acquired : Type 0 where
  exhausted context_done out_of_range : Acquired
  not_valid : AuthError → Acquired
  acquired : Access → Acquired

-- What an acquisition meets: the context before and after the login, the time, and the login.
pub record Visit : Type 0 where
  pub done_before : Bool
  pub done_after : Bool
  pub now : ℕ
  pub login : Login

abbrev pub hand_out : Tier → ℕ → Pool → Pool
hand_out tier index p = record p {
  handles = p.handles ++ record { tier = tier; index = index; released = false } ∷ [];
}

-- The end of `acquireIndex`, after the session has answered.
unfoldable pub conclude : Tier → ℕ → Visit → Access → Pool → Acquired × Pool
conclude tier index v (denied e) p =
    (if v.done_after then context_done else not_valid e, put_back tier index p)
conclude tier index v (granted cookie generation) p =
    if v.done_after
    then (context_done, put_back tier index p)
    else (acquired (granted cookie generation), hand_out tier index p)

-- `ensureValidSession` on the session of an index, and what follows from it.
unfoldable pub visit_session : Tier → ℕ → Visit → Option Session → Pool → Acquired × Pool
unfolding conclude ensure_valid_session
visit_session tier index v none p = (out_of_range, p)
visit_session tier index v (some s) p =
    let answer = ensure_valid_session v.done_before v.now v.login s in
    conclude tier index v answer.0 (record p { sessions = set_session index answer.1 p.sessions })

-- `acquireIndex`, of an index that is taken from its queue.
unfoldable pub acquire_index : Tier → ℕ → Visit → Pool → Acquired × Pool
unfolding visit_session
acquire_index tier index v p =
    if v.done_before
    then (context_done, put_back tier index p)
    else visit_session tier index v (get_session index p.sessions) p

abbrev pub acquire_from : Tier → List ℕ → Visit → Pool → Acquired × Pool
acquire_from tier [] v p = (exhausted, p)
acquire_from tier (index ∷ rest) v p =
    acquire_index tier index v (record p { available = with_queue tier rest p.available })

-- `Acquire`. One that waits is this one at the time of its receive, or is exhausted or done before.
unfoldable pub acquire : Tier → Visit → Pool → Acquired × Pool
unfolding acquire_index
acquire tier v p = acquire_from tier (p.available tier) v p

abbrev pub get_handle : ℕ → List Handle → Option Handle
get_handle k [] = none
get_handle zero (h ∷ hs) = some h
get_handle (suc k) (h ∷ hs) = get_handle k hs

abbrev pub mark_released : ℕ → List Handle → List Handle
mark_released k [] = []
mark_released zero (h ∷ hs) = record h { released = true } ∷ hs
mark_released (suc k) (h ∷ hs) = h ∷ mark_released k hs

-- `Release` of the handle `k`; `none` is a nil reference.
unfoldable pub release : ℕ → Pool → Pool
release k p = elim (get_handle k p.handles) [
  | none ↦ p
  | some h ↦
      if h.released
      then p
      else let marked = record p { handles = mark_released k p.handles } in
        if ltb h.index (length p.sessions) then put_back h.tier h.index marked else marked
]
