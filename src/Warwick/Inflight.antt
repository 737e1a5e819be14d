-- ===== src/Warwick/Inflight.antt =====
-- internal/warwick/inflight.go: callers with one key share one producer. Calls are numbered in the order
-- in which they are made; a caller waits for one call, and its producer runs once.
pub mod Sharing
use classroom.Base.{
  ℕ, zero, suc, ◌-◌, ◌<◌, ◌≡◌, Bool, true, false, ◌||◌, Option, none, some, List, [], ◌∷◌, ◌++◌,
  ltb, ◌==◌, if◌then◌else◌, length, String, str_eq,
}

-- `inflightCall`, with its key; `current` is whether the map holds it.
pub record Call : Type 0 where
  pub key : String
  pub waiters : ℕ
  pub completed : Bool
  pub canceled : Bool
  pub current : Bool

-- The calls that were ever made, the oldest first. The group keeps those that are current.
abbrev pub Group : Type 0
Group = List Call

-- `g.calls[key]`, by its number from `n` on.
unfoldable pub find_call : ℕ → String → Group → Option ℕ
find_call n key [] = none
find_call n key (c ∷ cs) =
    let rest = find_call (suc n) key cs in
    if c.current then (if str_eq c.key key then some n else rest) else rest

-- A change of the call `k`.
abbrev pub change_call : ℕ → (Call → Call) → Group → Group
change_call k f [] = []
change_call zero f (c ∷ cs) = f c ∷ cs
change_call (suc k) f (c ∷ cs) = c ∷ change_call k f cs

abbrev pub join_call : Call → Call
join_call c = record c { waiters = suc c.waiters }

abbrev pub first_call : String → Call
first_call key = record {
  key = key;
  waiters = 1;
  completed = false;
  canceled = false;
  current = true;
}

-- The head of `Do`, under the lock: the number of the call, whether it is shared, and the group.
unfoldable pub enter : String → Group → (ℕ × Bool) × Group
unfolding find_call
enter key g = elim (find_call 0 key g) [
  | some k ↦ ((k, true), change_call k join_call g)
  | none ↦ ((length g, false), g ++ first_call key ∷ [])
]

-- The end of `run`, for the call `k`.
abbrev pub complete_call : Call → Call
complete_call c = record c { completed = true; canceled = true; current = false }

-- `leave` for the call `k`: the last waiter cancels the producer.
unfoldable pub leave_call : Call → Call
leave_call c =
    if c.completed || c.waiters == 0
    then c
    else if c.waiters == 1
    then record c { waiters = 0; canceled = true; current = false }
    else record c { waiters = c.waiters - 1 }
