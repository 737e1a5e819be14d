-- ===== src/Warwick/Inflight/Sharing.antt =====
-- The group of internal/warwick/inflight.go keeps one live producer for a key, with a caller that waits.
use classroom.Base.{
  ℕ, zero, suc, ◌+◌, ◌<◌, ◌≡◌, refl, sym, ◌∙◌, ap, subst, true, false, none, some, List, [], ◌∷◌,
  ◌++◌, String, str_eq, eq_iff, arith, Bool-cases, Option-cases, inl, inr,
}
use classroom.Warwick.Inflight.{
  Call, Group, find_call, change_call, join_call, first_call, enter, complete_call, leave_call,
}

-- What a call satisfies: one in the map is not done, its producer is not cancelled, and someone waits; the
-- producer of a call that is not done is cancelled only when no one waits.
abbrev IsSound : Call → Type 0
IsSound c =
    (c.current ≡ true → (c.completed ≡ false) × (c.canceled ≡ false) × (0 < c.waiters))
    × (c.completed ≡ false → c.canceled ≡ true → c.waiters ≡ 0)
    × (c.completed ≡ false → 0 < c.waiters → c.current ≡ true)

-- No later call in the map has the key.
abbrev IsAlone : String → Group → Type 0
IsAlone key [] = Unit
IsAlone key (c ∷ cs) = (c.current ≡ true → str_eq c.key key ≡ false) × IsAlone key cs

abbrev pub IsGroup : Group → Type 0
IsGroup [] = Unit
IsGroup (c ∷ cs) = IsSound c × (c.current ≡ true → IsAlone c.key cs) × IsGroup cs

-- The call of a number, where there is one, satisfies `P`.
abbrev At : (Call → Type 0) → ℕ → Group → Type 0
At P k [] = Unit
At P zero (c ∷ cs) = P c
At P (suc k) (c ∷ cs) = At P k cs

-- A change of such a call keeps its key, makes it current only if it was, and keeps it sound.
abbrev Allows : (Call → Type 0) → (Call → Call) → Type 0
Allows P f =
    (c : Call)
    → P c
    → ((f c).key ≡ c.key) × ((f c).current ≡ true → c.current ≡ true) × (IsSound c → IsSound (f c))

change_call-IsAlone :
    (P : Call → Type 0) (k : ℕ) (f : Call → Call) (key : String) (g : Group)
    → Allows P f
    → At P k g
    → IsAlone key g
    → IsAlone key (change_call k f g)
change_call-IsAlone P k f key [] a h i = tt
change_call-IsAlone P zero f key (c ∷ cs) a h (i, is) =
    (λ e. ap (λ x. str_eq x key) (a c h).0 ∙ i ((a c h).1 e), is)
change_call-IsAlone P (suc k) f key (c ∷ cs) a h (i, is) =
    (i, change_call-IsAlone P k f key cs a h is)

change_call-IsGroup :
    (P : Call → Type 0) (k : ℕ) (f : Call → Call) (g : Group)
    → Allows P f
    → At P k g
    → IsGroup g
    → IsGroup (change_call k f g)
change_call-IsGroup P k f [] a h i = tt
change_call-IsGroup P zero f (c ∷ cs) a h (s, alone, is) =
    ((a c h).2 s, λ e. subst (λ x. IsAlone x cs) (sym (a c h).0) (alone ((a c h).1 e)), is)
change_call-IsGroup P (suc k) f (c ∷ cs) a h (s, alone, is) =
    (s, λ e. change_call-IsAlone P k f c.key cs a h (alone e), change_call-IsGroup P k f cs a h is)

abbrev Anything : Call → Type 0
Anything c = Unit

anywhere : (k : ℕ) (g : Group) → At Anything k g
anywhere k [] = tt
anywhere zero (c ∷ cs) = tt
anywhere (suc k) (c ∷ cs) = anywhere k cs

abbrev IsCurrent : Call → Type 0
IsCurrent c = c.current ≡ true

complete-Allows : Allows Anything complete_call
complete-Allows c h = (refl, λ e. cc, λ s. (λ e. cc, λ e x. cc, λ e x. cc))

leave-Allows : Allows Anything leave_call
unfolding leave_call
leave-Allows c h = ground arith

join-Allows : Allows IsCurrent join_call
join-Allows c h = ground arith

-- A number found further on.
further :
    (n m : ℕ) (c : Call) (cs : Group)
    → (k : ℕ) × (m ≡ suc n + k) × At IsCurrent k cs
    → (k : ℕ) × (m ≡ n + k) × At IsCurrent k (c ∷ cs)
further n m c cs (k, e, here) = (suc k, omega (arith, e), here)

find_call-At :
    (n m : ℕ) (key : String) (g : Group)
    → find_call n key g ≡ some m
    → (k : ℕ) × (m ≡ n + k) × At IsCurrent k g
unfolding find_call
find_call-At n m key [] h = cc
find_call-At n m key (c ∷ cs) h = elim (Bool-cases c.current) [
  | inr b ↦ further n m c cs (find_call-At (suc n) m key cs (ground arith))
  | inl b ↦ elim (Bool-cases (str_eq c.key key)) [
    | inl e ↦
        let same : some n ≡ some m = ground arith in
        let number : n ≡ m = cc in (0, omega (arith, number), b)
    | inr e ↦ further n m c cs (find_call-At (suc n) m key cs (ground arith))
  ]
]

find_call-IsAlone : (n : ℕ) (key : String) (g : Group) → find_call n key g ≡ none → IsAlone key g
unfolding find_call
find_call-IsAlone n key [] h = tt
find_call-IsAlone n key (c ∷ cs) h =
    let rest = find_call-IsAlone (suc n) key cs in (λ b. ground arith, rest (ground arith))

IsAlone-append :
    (key : String) (g : Group) (c : Call)
    → str_eq c.key key ≡ false
    → IsAlone key g
    → IsAlone key (g ++ c ∷ [])
IsAlone-append key [] c e i = (λ b. e, tt)
IsAlone-append key (x ∷ xs) c e (i, is) = (i, IsAlone-append key xs c e is)

IsGroup-append :
    (key : String) (g : Group) → IsAlone key g → IsGroup g → IsGroup (g ++ first_call key ∷ [])
IsGroup-append key [] a i =
    (((λ e. (refl, refl, omega arith)), (λ e x. cc), λ e x. refl), (λ e. tt), tt)
IsGroup-append key (c ∷ cs) (a, as_) (s, alone, is) = (
  s,
  λ e.
      IsAlone-append c.key cs (first_call key)
        (ground (arith, a e, eq_iff c.key key, eq_iff key c.key)) (alone e),
  IsGroup-append key cs as_ is,
)

enter-IsGroup : (key : String) (g : Group) → IsGroup g → IsGroup (enter key g).1
unfolding enter
enter-IsGroup key g i = elim (Option-cases (find_call 0 key g)) [
  | inl e ↦ rw (e, enter) (IsGroup-append key g (find_call-IsAlone 0 key g e) i)
  | inr (m, e) ↦
      let (k, same, here) = find_call-At 0 m key g e in
      let number : m ≡ k = omega (arith, same) in
      rw (e, enter)
        (subst (λ x. IsGroup (change_call x join_call g)) (sym number)
          (change_call-IsGroup IsCurrent k join_call g join-Allows here i))
]

-- Callers that enter and leave, and producers that end, in any order.
pub data Action : Type 0 where
  enters : String → Action
  ends leaves : ℕ → Action

abbrev pub act : Action → Group → Group
act (enters key) g = (enter key g).1
act (ends k) g = change_call k complete_call g
act (leaves k) g = change_call k leave_call g

unfoldable pub act_all : List Action → Group → Group
act_all [] g = g
act_all (a ∷ more) g = act_all more (act a g)

act_all-IsGroup : (steps : List Action) (g : Group) → IsGroup g → IsGroup (act_all steps g)
unfolding act_all
act_all-IsGroup [] g i = i
act_all-IsGroup (enters key ∷ more) g i = act_all-IsGroup more _ (enter-IsGroup key g i)
act_all-IsGroup (ends k ∷ more) g i =
    act_all-IsGroup more _
      (change_call-IsGroup Anything k complete_call g complete-Allows (anywhere k g) i)
act_all-IsGroup (leaves k ∷ more) g i =
    act_all-IsGroup more _
      (change_call-IsGroup Anything k leave_call g leave-Allows (anywhere k g) i)

-- In every sequence of callers that enter, callers that leave and producers that end: the map holds at
-- most one call of a key; its producer has not ended and is not cancelled, and a caller waits for it; a
-- call whose producer goes on and for which someone waits is in the map, so later callers share it; and a
-- producer is cancelled before its end only when no one waits any more.
pub inflight-IsGroup : (steps : List Action) → IsGroup (act_all steps [])
inflight-IsGroup steps = act_all-IsGroup steps [] tt
