-- ===== src/Store/Order.antt =====
-- Lists of rows in the order of the claims of internal/db/snapshot_repository.go: sorting, selecting and
-- cutting them.
use classroom.Base.{
  ℕ, zero, suc, ◌≤◌, ◌≡◌, sym, ◌∙◌, ap, subst, Bool, true, false, ◌||◌, List, [], ◌∷◌, ◌==◌, arith,
  All, ◌⊎◌, inl, inr, Bool-cases, length,
}
use classroom.Store.Target.{Target, update_where}
use classroom.Store.Leases.{claim_before, insert_claim, sort_claims, select, limit, has_id}

-- No row that stands later goes before an earlier one.
abbrev pub IsOrdered : List Target → Type 0
IsOrdered [] = Unit
IsOrdered (t ∷ ts) = All (λ u. claim_before u t ≡ false) ts × IsOrdered ts

before_asym : (a b : Target) → claim_before a b ≡ true → claim_before b a ≡ false
unfolding claim_before
before_asym a b h = ground arith

before_trans :
    (a b c : Target)
    → claim_before b a ≡ false
    → claim_before c b ≡ false
    → claim_before c a ≡ false
unfolding claim_before
before_trans a b c h k = ground arith

All-trans :
    (a b : Target) (ts : List Target)
    → claim_before b a ≡ false
    → All (λ u. claim_before u b ≡ false) ts
    → All (λ u. claim_before u a ≡ false) ts
All-trans a b [] h k = tt
All-trans a b (t ∷ ts) h (k, ks) = (before_trans a b t h k, All-trans a b ts h ks)

All-insert :
    (P : Target → Type 0) (t : Target) (ts : List Target)
    → P t
    → All P ts
    → All P (insert_claim t ts)
unfolding insert_claim
All-insert P t [] p ps = (p, tt)
All-insert P t (u ∷ us) p (q, qs) =
    let rest = All-insert P t us p qs in
    elim (Bool-cases (claim_before u t)) [ inl e ↦ rw e (q, rest) | inr e ↦ rw e (p, (q, qs)) ]

insert-IsOrdered : (t : Target) (ts : List Target) → IsOrdered ts → IsOrdered (insert_claim t ts)
unfolding insert_claim
insert-IsOrdered t [] h = (tt, tt)
insert-IsOrdered t (u ∷ us) (a, o) = elim (Bool-cases (claim_before u t)) [
  | inl e ↦ rw e (
    All-insert (λ v. claim_before v u ≡ false) t us (before_asym u t e) a,
    insert-IsOrdered t us o,
  )
  | inr e ↦ rw e ((e, All-trans t u us e a), (a, o))
]

pub sort-IsOrdered : (ts : List Target) → IsOrdered (sort_claims ts)
unfolding sort_claims
sort-IsOrdered [] = tt
sort-IsOrdered (t ∷ ts) = insert-IsOrdered t (sort_claims ts) (sort-IsOrdered ts)

pub All-sort : (P : Target → Type 0) (ts : List Target) → All P ts → All P (sort_claims ts)
unfolding sort_claims
All-sort P [] h = tt
All-sort P (t ∷ ts) (p, ps) = All-insert P t (sort_claims ts) p (All-sort P ts ps)

pub All-select :
    (P : Target → Type 0) (p : Target → Bool) (ts : List Target)
    → All P ts
    → All (λ t. P t × (p t ≡ true)) (select p ts)
unfolding select
All-select P p [] h = tt
All-select P p (t ∷ ts) (h, hs) =
    let rest = All-select P p ts hs in
    elim (Bool-cases (p t)) [ inl e ↦ rw e ((h, e), rest) | inr e ↦ rw e rest ]

abbrev pub Any : Target → Type 0
Any t = Unit

pub All-unit : (ts : List Target) → All Any ts
All-unit [] = tt
All-unit (t ∷ ts) = (tt, All-unit ts)

-- `t` is one of the rows.
abbrev pub In : Target → List Target → Type 0
In t [] = ⊥
In t (u ∷ us) = (t ≡ u) ⊎ In t us

In-insert : (t u : Target) (us : List Target) → (t ≡ u) ⊎ In t us → In t (insert_claim u us)
unfolding insert_claim
In-insert t u [] h = h
In-insert t u (v ∷ us) h = elim (Bool-cases (claim_before v u)) [
  | inr e ↦ rw e h
  | inl e ↦ rw e (deeper (In-insert t u us) h)
]
  where
    deeper :
        ((t ≡ u) ⊎ In t us → In t (insert_claim u us))
        → (t ≡ u) ⊎ ((t ≡ v) ⊎ In t us)
        → (t ≡ v) ⊎ In t (insert_claim u us)
    deeper f (inl a) = inr (f (inl a))
    deeper f (inr (inl a)) = inl a
    deeper f (inr (inr a)) = inr (f (inr a))

pub In-sort : (t : Target) (ts : List Target) → In t ts → In t (sort_claims ts)
unfolding sort_claims
In-sort t [] h = elim h [ ]
In-sort t (u ∷ us) (inl e) = In-insert t u (sort_claims us) (inl e)
In-sort t (u ∷ us) (inr h) = In-insert t u (sort_claims us) (inr (In-sort t us h))

pub In-select :
    (p : Target → Bool) (t : Target) (ts : List Target) → p t ≡ true → In t ts → In t (select p ts)
unfolding select
In-select p t [] e h = elim h [ ]
In-select p t (u ∷ us) e (inl h) = rw (sym (ap p h) ∙ e) (inl h)
In-select p t (u ∷ us) e (inr h) = elim (Bool-cases (p u)) [
  | inl k ↦ rw k (inr (In-select p t us e h))
  | inr k ↦ rw k (In-select p t us e h)
]

All-In : (P : Target → Type 0) (t : Target) (ts : List Target) → All P ts → In t ts → P t
All-In P t [] ps h = elim h [ ]
All-In P t (u ∷ us) (p, ps) (inl e) = subst P (sym e) p
All-In P t (u ∷ us) (p, ps) (inr h) = All-In P t us ps h

pub select-IsOrdered :
    (p : Target → Bool) (ts : List Target) → IsOrdered ts → IsOrdered (select p ts)
unfolding select
select-IsOrdered p [] h = tt
select-IsOrdered p (t ∷ ts) (a, o) = elim (Bool-cases (p t)) [
  | inl e ↦ rw e (below ts a, select-IsOrdered p ts o)
  | inr e ↦ rw e (select-IsOrdered p ts o)
]
  where
    below :
        (us : List Target)
        → All (λ u. claim_before u t ≡ false) us
        → All (λ u. claim_before u t ≡ false) (select p us)
    below [] h = tt
    below (u ∷ us) (h, hs) = elim (Bool-cases (p u)) [
      | inl e ↦ rw e (h, below us hs)
      | inr e ↦ rw e (below us hs)
    ]

pub All-limit : (P : Target → Type 0) (n : ℕ) (ts : List Target) → All P ts → All P (limit n ts)
unfolding limit
All-limit P zero ts h = tt
All-limit P (suc n) [] h = tt
All-limit P (suc n) (t ∷ ts) (p, ps) = (p, All-limit P n ts ps)

pub length-limit : (n : ℕ) (ts : List Target) → length (limit n ts) ≤ n
unfolding limit
length-limit zero ts = omega arith
length-limit (suc n) [] = omega arith
length-limit (suc n) (t ∷ ts) = omega (arith, length-limit n ts)

-- Of an ordered list, what the limit leaves out goes before nothing that it keeps.
pub limit-urgent :
    (n : ℕ) (t : Target) (ts : List Target)
    → IsOrdered ts
    → In t ts
    → has_id (limit n ts) t.id ≡ false
    → All (λ u. claim_before t u ≡ false) (limit n ts)
unfolding limit has_id
limit-urgent zero t ts o i h = tt
limit-urgent (suc n) t [] o i h = elim i [ ]
limit-urgent (suc n) t (u ∷ us) (a, o) (inl e) h = absurd (same (sym (ap (λ x. x.id) e)) h)
  where
    same : u.id ≡ t.id → (u.id == t.id || has_id (limit n us) t.id) ≡ false → ⊥
    same k l = ground arith
limit-urgent (suc n) t (u ∷ us) (a, o) (inr i) h =
    (All-In (λ v. claim_before v u ≡ false) t us a i, limit-urgent n t us o i (rest h))
  where
    rest : (u.id == t.id || has_id (limit n us) t.id) ≡ false → has_id (limit n us) t.id ≡ false
    rest k = ground arith

-- What an UPDATE with the predicate of the later selection has done to each selected row.
pub select-update_where :
    (p : Target → Bool) (f : Target → Target) (Q : Target → Type 0) (ts : List Target)
    → ((t : Target) → p (f t) ≡ p t)
    → ((t : Target) → Q (f t))
    → All (λ u. Q u × (p u ≡ true)) (select p (update_where p f ts))
unfolding select update_where
select-update_where p f Q [] same q = tt
select-update_where p f Q (t ∷ ts) same q =
    let rest = select-update_where p f Q ts same q in
    elim (Bool-cases (p t)) [
      | inl e ↦ rw (e, same t ∙ e) ((q t, same t ∙ e), rest)
      | inr e ↦ rw (e, e) rest
    ]
