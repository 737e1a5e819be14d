-- ===== src/Middleware/RateLimit/Bounds.antt =====
-- The limiter of internal/middleware/ratelimit.go: how much it keeps, and how many requests it lets through.
use classroom.Base.{
  ℕ, suc, ◌+◌, ◌-◌, ◌<◌, ◌≤◌, ◌≡◌, refl, ◌∙◌, subst, inl, inr, false, ◌&&◌, String, some, List, [],
  ◌∷◌, ltb, leb, length, put, get, All, arith, Bool-cases, Option-cases, str_eq,
}
use classroom.Store.Hosts.{Floats}
use classroom.Middleware.RateLimit.{
  Bucket, Limiter, new_limiter, refilled, spend, full_bucket, allow, keep_recent, remove_stale,
}

-- Of the floating point numbers: no number is less than itself, and taking one off makes none greater.
pub record IsOrdered {R : Type 0} (f : Floats R) : Type 0 where
  pub irreflexive : (x : R) → f.lt x x ≡ false
  pub minus_below : (b x : R) → f.lt b x ≡ false → f.lt b (f.minus x f.one_) ≡ false

-- A request of an address, with the clock at its entry and at its refill, or a round of the cleanup.
pub data Event : Type 0 where
  asks : String → ℕ → ℕ → Event
  cleans : ℕ → Event

module _ {A : Type 0} (P : String × A → Type 0) where
  put-All :
      (k : String) (v : A) (m : List (String × A))
      → ((j : String) → P (j, v))
      → All P m
      → All P (put k v m)
  put-All k v [] p ps = (p k, tt)
  put-All k v ((a, b) ∷ m) p (q, qs) = elim (Bool-cases (str_eq a k)) [
    | inl e ↦ rw e (p a, qs)
    | inr e ↦ rw e (q, put-All k v m p qs)
  ]

length-put :
    {A : Type 0} (k : String) (v : A) (m : List (String × A)) → length (put k v m) ≤ suc (length m)
length-put k v [] = omega arith
length-put k v ((a, b) ∷ m) = let rest = length-put k v m in ground arith

length-put_known :
    {A : Type 0} (k : String) (v w : A) (m : List (String × A))
    → get k m ≡ some w
    → length (put k v m) ≡ length m
length-put_known k v w [] h = cc
length-put_known k v w ((a, b) ∷ m) h = let rest = length-put_known k v w m in ground arith

module _ {R : Type 0} (f : Floats R) where
  abbrev pub handle : Event → Limiter R → Limiter R
  handle (asks ip seen now) l = (allow f ip seen now l).1
  handle (cleans now) l = remove_stale now l

  unfoldable pub handle_all : List Event → Limiter R → Limiter R
  handle_all [] l = l
  handle_all (e ∷ es) l = handle_all es (handle e l)

module _ {R : Type 0} (f : Floats R) (o : IsOrdered f) where
  -- No bucket has more than the burst, and the map no more visitors than its limit, when it has one.
  abbrev IsLimited : Limiter R → Type 0
  IsLimited l =
      All (λ e. f.lt (f.of_count l.burst) e.1.tokens ≡ false) l.visitors
      × (0 < l.max_visitors → length l.visitors ≤ l.max_visitors)

  refilled-limited :
      (l : Limiter R) (now : ℕ) (b : Bucket R)
      → f.lt (f.of_count l.burst) (refilled f l now b) ≡ false
  unfolding refilled
  refilled-limited l now b =
      elim (Bool-cases (
        f.lt (f.of_count l.burst)
          (f.plus b.tokens (f.times (f.seconds (now - b.last_refill)) l.rate)))) [
            | inl e ↦ rw e (o.irreflexive (f.of_count l.burst))
            | inr e ↦ rw (e, e) refl
          ]

  -- The map has room for the entry of an address.
  abbrev HasRoom : String → Limiter R → Type 0
  HasRoom ip l = (b : Bucket R) → 0 < l.max_visitors → length (put ip b l.visitors) ≤ l.max_visitors

  spend-IsLimited :
      (ip : String) (now : ℕ) (b : Bucket R) (l : Limiter R)
      → HasRoom ip l
      → IsLimited l
      → IsLimited (spend f ip now b l).1
  unfolding spend
  spend-IsLimited ip now b l room (i, is) = elim (Bool-cases (f.lt (refilled f l now b) f.one_)) [
    | inl e ↦ rw e (put-All _ ip _ l.visitors (λ j. refilled-limited l now b) i, room _)
    | inr e ↦
        rw e
          (put-All _ ip _ l.visitors (λ j. o.minus_below _ _ (refilled-limited l now b)) i, room _)
  ]

  allow-IsLimited :
      (ip : String) (seen now : ℕ) (l : Limiter R)
      → IsLimited l
      → IsLimited (allow f ip seen now l).1
  unfolding allow
  allow-IsLimited ip seen now l i = elim (Option-cases (get ip l.visitors)) [
    | inr (b, e) ↦
        rw (allow, e)
          (spend-IsLimited ip now b l
            (λ v h.
              let same = length-put_known ip v b l.visitors e in
              let bound = i.1 h in omega (arith, same, bound))
            i)
    | inl e ↦ elim (Bool-cases (ltb 0 l.max_visitors && leb l.max_visitors (length l.visitors))) [
      | inl full ↦ rw (allow, e, full) i
      | inr free ↦
          rw (allow, e, free)
            (spend-IsLimited ip now (full_bucket f l seen) l
              (λ v h. let grown = length-put ip v l.visitors in ground (arith, grown)) i)
    ]
  ]

  keep_recent-IsLimited :
      (b : R) (interval now : ℕ) (m : List (String × Bucket R))
      → All (λ e. f.lt b e.1.tokens ≡ false) m
      → All (λ e. f.lt b e.1.tokens ≡ false) (keep_recent interval now m)
        × (length (keep_recent interval now m) ≤ length m)
  unfolding keep_recent
  keep_recent-IsLimited b interval now [] i = (tt, omega arith)
  keep_recent-IsLimited b interval now ((ip, v) ∷ m) (i, is) =
      let (kept, fewer) = keep_recent-IsLimited b interval now m is in
      elim (Bool-cases (ltb (v.last_refill + interval) now)) [
        | inl e ↦ rw e (kept, omega (arith, fewer))
        | inr e ↦ rw e ((i, kept), omega (arith, fewer))
      ]

  handle-IsLimited : (e : Event) (l : Limiter R) → IsLimited l → IsLimited (handle f e l)
  unfolding remove_stale
  handle-IsLimited (asks ip seen now) l i = allow-IsLimited ip seen now l i
  handle-IsLimited (cleans now) l (i, bound) =
      let (kept, fewer) =
        keep_recent-IsLimited (f.of_count l.burst) l.cleanup_interval now l.visitors i in
      (kept, λ h. let most = bound h in omega (arith, fewer, most))

  handle_all-IsLimited :
      (es : List Event) (l : Limiter R) → IsLimited l → IsLimited (handle_all f es l)
  unfolding handle_all
  handle_all-IsLimited [] l i = i
  handle_all-IsLimited (e ∷ es) l i =
      handle_all-IsLimited es (handle f e l) (handle-IsLimited e l i)

  -- The settings of the limiter stay.
  abbrev Keeps : Limiter R → Limiter R → Type 0
  Keeps l l' = (l'.burst ≡ l.burst) × (l'.max_visitors ≡ l.max_visitors)

  spend-Keeps :
      (ip : String) (now : ℕ) (b : Bucket R) (l : Limiter R) → Keeps l (spend f ip now b l).1
  unfolding spend
  spend-Keeps ip now b l = elim (Bool-cases (f.lt (refilled f l now b) f.one_)) [
    | inl e ↦ rw e (refl, refl)
    | inr e ↦ rw e (refl, refl)
  ]

  allow-Keeps : (ip : String) (seen now : ℕ) (l : Limiter R) → Keeps l (allow f ip seen now l).1
  unfolding allow
  allow-Keeps ip seen now l = elim (Option-cases (get ip l.visitors)) [
    | inr (b, e) ↦ rw (allow, e) (spend-Keeps ip now b l)
    | inl e ↦ elim (Bool-cases (ltb 0 l.max_visitors && leb l.max_visitors (length l.visitors))) [
      | inl full ↦ rw (allow, e, full) (refl, refl)
      | inr free ↦ rw (allow, e, free) (spend-Keeps ip now (full_bucket f l seen) l)
    ]
  ]

  handle_all-Keeps : (es : List Event) (l : Limiter R) → Keeps l (handle_all f es l)
  unfolding handle_all remove_stale
  handle_all-Keeps [] l = (refl, refl)
  handle_all-Keeps (asks ip seen now ∷ es) l =
      let (burst, most) = allow-Keeps ip seen now l in
      let (burst', most') = handle_all-Keeps es (allow f ip seen now l).1 in
      (burst' ∙ burst, most' ∙ most)
  handle_all-Keeps (cleans now ∷ es) l = handle_all-Keeps es (remove_stale now l)

  -- However requests of any addresses and rounds of the cleanup follow each other on a new limiter, no
  -- address has more tokens than the burst, and no more than 100000 addresses are kept.
  pub limiter_bounds :
      (rate : R) (burst : ℕ) (es : List Event)
      → All
          (λ e. f.lt (f.of_count burst) e.1.tokens ≡ false)
          (handle_all f es (new_limiter f rate burst)).visitors
        × (length (handle_all f es (new_limiter f rate burst)).visitors ≤ 100000)
  unfolding new_limiter
  limiter_bounds rate burst es =
      let start = new_limiter f rate burst in
      let (tokens, most) = handle_all-IsLimited es start (tt, λ h. omega arith) in
      let (same, limit) = handle_all-Keeps es start in
      (
        subst
            (λ n.
              All (λ e. f.lt (f.of_count n) e.1.tokens ≡ false) (handle_all f es start).visitors)
            same tokens,
        omega (arith, most (omega (arith, limit)), limit),
      )
