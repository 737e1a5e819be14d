-- ===== src/Scraper/Discover/Listed.antt =====
-- The seeds of `discoverTargets` in internal/scraper/coordinator.go pass the checks of `upsertSeeds`.
use classroom.Base.{
  ℕ, ◌+◌, ◌<◌, ◌≡◌, refl, inl, inr, Bool, true, false, String, none, some, List, [], ◌∷◌, map,
  str_eq, arith, All, Bool-cases,
}
use classroom.Domain.Snapshot.{
  SnapshotKind, course_catalog, course_detail, session_detail, student_profiles, other, TargetRef,
  validate_ref, SessionStatus,
}
use classroom.Domain.Classroom.{CourseSummary, SessionSummary}
use classroom.Scraper.Codec.{
  Codec, Value, courses, course, session, profiles, unrecognized, is_blank, IsLawful,
}
use classroom.Scraper.Validation.{valid_ids, validate_payload, Validated}
use classroom.Scraper.Canonical.{insert_sorted, sort_stable}
use classroom.Scraper.Discover.{
  seed_of, course_seed, session_seed, seed_less, discover_targets, spread,
}
use classroom.Store.Seeds.{TargetSeed, validate_seed, validate_seeds, attributes_of}
use classroom.Store.Merge.{policy_seed_lem}

module _ {A : Type 0} (P : A → Type 0) (less : A → A → Bool) where
  insert_sorted-All : (x : A) (l : List A) → P x → All P l → All P (insert_sorted less x l)
  unfolding insert_sorted
  insert_sorted-All x [] p ps = (p, tt)
  insert_sorted-All x (y ∷ ys) p (q, qs) = elim (Bool-cases (less y x)) [
    | inl e ↦ rw e (q, insert_sorted-All x ys p qs)
    | inr e ↦ rw e (p, (q, qs))
  ]

  pub sort_stable-All : (l : List A) → All P l → All P (sort_stable less l)
  unfolding sort_stable
  sort_stable-All [] ps = tt
  sort_stable-All (x ∷ xs) (p, ps) =
      insert_sorted-All x (sort_stable less xs) p (sort_stable-All xs ps)

pub All-map :
    {A B : Type 0} (P : A → Type 0) (Q : B → Type 0) (f : A → B)
    → ((x : A) → P x → Q (f x))
    → (l : List A) → All P l
    → All Q (map f l)
All-map P Q f g [] ps = tt
All-map P Q f g (x ∷ xs) (p, ps) = (g x p, All-map P Q f g xs ps)

module _ (c : Codec) where
  abbrev Passes : TargetSeed → Type 0
  Passes s = validate_seed (is_blank c) c.valid_json s ≡ none

  validate_seeds-All :
      (ss : List TargetSeed) → All Passes ss → validate_seeds (is_blank c) c.valid_json ss ≡ none
  unfolding validate_seeds
  validate_seeds-All [] ps = refl
  validate_seeds-All (s ∷ ss) (p, ps) = let rest = validate_seeds-All ss ps in ground arith

  later-Passes :
      (s : TargetSeed) (n : ℕ) → Passes s → Passes (record s { next_run_at = s.next_run_at + n })
  unfolding validate_seed
  later-Passes s n p = ground arith

  spread-All :
      (jitter : ℕ → ℕ) (i : ℕ) (ss : List TargetSeed)
      → All Passes ss
      → All Passes (spread jitter i ss)
  unfolding spread
  spread-All jitter i [] ps = tt
  spread-All jitter i (s ∷ ss) (p, ps) =
      (later-Passes s (jitter i) p, spread-All jitter (i + 1) ss ps)

  valid_ids-All :
      {A : Type 0} (id : A → String) (seen : List String) (xs : List A)
      → valid_ids c seen (map id xs) ≡ true
      → All (λ x. is_blank c (id x) ≡ false) xs
  unfolding valid_ids
  valid_ids-All id seen [] h = tt
  valid_ids-All id seen (x ∷ xs) h =
      (ground arith, valid_ids-All id (id x ∷ seen) xs (ground arith))

module _ (c : Codec) (laws : IsLawful c) (parent : TargetRef) (now : ℕ)
    (host : is_blank c parent.host ≡ false) (clock : 0 < now) where
  seed_of-Passes :
      (r : TargetRef) (attributes : String) (priority : ℕ) (status : SessionStatus)
      → validate_ref (is_blank c) r ≡ none
      → c.valid_json attributes ≡ true
      → Passes c (seed_of r attributes priority status now)
  unfolding seed_of
  seed_of-Passes r attributes priority status ok json =
      let s = seed_of r attributes priority status now in
      (policy_seed_lem (is_blank c) c.valid_json status s 1 ok (λ e. omega (arith, clock, e)) given
        (refl, refl, refl, refl)).0
    where
      given : c.valid_json (attributes_of (seed_of r attributes priority status now)) ≡ true
      given = elim (Bool-cases (str_eq attributes "")) [
        | inl e ↦ rw e laws.empty_object_valid
        | inr e ↦ rw e json
      ]

  course_seed-Passes :
      (x : CourseSummary) → is_blank c x.course_id ≡ false → Passes c (course_seed c parent now x)
  unfolding course_seed validate_ref
  course_seed-Passes x id = seed_of-Passes _ _ _ _ ok (laws.course_attributes_valid x.name x.status)
    where
      ok :
          validate_ref (is_blank c) (record {
            host = parent.host;
            kind = course_detail;
            resource_key = x.course_id;
            parent_key = "";
          })
          ≡ none
      ok = ground arith

  session_seed-Passes :
      (x : SessionSummary)
      → is_blank c x.session_id ≡ false
      → Passes c (session_seed c parent now x)
  unfolding session_seed validate_ref
  session_seed-Passes x id = seed_of-Passes _ _ _ _ ok (laws.session_attributes_valid x.status)
    where
      ok :
          validate_ref (is_blank c) (record {
            host = parent.host;
            kind = session_detail;
            resource_key = x.session_id;
            parent_key = parent.resource_key;
          })
          ≡ none
      ok = ground arith

  course_ids-All :
      (v : Value) (x : Validated)
      → validate_payload c course_catalog v parent.resource_key ≡ some x
      → All (Passes c) (discover_targets c (record parent { kind = course_catalog }) v now)
  unfolding validate_payload discover_targets
  course_ids-All (courses xs) x h = sort_stable-All (Passes c) (seed_less c) _ (
      All-map (λ (y : CourseSummary). is_blank c y.course_id ≡ false) (Passes c)
        (course_seed c parent now) course_seed-Passes xs
        (valid_ids-All c (λ (y : CourseSummary). y.course_id) [] xs (ground arith)))
  course_ids-All (course d) x h = tt
  course_ids-All (session d) x h = tt
  course_ids-All (profiles xs) x h = tt
  course_ids-All unrecognized x h = tt

  session_ids-All :
      (v : Value) (x : Validated)
      → validate_payload c course_detail v parent.resource_key ≡ some x
      → All (Passes c) (discover_targets c (record parent { kind = course_detail }) v now)
  unfolding validate_payload discover_targets
  session_ids-All (courses xs) x h = tt
  session_ids-All (course d) x h = sort_stable-All (Passes c) (seed_less c) _ (
      All-map (λ (y : SessionSummary). is_blank c y.session_id ≡ false) (Passes c)
        (session_seed c parent now) session_seed-Passes d.sessions
        (valid_ids-All c (λ (y : SessionSummary). y.session_id) [] d.sessions (ground arith)))
  session_ids-All (session d) x h = tt
  session_ids-All (profiles xs) x h = tt
  session_ids-All unrecognized x h = tt

  discovered-All :
      (k : SnapshotKind) (v : Value) (x : Validated)
      → validate_payload c k v parent.resource_key ≡ some x
      → All (Passes c) (discover_targets c (record parent { kind = k }) v now)
  unfolding discover_targets
  discovered-All course_catalog v x h = course_ids-All v x h
  discovered-All course_detail v x h = session_ids-All v x h
  discovered-All session_detail v x h = tt
  discovered-All student_profiles v x h = tt
  discovered-All (other s) v x h = tt

  -- Every seed that a run makes of a validated page, spread over time, passes the checks of `upsertSeeds`,
  -- so the children of a validated page never make its commit fail.
  pub discovered_is_valid :
      (v : Value) (x : Validated) (jitter : ℕ → ℕ)
      → validate_payload c parent.kind v parent.resource_key ≡ some x
      → validate_seeds (is_blank c) c.valid_json (spread jitter 0 (discover_targets c parent v now))
        ≡ none
  discovered_is_valid v x jitter h =
      validate_seeds-All c _ (spread-All c jitter 0 _ (discovered-All parent.kind v x h))
