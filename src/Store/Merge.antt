-- ===== src/Store/Merge.antt =====
-- What the seeds of a page become: the checks, the removal of doubles, and the merge with a row that is
-- there, in `upsertSeeds` of internal/db/snapshot_repository.go.
use classroom.Base.{
  ℕ, ◌≤◌, ◌<◌, ◌≡◌, ◌≢◌, refl, ◌∙◌, ap, Bool, true, false, ◌||◌, String, Option, none, some, List,
  [], ◌∷◌, eq_iff, if◌then◌else◌, arith, inl, inr, Bool-cases,
}
use classroom.Domain.Snapshot.{
  SnapshotKind, SessionStatus, done, not_started, course_catalog, course_detail, session_detail,
  student_profiles, other, TargetRef, kind_eq, ref_eq, validate_ref, valid_kind,
}
use classroom.Scraper.Policy.{Policy, policy_for, session_policy}
use classroom.Store.Target.{Target}
use classroom.Store.Seeds.{
  TargetSeed, validate_seed, occurs, dedup, merge_row, new_row, attributes_of,
}

kind_eq_iff : (a b : SnapshotKind) → kind_eq a b ≡ true → a ≡ b
kind_eq_iff course_catalog course_catalog h = refl
kind_eq_iff course_detail course_detail h = refl
kind_eq_iff session_detail session_detail h = refl
kind_eq_iff student_profiles student_profiles h = refl
kind_eq_iff (other s) (other t) h = ap other ((eq_iff s t).0 h)
kind_eq_iff a b h = ground arith

ref_eq_sound : (a b : TargetRef) → ref_eq a b ≡ true → a ≡ b
ref_eq_sound a b h = ground (
  arith,
  kind_eq_iff a.kind b.kind,
  eq_iff a.host b.host,
  eq_iff a.parent_key b.parent_key,
  eq_iff a.resource_key b.resource_key,
)

-- No key occurs twice.
abbrev pub IsDistinct : List TargetSeed → Type 0
IsDistinct [] = Unit
IsDistinct (s ∷ ss) = (occurs s.ref ss ≡ false) × IsDistinct ss

-- The last seed of a key.
abbrev pub find_last : TargetRef → List TargetSeed → Option TargetSeed
find_last r [] = none
find_last r (s ∷ ss) = elim (find_last r ss) [
  | some x ↦ some x
  | none ↦ if ref_eq s.ref r then some s else none
]

find_last-none :
    (r : TargetRef) (ss : List TargetSeed) → find_last r ss ≡ none → occurs r ss ≡ false
unfolding occurs
find_last-none r [] h = refl
find_last-none r (s ∷ ss) h = ground (arith, find_last-none r ss)

occurs-dedup : (r : TargetRef) (ss : List TargetSeed) → occurs r (dedup ss) ≡ occurs r ss
unfolding occurs dedup
occurs-dedup r [] = refl
occurs-dedup r (s ∷ ss) = elim (Bool-cases (occurs s.ref ss)) [
  | inl e ↦ rw e (occurs-dedup r ss ∙ ground (arith, ref_eq_sound s.ref r, e))
  | inr e ↦ rw e (ap (λ b. ref_eq s.ref r || b) (occurs-dedup r ss))
]

dedup-IsDistinct : (ss : List TargetSeed) → IsDistinct (dedup ss)
unfolding dedup
dedup-IsDistinct [] = tt
dedup-IsDistinct (s ∷ ss) = elim (Bool-cases (occurs s.ref ss)) [
  | inl e ↦ rw e (dedup-IsDistinct ss)
  | inr e ↦ rw e (occurs-dedup s.ref ss ∙ e, dedup-IsDistinct ss)
]

find_last-dedup : (r : TargetRef) (ss : List TargetSeed) → find_last r (dedup ss) ≡ find_last r ss
unfolding dedup
find_last-dedup r [] = refl
find_last-dedup r (s ∷ ss) = elim (Bool-cases (occurs s.ref ss)) [
  | inl e ↦
      rw e (find_last-dedup r ss ∙ ground (arith, ref_eq_sound s.ref r, e, find_last-none r ss))
  | inr e ↦ rw (e, find_last-dedup r ss) refl
]

abbrev Sound : Policy → Type 0
Sound p =
    (1_000_000_000 ≤ p.min_interval)
    × (p.min_interval ≤ p.initial)
    × (p.initial ≤ p.max_interval)
    × (p.max_interval ≤ p.max_serve_age)
    × (0 < p.initial)

session_bounds : (status : SessionStatus) → Sound (session_policy status)
unfolding session_policy
session_bounds SessionStatus.active =
    (omega arith, omega arith, omega arith, omega arith, omega arith)
session_bounds done = (omega arith, omega arith, omega arith, omega arith, omega arith)
session_bounds not_started = (omega arith, omega arith, omega arith, omega arith, omega arith)
session_bounds SessionStatus.auth_error =
    (omega arith, omega arith, omega arith, omega arith, omega arith)
session_bounds (SessionStatus.unknown s) =
    (omega arith, omega arith, omega arith, omega arith, omega arith)

kind_bounds :
    (k : SnapshotKind) (status : SessionStatus) → valid_kind k ≡ true → Sound (policy_for k status)
unfolding policy_for valid_kind
kind_bounds course_catalog status v =
    (omega arith, omega arith, omega arith, omega arith, omega arith)
kind_bounds course_detail status v =
    (omega arith, omega arith, omega arith, omega arith, omega arith)
kind_bounds session_detail status v = session_bounds status
kind_bounds student_profiles status v =
    (omega arith, omega arith, omega arith, omega arith, omega arith)
kind_bounds (other s) status v = absurd (clash v)
  where
    clash : false ≡ true → ⊥
    clash e = cc

valid_ref_kind :
    (blank : String → Bool) (r : TargetRef) → validate_ref blank r ≡ none → valid_kind r.kind ≡ true
unfolding validate_ref
valid_ref_kind blank r v = ground arith

-- `upsertSeeds` hands every conflict key to the statement once, with the last seed of that key and no
-- key lost.
pub dedup_lem :
    (ss : List TargetSeed)
    → IsDistinct (dedup ss) × ((r : TargetRef) → find_last r (dedup ss) ≡ find_last r ss)
dedup_lem ss = (dedup-IsDistinct ss, λ r. find_last-dedup r ss)

-- A row that meets a seed with ordered bounds has its interval within the seed's bounds, and is neither
-- less urgent nor due later than before, nor later than the seed.
pub merge_row_bounds :
    (s : TargetSeed) (t : Target)
    → s.min_interval ≤ s.max_interval
    → let u = merge_row s t in
      (u.min_interval ≤ u.current_interval)
      × (u.current_interval ≤ u.max_interval)
      × (u.priority ≤ t.priority)
      × (u.next_run_at ≤ t.next_run_at)
      × (u.next_run_at ≤ s.next_run_at)
unfolding merge_row
merge_row_bounds s t h = (omega arith, omega arith, ground arith, omega arith, omega arith)

-- A seed that takes its four durations from `PolicyFor`, for a valid reference, a time and valid
-- attributes, passes the checks of `upsertSeeds`, and the row made of it has an interval in its bounds.
pub policy_seed_lem :
    (blank valid_json : String → Bool) (status : SessionStatus) (s : TargetSeed) (id : ℕ)
    → validate_ref blank s.ref ≡ none
    → s.next_run_at ≢ 0
    → valid_json (attributes_of s) ≡ true
    → (s.initial_interval ≡ (policy_for s.ref.kind status).initial)
      × (s.min_interval ≡ (policy_for s.ref.kind status).min_interval)
      × (s.max_interval ≡ (policy_for s.ref.kind status).max_interval)
      × (s.max_serve_age ≡ (policy_for s.ref.kind status).max_serve_age)
    → (validate_seed blank valid_json s ≡ none)
      × (0 < (new_row id s).min_interval)
      × ((new_row id s).min_interval ≤ (new_row id s).current_interval)
      × ((new_row id s).current_interval ≤ (new_row id s).max_interval)
      × ((new_row id s).max_interval ≤ (new_row id s).max_serve_age)
unfolding validate_seed new_row
policy_seed_lem blank valid_json status s id v n j (a, b, c, d) =
    let (p, q, r, t, u) = kind_bounds s.ref.kind status (valid_ref_kind blank s.ref v) in
    (ground arith, omega arith, omega arith, omega arith, omega arith)
