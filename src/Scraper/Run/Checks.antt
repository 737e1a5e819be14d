-- ===== src/Scraper/Run/Checks.antt =====
-- The rows that a run of internal/scraper/coordinator.go writes satisfy the CHECKs of the tables.
use classroom.Base.{
  ℕ, ◌+◌, ◌*◌, ◌/◌, ◌≤◌, ◌≡◌, refl, inl, inr, true, ◌&&◌, List, [], ◌∷◌, ltb, leb, All, arith,
  Bool-cases,
}
use classroom.Domain.Snapshot.{
  SnapshotKind, SessionStatus, TargetRef, course_catalog, course_detail, session_detail,
  student_profiles, other,
}
use classroom.Domain.Classroom.{CourseSummary, SessionSummary, session_status}
use classroom.Scraper.Codec.{Codec, Value, courses, course, session, profiles, unrecognized}
use classroom.Scraper.Policy.{policy_for}
use classroom.Scraper.Policy.Interval.{next_schedule_bounds}
use classroom.Scraper.Fetch.{policy_for_target}
use classroom.Scraper.Assess.{Assessment}
use classroom.Scraper.Discover.{
  seed_of, course_seed, session_seed, seed_less, discover_targets, spread,
}
use classroom.Scraper.Discover.Listed.{sort_stable-All, All-map}
use classroom.Scraper.Run.{
  Inputs, assess_inputs, next_of, discovered_of, lists_children, has_evidence, candidates_of,
  rejection_disposition, schedule_outcome, commit_input,
}
use classroom.Scraper.Run.Input.{HasIntervals, policy-IsBounded}
use classroom.Store.Target.{Target}
use classroom.Store.Seeds.{second, TargetSeed, duration_seconds, dedup, occurs}
use classroom.Store.Rows.{
  RunOutcome, successful, known_dispositions, row_checks, seed_checks, all_seed_checks,
}
use classroom.Store.Outcome.{PassesChecks}

abbrev Checked : TargetSeed → Type 0
Checked s = seed_checks s ≡ true

all_seed_checks-All : (ss : List TargetSeed) → All Checked ss → all_seed_checks ss ≡ true
unfolding all_seed_checks
all_seed_checks-All [] h = refl
all_seed_checks-All (s ∷ ss) (h, hs) = rw (h, all_seed_checks-All ss hs) refl

dedup-Checked : (ss : List TargetSeed) → All Checked ss → All Checked (dedup ss)
unfolding dedup
dedup-Checked [] h = tt
dedup-Checked (s ∷ ss) (h, hs) = elim (Bool-cases (occurs s.ref ss)) [
  | inl e ↦ rw e (dedup-Checked ss hs)
  | inr e ↦ rw e (h, dedup-Checked ss hs)
]

spread-Checked :
    (jitter : ℕ → ℕ) (i : ℕ) (ss : List TargetSeed)
    → All Checked ss
    → All Checked (spread jitter i ss)
unfolding spread seed_checks
spread-Checked jitter i [] h = tt
spread-Checked jitter i (s ∷ ss) (h, hs) = (h, spread-Checked jitter (i + 1) ss hs)

course_seed-Checked :
    (c : Codec) (parent : TargetRef) (now : ℕ) (x : CourseSummary)
    → Checked (course_seed c parent now x)
unfolding course_seed seed_of policy_for seed_checks
course_seed-Checked c parent now x = refl

session_seed-Checked :
    (c : Codec) (parent : TargetRef) (now : ℕ) (x : SessionSummary)
    → Checked (session_seed c parent now x)
unfolding session_seed seed_of policy_for seed_checks
session_seed-Checked c parent now x = by_status (session_status x.status)
  where
    by_status :
        (s : SessionStatus)
        → let p = policy_for SnapshotKind.session_detail s in
          (ltb 0 (duration_seconds p.initial)
            && ltb 0 (duration_seconds p.min_interval)
            && leb (duration_seconds p.min_interval) (duration_seconds p.max_interval)
            && leb (duration_seconds p.max_interval) (duration_seconds p.max_serve_age))
          ≡ true
    by_status s = ground arith

All-holds : {A : Type 0} (P : A → Type 0) → ((x : A) → P x) → (l : List A) → All P l
All-holds P f [] = tt
All-holds P f (x ∷ xs) = (f x, All-holds P f xs)

-- The children of a page of each kind.
listed-Checked :
    (c : Codec) (parent : TargetRef) (k : SnapshotKind) (v : Value) (now : ℕ)
    → All Checked (discover_targets c (record parent { kind = k }) v now)
unfolding discover_targets
listed-Checked c parent course_catalog (courses xs) now = sort_stable-All Checked (seed_less c) _ (
    All-map (λ (x : CourseSummary). Unit) Checked
      (course_seed c (record parent { kind = course_catalog }) now)
      (λ x u. course_seed-Checked c (record parent { kind = course_catalog }) now x) xs
      (All-holds _ (λ x. tt) xs))
listed-Checked c parent course_catalog (course d) now = tt
listed-Checked c parent course_catalog (session d) now = tt
listed-Checked c parent course_catalog (profiles xs) now = tt
listed-Checked c parent course_catalog unrecognized now = tt
listed-Checked c parent course_detail (course d) now = sort_stable-All Checked (seed_less c) _ (
    All-map (λ (x : SessionSummary). Unit) Checked
      (session_seed c (record parent { kind = course_detail }) now)
      (λ x u. session_seed-Checked c (record parent { kind = course_detail }) now x) d.sessions
      (All-holds _ (λ x. tt) d.sessions))
listed-Checked c parent course_detail (courses xs) now = tt
listed-Checked c parent course_detail (session d) now = tt
listed-Checked c parent course_detail (profiles xs) now = tt
listed-Checked c parent course_detail unrecognized now = tt
listed-Checked c parent session_detail v now = tt
listed-Checked c parent student_profiles v now = tt
listed-Checked c parent (other s) v now = tt

discovered-Checked :
    (c : Codec) (n : Inputs) (t : Target) (o : RunOutcome) → All Checked (discovered_of c n t o)
unfolding discovered_of
discovered-Checked c n t o = elim (Bool-cases (lists_children o)) [
  | inl e ↦ rw e (listed-Checked c t.ref t.ref.kind n.fetched.value n.finished_at)
  | inr e ↦ rw e tt
]

candidates-known : (a : Assessment) → known_dispositions (candidates_of a) ≡ true
unfolding known_dispositions candidates_of rejection_disposition
candidates-known a = elim (Bool-cases (has_evidence a.rejection)) [
  | inl e ↦ ground (arith, e)
  | inr e ↦ ground (arith, e)
]

low_second :
    (c : Codec) (t : Target)
    → HasIntervals t
    → second ≤ (policy_for_target c.status_of_attributes t).min_interval
unfolding policy_for_target
low_second c t (low, order, current) = ground arith

interval_second :
    (c : Codec) (n : Inputs) (t : Target) (a : Assessment)
    → HasIntervals t
    → second ≤ (next_of c n t a).interval
unfolding next_of
interval_second c n t a h =
    let (low, high) =
      next_schedule_bounds (policy_for_target c.status_of_attributes t)
        (t.current_interval * second) t.recent_changes (schedule_outcome a.outcome)
        (policy-IsBounded c t h) in
    let least = low_second c t h in
    elim (Bool-cases (successful a.outcome)) [
      | inl e ↦ rw (e, next_of) (omega (arith, low, least))
      | inr e ↦ rw (e, next_of) (let (_, _, current) = h in omega (arith, current))
    ]

-- A run that ends no earlier than it starts, of a row with intervals, writes rows that satisfy the CHECKs.
pub commit_input-PassesChecks :
    (c : Codec) (n : Inputs) (t : Target)
    → HasIntervals t
    → n.started_at ≤ n.finished_at
    → PassesChecks (commit_input c n t)
unfolding row_checks commit_input
commit_input-PassesChecks c n t h order =
    let a = assess_inputs c n t in
    let known = candidates-known a in
    let least = interval_second c n t a h in
    let times : leb (n.started_at / 1000) (n.finished_at / 1000) ≡ true = ground (arith, order) in
    let seconds : ltb 0 ((next_of c n t a).interval / second) ≡ true = ground (arith, least) in
    let children = spread-Checked n.draws.child_jitter 0 _ (discovered-Checked c n t a.outcome) in
    (rw (times, seconds, known) refl, all_seed_checks-All _ (dedup-Checked _ children))
