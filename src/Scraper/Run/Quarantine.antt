-- ===== src/Scraper/Run/Quarantine.antt =====
-- Suspicious changes in `RunClaimedWithRelease` of internal/scraper/coordinator.go.
use classroom.Base.{
  ℕ, ◌≡◌, refl, sym, ◌∙◌, ap, ◌⊎◌, inl, inr, false, String, Option, none, some, List, [], ◌∷◌,
  subst, arith, Option-cases,
}
use classroom.Domain.Snapshot.{SnapshotKind, course_detail, session_detail}
use classroom.Scraper.Codec.{Codec, Value, courses, course, session, profiles, unrecognized}
use classroom.Scraper.Fetch.{Fetched, FetchFailure}
use classroom.Scraper.Validation.{Validated, is_suspicious}
use classroom.Scraper.Canonical.{Canonical, canonicalize, canonical_value, count_records}
use classroom.Scraper.Assess.{Previous, Confirmation, accept, assess_value, assess, previous_count}
use classroom.Scraper.Run.{Inputs, commit_input}
use classroom.Store.Target.{Target}
use classroom.Store.Seeds.{TargetSeed, new_row, merge_row}
use classroom.Store.Leases.{claim_row}
use classroom.Store.Rows.{CommitInput, Store, success_row, failure_row}
use classroom.Store.Commit.{outcome_row}

abbrev pub IsDetail : SnapshotKind → Type 0
IsDetail k = (k ≡ course_detail) ⊎ (k ≡ session_detail)

count_of_course :
    (c : Codec) (max_bytes : ℕ) (value : Value) (x : Canonical)
    → canonicalize c max_bytes course_detail value ≡ some x
    → x.count ≡ 0
unfolding canonicalize canonical_value count_records
count_of_course c max_bytes (courses xs) x h = ground arith
count_of_course c max_bytes (course d) x h = ground arith
count_of_course c max_bytes (session d) x h = ground arith
count_of_course c max_bytes (profiles xs) x h = ground arith
count_of_course c max_bytes unrecognized x h = ground arith

count_of_session :
    (c : Codec) (max_bytes : ℕ) (value : Value) (x : Canonical)
    → canonicalize c max_bytes session_detail value ≡ some x
    → x.count ≡ 0
unfolding canonicalize canonical_value count_records
count_of_session c max_bytes (courses xs) x h = ground arith
count_of_session c max_bytes (course d) x h = ground arith
count_of_session c max_bytes (session d) x h = ground arith
count_of_session c max_bytes (profiles xs) x h = ground arith
count_of_session c max_bytes unrecognized x h = ground arith

count_of_detail :
    (c : Codec) (max_bytes : ℕ) (k : SnapshotKind) (value : Value) (x : Canonical)
    → IsDetail k
    → canonicalize c max_bytes k value ≡ some x
    → x.count ≡ 0
count_of_detail c max_bytes k value x (inl e) h =
    count_of_course c max_bytes value x (ap (λ j. canonicalize c max_bytes j value) (sym e) ∙ h)
count_of_detail c max_bytes k value x (inr e) h =
    count_of_session c max_bytes value x (ap (λ j. canonicalize c max_bytes j value) (sym e) ∙ h)

-- So is the count in every assessment of such a page.
assess-count :
    (c : Codec) (max_bytes : ℕ) (parser : String) (t : Target) (p : Option Previous) (f : Fetched)
    (e : Option FetchFailure) (n : Confirmation)
    → IsDetail t.ref.kind
    → (assess c max_bytes parser t p f e n).count ≡ 0
unfolding assess assess_value accept
assess-count c max_bytes parser t p f none n d =
    elim (Option-cases (canonicalize c max_bytes t.ref.kind f.value)) [
      | inl k ↦ ground arith
      | inr (x, k) ↦
          let zero_count = count_of_detail c max_bytes t.ref.kind f.value x d k in ground arith
    ]
assess-count c max_bytes parser t p f (some e) n d = ground arith

-- What happens to a target's row: a claim, a seed of a parent's page, or the commit of a run.
pub data Visit : Type 0 where
  claims : ℕ → String → ℕ → Visit
  seeds : TargetSeed → Visit
  runs : Inputs → Store → Visit

abbrev pub visited : Codec → Visit → Target → Target
visited c (claims now worker lease) t = claim_row now worker lease t
visited c (seeds s) t = merge_row s t
visited c (runs n s) t = outcome_row (commit_input c n t) s t t

unfoldable pub visited_all : Codec → List Visit → Target → Target
visited_all c [] t = t
visited_all c (v ∷ vs) t = visited_all c vs (visited c v t)

outcome_row-ref : (i : CommitInput) (s : Store) (t : Target) → (outcome_row i s t t).ref ≡ t.ref
unfolding outcome_row success_row failure_row
outcome_row-ref i s t = ground arith

outcome_row-count :
    (c : Codec) (n : Inputs) (s : Store) (t : Target)
    → IsDetail t.ref.kind
    → previous_count t ≡ 0
    → previous_count (outcome_row (commit_input c n t) s t t) ≡ 0
unfolding commit_input outcome_row success_row failure_row
outcome_row-count c n s t d h =
    let count =
      assess-count c n.max_bytes n.parser t n.previous n.fetched n.failure n.confirmation d in
    ground arith

visited-ref : (c : Codec) (v : Visit) (t : Target) → (visited c v t).ref ≡ t.ref
unfolding claim_row merge_row
visited-ref c (claims now worker lease) t = refl
visited-ref c (seeds s) t = refl
visited-ref c (runs n s) t = outcome_row-ref (commit_input c n t) s t

visited-count :
    (c : Codec) (v : Visit) (t : Target)
    → IsDetail t.ref.kind
    → previous_count t ≡ 0
    → previous_count (visited c v t) ≡ 0
unfolding claim_row merge_row
visited-count c (claims now worker lease) t d h = h
visited-count c (seeds s) t d h = h
visited-count c (runs n s) t d h = outcome_row-count c n s t d h

visited_all-count :
    (c : Codec) (vs : List Visit) (t : Target)
    → IsDetail t.ref.kind
    → previous_count t ≡ 0
    → previous_count (visited_all c vs t) ≡ 0
unfolding visited_all
visited_all-count c [] t d h = h
visited_all-count c (v ∷ vs) t d h =
    visited_all-count c vs (visited c v t)
      (subst (λ r. IsDetail r.kind) (sym (visited-ref c v t)) d) (visited-count c v t d h)

-- From the seed of a course's or a session's page on, through every sequence of claims, seeds and committed
-- runs, the count that the row keeps is 0, whatever the pages list, and so no change of the page is ever
-- suspicious: it may lose all its records.
pub detail_is_never_suspicious :
    (c : Codec) (vs : List Visit) (id : ℕ) (s : TargetSeed)
    → IsDetail s.ref.kind
    → (previous_count (visited_all c vs (new_row id s)) ≡ 0)
      × ((v : Validated) (ids : Option (List String))
          → is_suspicious v (previous_count (visited_all c vs (new_row id s))) ids ≡ false)
unfolding is_suspicious new_row
detail_is_never_suspicious c vs id s d =
    let none_kept = visited_all-count c vs (new_row id s) d refl in
    (none_kept, λ v ids. rw none_kept refl)
