-- ===== src/Scraper/Run/Input.antt =====
-- The input that `RunClaimedWithRelease` of internal/scraper/coordinator.go makes for `Commit`.
use classroom.Base.{
  ℕ, suc, ◌*◌, ◌<◌, ◌≤◌, ◌≡◌, refl, ◌⊎◌, inl, inr, Bool, true, false, ◌||◌, ◌&&◌, not, String,
  Option, none, some, ◌==◌, str_eq, arith, Option-cases, Bool-cases,
}
use classroom.Domain.Snapshot.{SnapshotKind}
use classroom.Scraper.Codec.{Codec, Value, is_blank, IsLawful}
use classroom.Scraper.Policy.Interval.{IsBounded, next_schedule_bounds}
use classroom.Scraper.Fetch.{
  Fetched, FetchFailure, not_modified_error, canceled, deadline, other_failure, upstream_status,
  fetch_failure, classify_fetch, classify_status, classify_kind, policy_for_target,
  failure_next_run,
}
use classroom.Scraper.Validation.{Validated, validate_payload, is_suspicious}
use classroom.Scraper.Canonical.{Canonical, canonicalize, canonical_value}
use classroom.Scraper.Assess.{
  Assessment, Previous, Confirmation, accept, assess_value, assess, same_hash, same_raw_body,
  previous_count, previous_ids, confirm_change,
}
use classroom.Scraper.Run.{Inputs, assess_inputs, next_of, commit_input, owner_of, schedule_outcome}
use classroom.Store.Target.{Target}
use classroom.Store.Seeds.{second}
use classroom.Store.Rows.{
  RunOutcome, changed, is_known, is_content_change, successful, valid_commit,
}

-- Content of an accepted page: it hashes, encodes and parses.
abbrev HasContent : Codec → String → String → Type 0
HasContent c hash payload =
    (str_eq hash "" ≡ false) × (str_eq payload "" ≡ false) × (c.valid_json payload ≡ true)

-- An assessment has a known outcome, and its content has changed only as a `changed` outcome with content.
abbrev IsCommittable : Codec → Assessment → Type 0
IsCommittable c a =
    (is_known a.outcome ≡ true)
    × ((a.changed_content ≡ false)
        ⊎ ((a.changed_content ≡ true)
            × (a.outcome ≡ changed)
            × HasContent c a.content_hash a.payload))

module _ (c : Codec) (laws : IsLawful c) where
  encoded-HasContent : (v : Value) → HasContent c (c.hash (c.encode v)) (c.encode v)
  encoded-HasContent v =
      (laws.hash_nonzero (c.encode v), laws.encode_nonempty v, laws.encode_valid v)

  canonicalize-HasContent :
      (max_bytes : ℕ) (k : SnapshotKind) (v : Value) (x : Canonical)
      → canonicalize c max_bytes k v ≡ some x
      → HasContent c x.hash x.payload
  unfolding canonicalize
  canonicalize-HasContent max_bytes k v x h = elim (Option-cases (canonical_value c k v)) [
    | inl e ↦ ground arith
    | inr (normal, e) ↦ let content = encoded-HasContent normal in ground arith
  ]

  accept-IsCommittable :
      (t : Target) (f : Fetched) (x : Canonical) (v : Validated) (b : Bool)
      → HasContent c x.hash x.payload
      → IsCommittable c (accept t f x v b)
  unfolding accept
  accept-IsCommittable t f x v b h = elim (Bool-cases (same_hash t x.hash)) [
    | inl e ↦ ground arith
    | inr e ↦ ground arith
  ]

  value-IsCommittable :
      (max_bytes : ℕ) (parser : String) (t : Target) (p : Option Previous) (f : Fetched)
      (n : Confirmation)
      → IsCommittable c (assess_value c max_bytes parser t p f n)
  unfolding assess_value
  value-IsCommittable max_bytes parser t p f n = elim (Bool-cases (same_raw_body parser p f)) [
    | inl e ↦ rw (e, assess_value) (refl, inl refl)
    | inr e ↦ elim (Option-cases (canonicalize c max_bytes t.ref.kind f.value)) [
      | inl k ↦ rw (e, k, assess_value) (refl, inl refl)
      | inr (x, k) ↦
          elim (Option-cases (validate_payload c t.ref.kind f.value t.ref.resource_key)) [
            | inl j ↦ rw (e, k, j, assess_value) (refl, inl refl)
            | inr (v, j) ↦
                let content = canonicalize-HasContent max_bytes t.ref.kind f.value x k in
                elim (Bool-cases
                  (is_suspicious v (previous_count t) (previous_ids c t.ref.kind p))) [
                    | inr b ↦
                        rw (e, k, j, b, assess_value) (accept-IsCommittable t f x v false content)
                    | inl b ↦ elim (Option-cases (confirm_change c max_bytes t.ref.kind x f n)) [
                      | inl y ↦
                          rw (e, k, j, b, y, assess_value)
                            (accept-IsCommittable t f x v true content)
                      | inr (code, y) ↦ rw (e, k, j, b, y, assess_value) (refl, inl refl)
                    ]
                  ]
          ]
    ]
  ]

  classified_is_known : (e : Option FetchFailure) → is_known (classify_fetch e).outcome ≡ true
  unfolding classify_fetch classify_status classify_kind
  classified_is_known e = ground arith

  assess-IsCommittable :
      (max_bytes : ℕ) (parser : String) (t : Target) (p : Option Previous) (f : Fetched)
      (e : Option FetchFailure) (n : Confirmation)
      → IsCommittable c (assess c max_bytes parser t p f e n)
  unfolding assess
  assess-IsCommittable max_bytes parser t p f none n = value-IsCommittable max_bytes parser t p f n
  assess-IsCommittable max_bytes parser t p f (some not_modified_error) n =
      elim (Option-cases t.current_snapshot_id) [
        | inl e ↦ rw e (refl, inl refl)
        | inr (id, e) ↦ rw e (refl, inl refl)
      ]
  assess-IsCommittable max_bytes parser t p f (some canceled) n = (refl, inl refl)
  assess-IsCommittable max_bytes parser t p f (some deadline) n = (refl, inl refl)
  assess-IsCommittable max_bytes parser t p f (some other_failure) n = (refl, inl refl)
  assess-IsCommittable max_bytes parser t p f (some (upstream_status s r)) n =
      (classified_is_known (some (upstream_status s r)), inl refl)
  assess-IsCommittable max_bytes parser t p f (some (fetch_failure k)) n =
      (classified_is_known (some (fetch_failure k)), inl refl)

-- The intervals of a target's row are positive and in order.
abbrev pub HasIntervals : Target → Type 0
HasIntervals t = (0 < t.min_interval) × (t.min_interval ≤ t.max_interval) × (0 < t.current_interval)

pub policy-IsBounded :
    (c : Codec) (t : Target)
    → HasIntervals t
    → IsBounded (policy_for_target c.status_of_attributes t)
unfolding policy_for_target
policy-IsBounded c t (low, order, current) = record {
  low_pos = ground arith;
  ordered = ground arith;
}

failure_next_run_later :
    (full_jitter : ℕ → ℕ) (now : ℕ) (o : RunOutcome) (failures retry_after : ℕ)
    → now ≤ failure_next_run full_jitter now o failures retry_after
unfolding failure_next_run
failure_next_run_later full_jitter now o failures retry_after = ground arith

next_of_positive :
    (c : Codec) (n : Inputs) (t : Target) (a : Assessment)
    → HasIntervals t
    → 0 < n.finished_at
    → (0 < (next_of c n t a).run_at) × (0 < (next_of c n t a).interval)
unfolding next_of
next_of_positive c n t a h clock =
    let (low, high) =
      next_schedule_bounds (policy_for_target c.status_of_attributes t)
        (t.current_interval * second) t.recent_changes (schedule_outcome a.outcome)
        (policy-IsBounded c t h) in
    let low_pos = (policy-IsBounded c t h).low_pos in
    let later =
      failure_next_run_later n.draws.full_jitter n.finished_at a.outcome
        (suc t.consecutive_failures) a.retry_after in
    elim (Bool-cases (successful a.outcome)) [
      | inl e ↦ rw (e, next_of) (omega arith, omega (arith, low, low_pos))
      | inr e ↦ rw (e, next_of) (omega (arith, later), omega arith)
    ]

-- What a claim gives the run: keys, an owner, and a row with intervals; and a clock that has started.
abbrev pub IsClaimedRun : Codec → Inputs → Target → Type 0
IsClaimedRun c n t =
    (0 < t.id)
    × (0 < t.lease_generation)
    × (is_blank c (owner_of t) ≡ false)
    × HasIntervals t
    × (0 < n.started_at)
    × (0 < n.finished_at)

pub nonzero : (n : ℕ) → 0 < n → (n == 0) ≡ false
nonzero n h = ground arith

content_check :
    (c : Codec) (a : Assessment)
    → IsCommittable c a
    → (not a.changed_content
        || (is_content_change a.outcome
            && a.complete
            && not (str_eq a.content_hash "")
            && not (str_eq a.payload "")
            && c.valid_json a.payload))
      ≡ (not a.changed_content || a.complete)
content_check c a (known, inl e) = rw e refl
content_check c a (known, inr (e, o, (hash, payload, json))) =
    rw (e, o, hash, payload, json) (ground arith)

-- A run of a claimed target hands `Commit` an input that its checks accept, whatever upstream has
-- answered, unless the page has changed and its manifest is incomplete: that input is refused.
pub commit_input_is_valid :
    (c : Codec) (n : Inputs) (t : Target)
    → IsLawful c
    → IsClaimedRun c n t
    → valid_commit (is_blank c) c.valid_json (commit_input c n t)
      ≡ (not (assess_inputs c n t).changed_content || (assess_inputs c n t).complete)
unfolding valid_commit commit_input
commit_input_is_valid c n t laws (id, generation, owner, intervals, started, finished) =
    let a = assess_inputs c n t in
    let (run_at, interval) = next_of_positive c n t a intervals finished in
    let ok =
      assess-IsCommittable c laws n.max_bytes n.parser t n.previous n.fetched n.failure
        n.confirmation in
    let known : is_known (commit_input c n t).outcome ≡ true = ok.0 in
    rw
      (
        nonzero t.id id,
        nonzero t.lease_generation generation,
        owner,
        known,
        nonzero n.started_at started,
        nonzero n.finished_at finished,
        nonzero (next_of c n t a).run_at run_at,
        nonzero (next_of c n t a).interval interval,
      )
      (content_check c a ok)
