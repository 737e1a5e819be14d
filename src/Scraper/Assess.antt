-- ===== src/Scraper/Assess.antt =====
-- The middle of `RunClaimedWithRelease` in internal/scraper/coordinator.go: what a run makes of the fetch,
-- with the confirmation of a suspicious change. Reports (status codes, request ids) are left out.
use classroom.Base.{
  ℕ, Bool, true, false, ◌||◌, ◌&&◌, not, String, Option, none, some, List, [], ◌∷◌, leb, ◌==◌,
  str_eq, if◌then◌else◌,
}
use classroom.Domain.Snapshot.{SnapshotKind, Severity, warning, fatal, Violation, ValidationReport}
use classroom.Scraper.Codec.{Codec}
use classroom.Scraper.Fetch.{Fetched, FetchFailure, not_modified_error, classify_fetch}
use classroom.Scraper.Validation.{Validated, validate_payload, is_suspicious, ids_of}
use classroom.Scraper.Canonical.{Canonical, canonicalize}
use classroom.Store.Target.{Target}
use classroom.Store.Rows.{
  RunOutcome, changed, unchanged, not_modified, invalid_payload, quarantined,
}

-- `buildSnapshotManifest` and `manifestFromEvidence`, by `Complete`.
abbrev pub is_complete : Fetched → ℕ → Bool
is_complete f parsed =
    (f.expected_pages == 0 || leb f.expected_pages f.fetched_pages)
    && (f.reported_count == 0 || parsed == f.reported_count)

abbrev pub violation : String → Severity → String → Violation
violation code severity message = record {
  code = code;
  severity = severity;
  path = "";
  message = message;
}

abbrev pub warning_violations : List String → List Violation → List Violation
warning_violations [] rest = rest
warning_violations (w ∷ ws) rest = violation w warning "" ∷ warning_violations ws rest

-- `buildValidationReport`; the texts of the warnings are left out.
unfoldable pub build_report : Bool → List String → Bool → ValidationReport
build_report complete warnings confirm =
    let asked =
      if confirm
      then violation "suspicious_change" warning
          "record count change requires independent confirmation"
        ∷ []
      else [] in
    let warned = warning_violations warnings asked in
    record {
      complete = complete;
      requires_confirmation = confirm;
      violations =
          if complete
          then warned
          else violation "incomplete_manifest" fatal "candidate collection is incomplete" ∷ warned;
    }

-- What the coordinator reads of the previous snapshot.
pub record Previous : Type 0 where
  pub raw_body_hash : String
  pub parser_version : String
  pub payload : String

-- The second fetch: the source has none, it fails, or it gives a value.
pub data Confirmation : Type 0 where
  unavailable failed : Confirmation
  refetched : Fetched → Confirmation

-- `snapshotIDs`.
unfoldable pub snapshot_ids : Codec → SnapshotKind → String → Option (List String)
snapshot_ids c kind payload =
    if str_eq payload ""
    then none
    else elim (c.decode kind payload) [ none ↦ none | some v ↦ ids_of kind v ]

-- `confirmChange`: `none` when the second fetch confirms the first, else the rejection code.
unfoldable pub confirm_change :
    Codec → ℕ → SnapshotKind → Canonical → Fetched → Confirmation → Option String
confirm_change c max_bytes kind first fetched unavailable = some "confirmation_unavailable"
confirm_change c max_bytes kind first fetched failed = some "confirmation_fetch_failed"
confirm_change c max_bytes kind first fetched (refetched second) =
    elim (canonicalize c max_bytes kind second.value) [
      | none ↦ some "confirmation_parse_failed"
      | some again ↦
          if str_eq again.hash first.hash && again.count == first.count
          then none
          else if not (str_eq second.raw_body_hash "")
              && str_eq second.raw_body_hash fetched.raw_body_hash
              && not (str_eq again.hash first.hash)
              && leb fetched.fetched_pages 1
              && leb second.fetched_pages 1
          then some "confirmation_parser_nondeterminism"
          else some "confirmation_mismatch"
    ]

-- What is known at the end of the middle part.
pub record Assessment : Type 0 where
  pub outcome : RunOutcome
  pub error_kind : String
  pub rejection : String
  pub retry_after : ℕ
  pub payload : String
  pub content_hash : String
  pub count : ℕ
  pub changed_content : Bool
  pub complete : Bool
  pub report : ValidationReport

-- `domain.ValidationReport{}`.
abbrev pub no_report : ValidationReport
no_report = record { complete = false; requires_confirmation = false; violations = [] }

abbrev pub without_content : RunOutcome → String → ℕ → Assessment
without_content outcome kind retry = record {
  outcome = outcome;
  error_kind = kind;
  rejection = kind;
  retry_after = retry;
  payload = "";
  content_hash = "";
  count = 0;
  changed_content = false;
  complete = false;
  report = no_report;
}

-- The raw-hash fast path.
unfoldable pub same_raw_body : String → Option Previous → Fetched → Bool
same_raw_body parser none f = false
same_raw_body parser (some p) f =
    not (str_eq p.raw_body_hash "")
    && str_eq f.raw_body_hash p.raw_body_hash
    && str_eq p.parser_version parser
    && leb f.fetched_pages 1

abbrev pub same_hash : Target → String → Bool
same_hash t hash = elim (t.current_content_hash) [ none ↦ false | some old ↦ str_eq hash old ]

-- The end of the parsing path, of a change that is not suspicious or was confirmed.
unfoldable pub accept : Target → Fetched → Canonical → Validated → Bool → Assessment
accept t f canonical v suspicious =
    let complete = is_complete f v.record_count in
    let same = same_hash t canonical.hash in
    record {
      outcome = if same then unchanged else changed;
      error_kind = "";
      rejection = "";
      retry_after = 0;
      payload = if same then "" else canonical.payload;
      content_hash = if same then "" else canonical.hash;
      count = canonical.count;
      changed_content = not same;
      complete = complete;
      report = build_report complete v.warnings suspicious;
    }

-- A quarantined run commits no content; its evidence is in the candidates.
abbrev pub quarantine : String → ℕ → Assessment
quarantine code count = record (without_content quarantined "confirmation" 0) {
  rejection = code;
  count = count;
}

abbrev pub previous_ids : Codec → SnapshotKind → Option Previous → Option (List String)
previous_ids c kind none = none
previous_ids c kind (some p) = snapshot_ids c kind p.payload

abbrev pub previous_count : Target → ℕ
previous_count t = elim (t.current_snapshot_id) [ none ↦ 0 | some id ↦ t.previous_record_count ]

-- The branch of a fetch without error.
unfoldable pub assess_value :
    Codec → ℕ → String → Target → Option Previous → Fetched → Confirmation → Assessment
unfolding accept confirm_change same_raw_body snapshot_ids
assess_value c max_bytes parser t previous f confirmation =
    if same_raw_body parser previous f
    then without_content unchanged "" 0
    else elim (canonicalize c max_bytes t.ref.kind f.value) [
      | none ↦ without_content invalid_payload "canonicalization" 0
      | some canonical ↦ elim (validate_payload c t.ref.kind f.value t.ref.resource_key) [
        | none ↦ without_content invalid_payload "validation" 0
        | some v ↦
            if is_suspicious v (previous_count t) (previous_ids c t.ref.kind previous)
            then elim (confirm_change c max_bytes t.ref.kind canonical f confirmation) [
              | some code ↦ quarantine code canonical.count
              | none ↦ accept t f canonical v true
            ]
            else accept t f canonical v false
      ]
    ]

-- A 304 needs a snapshot to be about.
abbrev pub assess_not_modified : Target → Assessment
assess_not_modified t = elim (t.current_snapshot_id) [
  | none ↦ without_content invalid_payload "not_modified_without_snapshot" 0
  | some id ↦ without_content not_modified "" 0
]

-- All branches, by the error of the fetch.
unfoldable pub assess :
    Codec
    → ℕ
    → String
    → Target
    → Option Previous
    → Fetched
    → Option FetchFailure
    → Confirmation
    → Assessment
unfolding assess_value classify_fetch
assess c max_bytes parser t previous f none confirmation =
    assess_value c max_bytes parser t previous f confirmation
assess c max_bytes parser t previous f (some not_modified_error) confirmation =
    assess_not_modified t
assess c max_bytes parser t previous f (some failure) confirmation =
    let k = classify_fetch (some failure) in without_content k.outcome k.error_kind k.retry_after
