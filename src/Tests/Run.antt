-- ===== src/Tests/Run.antt =====
-- internal/scraper/coordinator.go at concrete inputs: two catalogs, and the pages of a course.
use classroom.Base.{
  ◌*◌, ◌≡◌, refl, inl, String, Bool, true, false, not, ◌||◌, Option, none, some, List, [], ◌∷◌,
  arith,
}
use classroom.Domain.Snapshot.{SessionStatus, course_catalog, validate_ref, valid_kind}
use classroom.Domain.Classroom.{CourseSummary}
use classroom.Scraper.Policy.{hour, day, minute, policy_for}
use classroom.Scraper.Codec.{Codec, Value, courses, course, is_blank, IsLawful}
use classroom.Scraper.Fetch.{Fetched, canceled_fetch}
use classroom.Scraper.Validation.{
  Validated, validated_of, validate_payload, valid_ids, course_warnings, is_suspicious,
}
use classroom.Scraper.Canonical.{canonicalize, canonical_value, sort_stable, insert_sorted}
use classroom.Scraper.Canonical.Order.{swap, canonicalize-Reordered}
use classroom.Scraper.Assess.{
  unavailable, assess, assess_value, accept, same_raw_body, assess_value, previous_count,
}
use classroom.Scraper.Discover.{discover_targets, spread, course_seed, seed_of}
use classroom.Scraper.Discover.Listed.{discovered_is_valid}
use classroom.Scraper.Run.{Inputs, assess_inputs, commit_input, discovered_of, run_claimed, ran}
use classroom.Scraper.Run.Input.{commit_input_is_valid}
use classroom.Scraper.Run.Ending.{run_claimed_ends}
use classroom.Scraper.Run.Quarantine.{Visit, claims, runs, visited_all, detail_is_never_suspicious}
use classroom.Store.Target.{Target, find_target}
use classroom.Store.Seeds.{TargetSeed, new_row, validate_seeds, validate_seed}
use classroom.Store.Leases.{claim_row}
use classroom.Store.Rows.{Store, CommitEvent, find_run, valid_commit, successful}
use classroom.Store.Outcome.{find_held, held_after}
use classroom.Tests.Strings.{str_before, str_before-IsOrder}

abbrev pub codec : Codec
codec = record {
  encode = λ v. "{}";
  decode = λ k s. some (courses []);
  valid_json = λ s. true;
  size = λ s. 2;
  hash = λ s. "h";
  trim = λ s. s;
  before = str_before;
  normalize_time = λ s. s;
  valid_date = λ s. true;
  course_attributes = λ name status. "{}";
  session_attributes = λ status. "{}";
  status_of_attributes = λ s. SessionStatus.active;
}

codec-IsLawful : IsLawful codec
codec-IsLawful = record {
  hash_nonzero = λ s. refl;
  encode_nonempty = λ v. refl;
  encode_valid = λ v. refl;
  course_attributes_valid = λ name status. refl;
  session_attributes_valid = λ status. refl;
  empty_object_valid = refl;
}

abbrev listed : String → CourseSummary
listed id = record { course_id = id; name = "n"; status = "active" }

abbrev pub two : List CourseSummary
two = listed "a" ∷ listed "b" ∷ []

abbrev pub catalog_row : Target
catalog_row = claim_row 9 "w" minute (
    new_row 1 (record {
      ref = record { host = "h"; kind = course_catalog; resource_key = "all"; parent_key = "" };
      attributes = "";
      priority = 40;
      initial_interval = hour;
      min_interval = 15 * minute;
      max_interval = day;
      max_serve_age = 48 * hour;
      next_run_at = 7;
    }))

abbrev page : Value → Fetched
page v = record {
  value = v;
  etag = "";
  last_modified = "";
  cache_control = "";
  raw_body_hash = "r";
  reported_count = 0;
  expected_pages = 0;
  fetched_pages = 1;
}

abbrev pub inputs : Value → Inputs
inputs v = record {
  max_bytes = 100;
  parser = "1";
  started_at = 10;
  finished_at = 11;
  context_done = false;
  fetched = page v;
  failure = none;
  previous = none;
  confirmation = unavailable;
  draws = record { apply_jitter = λ n. n; full_jitter = λ n. n; child_jitter = λ n. n };
}

abbrev pub tables : Target → Store
tables t = record {
  targets = t ∷ [];
  runs = [];
  snapshots = [];
  candidates = [];
  events = [];
  next_target = 2;
  next_run = 4;
  next_snapshot = 6;
}

abbrev small : CommitEvent → Bool
small e = false

commit_input_is_valid_example :
    valid_commit
      (is_blank codec)
      codec.valid_json
      (commit_input codec (inputs (courses two)) catalog_row)
    ≡ (not (assess_inputs codec (inputs (courses two)) catalog_row).changed_content
        || (assess_inputs codec (inputs (courses two)) catalog_row).complete)
unfolding claim_row new_row
commit_input_is_valid_example =
    commit_input_is_valid codec (inputs (courses two)) catalog_row codec-IsLawful (
      omega arith,
      omega arith,
      refl,
      (omega arith, omega arith, omega arith),
      omega arith,
      omega arith,
    )

run_claimed_ends_example :
    (s' : Store) × (run_claimed codec small (inputs (courses two)) catalog_row (tables catalog_row)
      ≡ ran (commit_input codec (inputs (courses two)) catalog_row).outcome s')
    × (find_held 1 s'.targets
        ≡ some (
            held_after
              (commit_input codec (inputs (courses two)) catalog_row)
              (tables catalog_row)
              catalog_row))
unfolding claim_row new_row find_target find_run validate_ref valid_kind validate_seeds
    validate_seed commit_input assess assess_value canonicalize canonical_value validate_payload
    valid_ids accept is_suspicious same_raw_body discovered_of discover_targets spread course_seed
    seed_of sort_stable insert_sorted successful policy_for str_before canceled_fetch
run_claimed_ends_example =
    run_claimed_ends codec small (inputs (courses two)) catalog_row (tables catalog_row) "w"
      codec-IsLawful
      (
        omega arith,
        omega arith,
        refl,
        (omega arith, omega arith, omega arith),
        omega arith,
        omega arith,
      )
      (refl, refl, omega arith) (refl, refl, refl) (refl, refl, refl)

abbrev course_seed_row : TargetSeed
course_seed_row = course_seed codec catalog_row.ref 7 (listed "c")

abbrev course_page : Value
course_page = course (record { course_id = "c"; sessions = [] })

abbrev visits : List Visit
visits =
    claims 9 "w" minute ∷ runs (inputs course_page) (tables catalog_row) ∷ claims 20 "w" minute ∷ []

detail_is_never_suspicious_example :
    (previous_count (visited_all codec visits (new_row 1 course_seed_row)) ≡ 0)
    × ((v : Validated) (ids : Option (List String))
        → is_suspicious v
            (previous_count (visited_all codec visits (new_row 1 course_seed_row)))
            ids
          ≡ false)
unfolding course_seed seed_of
detail_is_never_suspicious_example =
    detail_is_never_suspicious codec visits 1 course_seed_row (inl refl)

discovered_is_valid_example :
    validate_seeds
      (is_blank codec)
      codec.valid_json
      (spread (λ n. n) 0 (discover_targets codec catalog_row.ref (courses two) 11))
    ≡ none
unfolding claim_row new_row validate_payload valid_ids course_warnings
discovered_is_valid_example =
    discovered_is_valid codec codec-IsLawful catalog_row.ref 11 refl (omega arith) (courses two)
      (validated_of course_catalog (courses two) 2 []) (λ n. n) refl

canonicalize-Reordered_example :
    canonicalize codec 100 course_catalog (courses two)
    ≡ canonicalize codec 100 course_catalog (courses (listed "b" ∷ listed "a" ∷ []))
canonicalize-Reordered_example =
    canonicalize-Reordered codec str_before-IsOrder 100 two (listed "b" ∷ listed "a" ∷ [])
      (swap (listed "a") (listed "b") [] refl)
