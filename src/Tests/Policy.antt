-- ===== src/Tests/Policy.antt =====
-- internal/scraper/policy.go at concrete inputs.
use classroom.Base.{◌*◌, ◌^◌, ◌≤◌, ◌≡◌, refl, [], ◌∷◌, false, arith, ◌⊎◌}
use classroom.Domain.Snapshot.{course_detail, active}
use classroom.Scraper.Policy.{
  minute, hour, day, Policy, Schedule, unchanged, not_modified, next_schedule, policy_for,
}
use classroom.Scraper.Policy.Interval.{IsWhole, run, run_quiet_grows}

abbrev course : Policy
course = record {
  initial = hour;
  min_interval = 15 * minute;
  max_interval = day;
  max_serve_age = 2 * day;
}

course-IsWhole : IsWhole course 900 86400
course-IsWhole = record {
  low_is = refl;
  high_is = refl;
  three = omega arith;
  ordered = omega arith;
}

course_is_policy : policy_for course_detail active ≡ course
unfolding policy_for
course_is_policy = refl

ten_quiet_double :
    next_schedule course hour
      (false ∷ false ∷ false ∷ false ∷ false ∷ false ∷ false ∷ false ∷ false ∷ [])
      unchanged
    ≡ record {
      interval = 2 * hour;
      history = false ∷ false ∷ false ∷ false ∷ false ∷ false ∷ false ∷ false ∷ false ∷ false ∷ [];
    }
unfolding next_schedule
ten_quiet_double = refl

abbrev hourly : Schedule
hourly = record { interval = hour; history = [] }

run_quiet_grows_example :
    ((run course hourly (unchanged ∷ not_modified ∷ [])).interval ≡ day)
    ⊎ (hour * 4 ^ 2 ≤ (run course hourly (unchanged ∷ not_modified ∷ [])).interval * 3 ^ 2)
run_quiet_grows_example =
    run_quiet_grows course 900 86400 course-IsWhole hourly (unchanged ∷ not_modified ∷ [])
      (refl, (refl, tt)) (3600, refl, omega arith, omega arith)
