-- ===== src/Scraper/Discover.antt =====
-- `discoverTargets` of internal/scraper/coordinator.go: the children that a page lists.
pub mod Listed
use classroom.Base.{ℕ, ◌+◌, Bool, String, Option, none, some, List, [], ◌∷◌, map}
use classroom.Domain.Snapshot.{
  SnapshotKind, course_catalog, course_detail, session_detail, SessionStatus, TargetRef,
  default_priority, unknown,
}
use classroom.Domain.Classroom.{CourseSummary, SessionSummary, CourseDetail, session_status}
use classroom.Scraper.Codec.{Codec, Value, courses, course}
use classroom.Scraper.Policy.{policy_for}
use classroom.Scraper.Canonical.{sort_stable}
use classroom.Store.Target.{Target}
use classroom.Store.Seeds.{TargetSeed}

-- A seed with the policy of its kind and status.
unfoldable pub seed_of : TargetRef → String → ℕ → SessionStatus → ℕ → TargetSeed
seed_of r attributes priority status now =
    let p = policy_for r.kind status in
    record {
      ref = r;
      attributes = attributes;
      priority = priority;
      initial_interval = p.initial;
      min_interval = p.min_interval;
      max_interval = p.max_interval;
      max_serve_age = p.max_serve_age;
      next_run_at = now;
    }

-- `PriorityActiveCourse`.
abbrev pub active_course_priority : ℕ
active_course_priority = 30

unfoldable pub course_seed : Codec → TargetRef → ℕ → CourseSummary → TargetSeed
unfolding seed_of
course_seed c parent now x =
    seed_of
      (record {
        host = parent.host;
        kind = course_detail;
        resource_key = x.course_id;
        parent_key = "";
      })
      (c.course_attributes x.name x.status) active_course_priority (unknown "") now

unfoldable pub session_seed : Codec → TargetRef → ℕ → SessionSummary → TargetSeed
unfolding seed_of default_priority session_status
session_seed c parent now x =
    seed_of
      (record {
        host = parent.host;
        kind = session_detail;
        resource_key = x.session_id;
        parent_key = parent.resource_key;
      })
      (c.session_attributes x.status) (default_priority session_detail (session_status x.status))
      (session_status x.status) now

-- The order of `IdentityKey` among the children of one parent, which differ in the resource key alone.
abbrev pub seed_less : Codec → TargetSeed → TargetSeed → Bool
seed_less c a b = c.before a.ref.resource_key b.ref.resource_key

-- `discoverTargets`, the seeds.
unfoldable pub discover_targets : Codec → TargetRef → Value → ℕ → List TargetSeed
unfolding course_seed session_seed sort_stable
discover_targets c parent value now = elim (parent.kind) [
  | course_catalog ↦ elim value [
    | courses xs ↦ sort_stable (seed_less c) (map (course_seed c parent now) xs)
    | _ ↦ []
  ]
  | course_detail ↦ elim value [
    | course d ↦ sort_stable (seed_less c) (map (session_seed c parent now) d.sessions)
    | _ ↦ []
  ]
  | _ ↦ []
]

-- The references that are seen are those of the seeds.
abbrev pub refs_of : List TargetSeed → List TargetRef
refs_of [] = []
refs_of (s ∷ ss) = s.ref ∷ refs_of ss

-- The loop that spreads the new children over time: `jitter i` is the draw for the child `i`.
unfoldable pub spread : (ℕ → ℕ) → ℕ → List TargetSeed → List TargetSeed
spread jitter i [] = []
spread jitter i (s ∷ ss) =
    record s { next_run_at = s.next_run_at + jitter i } ∷ spread jitter (i + 1) ss
