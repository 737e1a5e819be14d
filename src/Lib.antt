-- ===== src/Lib.antt =====
-- A verification library for the server: the rooms that show a rotating QR code, and the scraper that
-- keeps snapshots of an upstream site in PostgreSQL.
--
-- The room manager (internal/service/room_manager.go) keeps one state per room, under the status machine
-- of internal/domain/room.go. A started room has a worker that fetches codes and, when its session has
-- expired, a recovery loop with backoff; commands come from the API meanwhile, and every change goes to
-- the repository and to the event hub. The scraper's targets (internal/db/snapshot_repository.go) are
-- rows that workers claim under numbered leases; a commit ends a lease, stores a run and, when the
-- content has changed, a new snapshot version. How often a target runs is the policy's
-- (internal/scraper/policy.go). Between the two, a tick of the scheduler (internal/scraper/scheduler.go)
-- claims targets, waits for a permit and hands each to the coordinator (internal/scraper/coordinator.go),
-- which fetches a page through a pool of upstream sessions (internal/warwick/session_pool.go), validates
-- it, compares it with the last snapshot, commits and discovers the children. Changes reach the clients
-- through the event hub (internal/service/event_hub.go); a running room also follows its check-ins
-- (internal/service/session_sync.go).
--
-- Files:
--   Base: what all modules share, the library's names, Boolean tests, lists over native numbers.
--   Domain/Room: internal/domain/room.go; Domain/Room/Lifecycle its edges as a relation.
--   Domain/Snapshot: internal/domain/snapshot.go and internal/domain/data_quality.go.
--   Scraper/Policy: internal/scraper/policy.go; proofs in Interval and Delays below it.
--   Domain/Classroom: the pages of internal/domain/classroom.go and dashboard.go, by the fields that rules
--     read; Domain/Enrichment: internal/domain/enrichment.go, with the proof in Codes.
--   Scraper/Codec: Go's encoding, hashing, text and time functions as one parameter, with its laws.
--   Scraper/Fetch, Validation, Canonical, Assess, Discover, Run: internal/scraper/coordinator.go,
--     validation.go and canonical.go, by classifyFetch and failureNextRun, ValidatePayload and
--     ClassifyChangeAgainst, Canonicalize, the assessment of an answer with confirmChange,
--     discoverTargets, and RunClaimedWithRelease. Proofs: Canonical/Order, Discover/Listed, and below Run
--     Input on what Commit is given, Checks on the CHECKs of the tables, Ending on the run with Commit and
--     ReconcileLifecycle, Quarantine on suspicious changes.
--   Scraper/Scheduler: executeClaimed and RunDue of internal/scraper/scheduler.go; proofs in Waiting, Ticks.
--   Scraper/Refresh: RefreshNow of the same file; proof in Coalesced.
--   Middleware/RateLimit: internal/middleware/ratelimit.go; proofs in Bounds and Bursts.
--   Service/Activity: internal/service/activity_controller.go; proof in Idle.
--   Warwick/Inflight: internal/warwick/inflight.go; proof in Sharing.
--   Service/EventHub: internal/service/event_hub.go; Log its specification, Delivery the refinement.
--   Service/SessionSync: internal/service/session_sync.go; proof in Deltas.
--   Warwick/Sessions and Sessions/Pool: internal/warwick/session_pool.go, by one session and the pool.
--     Proofs: Backoff and Inventory.
--   Rooms/State, Control, Worker, Recovery, Bulk: internal/service/room_manager.go, by the state and
--     emitRoomEvents, the commands (StartRoom, StopRoom, CreateRoom, EnsureSessionRoom, DeleteRoom), the
--     fetch cycle, recoveryLoop, and what is done to all rooms at once. Proofs: Revisions and Trace on the
--     numbers of the events, Commands and Isolation on the commands, Refresh on the cycle, Attempts and
--     Outcomes on the recovery, Shutdown on the bulk operations, Faults on interleavings that go wrong.
--   Store/Target, Seeds, Leases, Presence, Rows, Commit: internal/db/snapshot_repository.go, by the
--     target's row and UPDATE, upsertSeeds, the claims and the lease statements, child presence and
--     ReconcileLifecycle, the tables and row updates of Commit, and Commit. Proofs: Order and Claims, Fence,
--     Handover, Outcome, Replay, Missing and Merge.
--   Store/Hosts, Observe: the same file's AcquireHostPermit with its token bucket, and ObserveHost. Proofs:
--     Bucket and Grants.
--   Tests: the theorems at concrete inputs.
--
-- How it is modelled: a handler is a function from a room's state and what the rooms share to both, with
-- the time, the upstream's answer and the repository's results as arguments. A context is a number, and a
-- cancelled one is in a list. A statement of SQL is a function on the list of rows; a transaction that
-- fails has no result tables, which is its rollback. The CHECK constraints of internal/db/migrations that
-- a commit can violate are tests that it makes. Concurrency is explicit: a room's worker and the commands
-- are steps of a trace, and a round of the recovery says which stops run inside it.
--
-- The hub's owner, the clients of a pool and the workers of a tick run one after the other, in any order;
-- what a run reads (answers, clocks, random draws) is an argument of it.
--
-- Bounds: times are natural numbers of nanoseconds, 0 is Go's zero time; intervals in the tables are
-- seconds. The recovery loop runs over a list of rounds, which is its fuel: that the loop waits for no
-- more than ten attempts is a theorem. So are the rounds of a worker that waits for a permit, with a
-- theorem on how many are enough; a tick's fuel is its limit, and that it never runs out is a theorem.
-- Functions of internal packages that cannot be read as rules,
-- strings.TrimSpace, json.Valid, the size of an encoded notification, are parameters. So is the floating
-- point arithmetic of rates and tokens, with the laws of its order that the limits rely on; the rounding
-- of the numeric columns is left out.
--
-- Not modelled: the jitters of the policy (they are arguments of a run), the retries of the attendance
-- label, pruning and read queries of the store, the heartbeat and the watchdog of the scheduler, the
-- columns that only report (HTTP status, sizes, error texts, updated_at), the ranges of the INTEGER columns
-- and the CHECK constraints that neither a commit's input nor its seeds can violate, the parsing of
-- upstream pages, and the rest of the HTTP layer.
pub mod Base
pub mod Domain
pub mod Middleware
pub mod Scraper
pub mod Rooms
pub mod Service
pub mod Store
pub mod Warwick
pub mod Tests
