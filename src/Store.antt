-- ===== src/Store.antt =====
-- internal/db/snapshot_repository.go: the tables of the scraper and the statements that change them.
pub mod Target
pub mod Seeds
pub mod Leases
pub mod Presence
pub mod Rows
pub mod Commit
pub mod Order
pub mod Claims
pub mod Fence
pub mod Handover
pub mod Outcome
pub mod Missing
pub mod Replay
pub mod Merge
pub mod Hosts
pub mod Observe
pub mod Bucket
pub mod Grants
