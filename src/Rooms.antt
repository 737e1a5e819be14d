-- ===== src/Rooms.antt =====
-- internal/service/room_manager.go and session_sync.go: the QR rooms and their workers.
pub mod State
pub mod Control
pub mod Worker
pub mod Recovery
pub mod Revisions
pub mod Bulk
pub mod Shutdown
pub mod Commands
pub mod Isolation
pub mod Refresh
pub mod Attempts
pub mod Trace
pub mod Outcomes
pub mod Faults
