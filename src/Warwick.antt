-- ===== src/Warwick.antt =====
-- The upstream client of internal/warwick.
pub mod Inflight
pub mod Sessions
