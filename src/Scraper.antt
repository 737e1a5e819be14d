-- ===== src/Scraper.antt =====
-- internal/scraper: what to fetch, when, and what to do with the answer.
pub mod Policy
pub mod Codec
pub mod Fetch
pub mod Validation
pub mod Canonical
pub mod Assess
pub mod Discover
pub mod Run
pub mod Refresh
pub mod Scheduler
