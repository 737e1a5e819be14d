-- ===== src/Domain.antt =====
-- internal/domain: the types and the pure rules that the other packages share.
pub mod Snapshot
pub mod Room
pub mod Classroom
pub mod Enrichment
