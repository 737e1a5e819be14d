-- ===== src/Service.antt =====
-- The services of internal/service beside the room manager.
pub mod Activity
pub mod EventHub
pub mod SessionSync
