-- ===== src/Tests.antt =====
-- The theorems at concrete inputs, and runs of the definitions.
mod Policy
mod Rooms
mod Run
mod Refresh
mod Services
mod Sessions
mod Store
mod Strings
mod Hosts
mod Limits
