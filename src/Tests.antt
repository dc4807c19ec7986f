-- ===== src/Tests.antt =====
-- The theorems at concrete inputs.
pub mod Cases
pub mod Fixtures
pub mod Host
pub mod Requests
pub mod Routing
pub mod Runs
pub mod Values
