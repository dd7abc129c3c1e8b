-- ===== src/Tests.antt =====
-- The theorems at concrete inputs.
mod TokenRuns
mod Fixture
mod Declarations
mod Validation
mod Shared
mod Payouts
mod Miners
mod Difficulties
mod Submissions
mod Pools
