-- ===== src/Host.antt =====
-- usecase/host: which host a machine may take, and when a claim or a release goes through.
pub mod Eligibility
pub mod Selector
pub mod ClaimDecision
pub mod Selection
pub mod Identity
pub mod FailureDomains
pub mod Scenarios
pub mod SelectionScenarios
