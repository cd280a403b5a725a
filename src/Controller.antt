-- ===== src/Controller.antt =====
-- controller/: what the reconcilers share.
pub mod Ownership
pub mod Conditions
pub mod SampleConditions
