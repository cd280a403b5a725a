-- ===== src/Recovery.antt =====
-- domain/recovery and usecase/recovery: the target of a reset, and the Secrets that keep a Talos
-- cluster reachable after its machines are gone.
pub mod Identity
pub mod RecoverySecret
pub mod Retention
pub mod Collector
pub mod Scenarios
