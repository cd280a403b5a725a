-- ===== src/Machine.antt =====
-- domain/machine and usecase/machine: which host a machine holds, and when its deletion may go on.
pub mod Binding
pub mod Deletion
pub mod Stop
pub mod Release
pub mod Samples
pub mod Scenarios
