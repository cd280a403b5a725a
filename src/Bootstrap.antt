-- ===== src/Bootstrap.antt =====
-- domain/bootstrap: the choice of the install disk and the order of configuration patches.
pub mod Disk
pub mod Scenarios
pub mod Patches
