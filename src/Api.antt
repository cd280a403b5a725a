-- ===== src/Api.antt =====
-- The API types of api/: what the controllers read and write.
pub mod Meta
pub mod Maps
pub mod Host
pub mod Machine
pub mod Secret
pub mod Samples
