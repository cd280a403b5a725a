-- ===== src/Repository.antt =====
-- adapter/kubernetes/tarthostrepository.go: claims and releases of a host by compare-and-swap.
pub mod Server
pub mod Loop
pub mod TartHostRepository
pub mod SmallServer
pub mod Ownership
pub mod Scenarios
