-- ===== src/ControlPlane.antt =====
-- domain/controlplane: quorum, the stages of a CA rotation, and the cluster secret bundles.
pub mod Quorum
pub mod Rotation
pub mod Bundle
pub mod Etcd
pub mod Machines
pub mod Scenarios
