-- ===== src/Api/Machine.antt =====
-- api/infrastructure/v1alpha1/tartmachine_types.go, and the part of the CAPI Machine that the
-- controllers read.
use cluster_api_provider_tar.Base.{
  ℕ, String, Bool, Option, List, comparable_nat, comparable_text, comparable_list,
}
use cluster_api_provider_tar.Base.Int.{ℤ}
use cluster_api_provider_tar.Api.Meta.{LabelSelector, Condition, OwnerReference, StringMap}
use cluster_api_provider_tar.Api.Host.{MachineAddress}

pub record TalosImageSpec : Type 0 where
  pub version : String
  pub schematic_id : String

pub record HostSelector : Type 0 where
  pub architecture : String
  pub selector : LabelSelector

pub record TartMachineSpec : Type 0 where
  pub host_ref : Option String
  pub host_selector : Option HostSelector
  pub image : TalosImageSpec
  pub provider_id : String

pub record TartMachineStatus : Type 0 where
  pub provisioned : Option Bool
  pub addresses : List MachineAddress
  pub failure_domain : String
  pub host_ref : Option String
  pub talos_version : String
  pub talos_schematic_id : String
  pub observed_control_plane_endpoint : String
  pub observed_configuration_digest : String
  pub observed_generation : ℕ
  pub conditions : List Condition

pub record TartMachine : Type 0 where
  pub name : String
  pub namespace : String
  pub uid : String
  pub generation : ℕ
  pub deletion_timestamp : Option ℕ
  pub finalizers : List String
  pub paused : Bool
  pub labels : StringMap
  pub annotations : StringMap
  pub owner_references : List OwnerReference
  pub spec : TartMachineSpec
  pub status : TartMachineStatus

-- `clusterv1.ContractVersionedObjectReference`.
pub record ContractReference : Type 0 where
  pub api_group : String
  pub kind : String
  pub name : String

-- `clusterv1.MachineDeletionSpec`.
pub record MachineDeletionSpec : Type 0 where
  pub node_drain_timeout_seconds : Option ℤ
  pub node_volume_detach_timeout_seconds : Option ℤ
  pub node_deletion_timeout_seconds : Option ℤ

-- `clusterv1.Machine`; readiness gates and taints are read only to be compared and are texts.
pub record CapiMachine : Type 0 where
  pub name : String
  pub namespace : String
  pub uid : String
  pub labels : StringMap
  pub annotations : StringMap
  pub owner_references : List OwnerReference
  pub deletion_timestamp : Option ℕ
  pub version : String
  pub readiness_gates : List String
  pub taints : List String
  pub deletion : MachineDeletionSpec
  pub cluster_name : String
  pub failure_domain : String
  pub infrastructure_ref : ContractReference
  pub bootstrap_config_ref : ContractReference
  pub provider_id : String
  pub conditions : List Condition
