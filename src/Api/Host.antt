-- ===== src/Api/Host.antt =====
-- api/infrastructure/v1alpha1/tarthost_types.go: a physical host, which machines claim and release.
-- An enumerated string has a constructor `other…` for every value that is no constant of the source.
use cluster_api_provider_tar.Base.{
  ℕ, String, Bool, Option, List, comparable_nat, comparable_text, comparable_list,
}
use cluster_api_provider_tar.Api.Meta.{
  HostId, ClusterId, MacAddress, ObjectReference, StringMap, Condition,
}

pub data ReusePolicy : Type 0 where
  retain allow_reuse : ReusePolicy
  other_policy : String → ReusePolicy

pub data ReuseMode : Type 0 where
  adopt reprovision : ReuseMode
  other_mode : String → ReuseMode

pub data PowerBackend : Type 0 where
  redfish wake_on_lan intel_manageability manual : PowerBackend
  other_backend : String → PowerBackend

pub record RedfishPowerConfig : Type 0 where
  pub address : String
  pub system_id : String
  pub credential_secret_ref : String
  pub ca_secret_ref : Option String
  pub insecure_skip_verify : Bool

pub record WakeOnLanPowerConfig : Type 0 where
  pub broadcast_address : String

pub record IntelManageabilityPowerConfig : Type 0 where
  pub address : String
  pub credential_secret_ref : String
  pub ca_secret_ref : Option String
  pub insecure_skip_verify : Bool

pub record PowerSpec : Type 0 where
  pub backend : PowerBackend
  pub redfish : Option RedfishPowerConfig
  pub wake_on_lan : Option WakeOnLanPowerConfig
  pub intel_manageability : Option IntelManageabilityPowerConfig

-- The machine that held the host before.
pub record PreviousConsumerRef : Type 0 where
  pub namespace : String
  pub name : String
  pub uid : String
  pub cluster_id : ClusterId

pub record ReuseApproval : Type 0 where
  pub previous_consumer_uid : String

pub record ShutdownConfirmation : Type 0 where
  pub consumer_uid : String
  pub host_id : HostId
  pub boot_id : String

pub record DeletionApproval : Type 0 where
  pub consumer_uid : String
  pub previous_consumer_uid : String

pub record TartHostSpec : Type 0 where
  pub host_id : HostId
  pub mac_address : MacAddress
  pub talos_api_address : String
  pub architecture : String
  pub failure_domain : String
  pub power : PowerSpec
  pub consumer_ref : Option ObjectReference
  pub previous_consumer_ref : Option PreviousConsumerRef
  pub reuse_policy : ReusePolicy
  pub reuse_approval : Option ReuseApproval
  pub reuse_mode : ReuseMode
  pub deletion_approval : Option DeletionApproval
  pub shutdown_confirmation : Option ShutdownConfirmation

pub record DiskInventory : Type 0 where
  pub size_bytes : ℕ
  pub device_path : String
  pub model : String
  pub serial : String
  pub wwid : String
  pub bus_path : String
  pub transport : String
  pub rotational : Bool
  pub read_only : Bool
  pub symlinks : List String
  pub stable_selector : String

pub record NetworkInterfaceInventory : Type 0 where
  pub name : String
  pub mac_address : MacAddress
  pub link_state : String
  pub driver : String
  pub bus_path : String
  pub addresses : List String

pub record HostInventory : Type 0 where
  pub boot_id : String
  pub system_uuid : String
  pub architecture : String
  pub disks : List DiskInventory
  pub network_interfaces : List NetworkInterfaceInventory

-- The reference to the recovery Secret of the Talos installation that the host holds.
pub record TalosIdentityReference : Type 0 where
  pub cluster_id : ClusterId
  pub recovery_secret_ref : String
  pub bound_at : Option ℕ

pub record BootAttempt : Type 0 where
  pub boot_id : String
  pub first_observed_at : Option ℕ
  pub last_observed_at : Option ℕ
  pub system_uuid : String
  pub endpoint : String

pub record PowerOnAttemptStatus : Type 0 where
  pub count : ℕ
  pub last_attempt_at : Option ℕ

-- `clusterv1.MachineAddress`.
pub data AddressType : Type 0 where
  internal_ip external_ip host_name other_address : AddressType

pub record MachineAddress : Type 0 where
  pub kind : AddressType
  pub address : String

pub record TartHostStatus : Type 0 where
  pub current_talos_identity_ref : Option TalosIdentityReference
  pub inventory : Option HostInventory
  pub boot_attempts : List BootAttempt
  pub addresses : List MachineAddress
  pub power_on_attempts : Option PowerOnAttemptStatus
  pub observed_generation : ℕ
  pub conditions : List Condition

-- Hosts are scoped to the cluster, so a name identifies one; `namespace` is empty.
pub record TartHost : Type 0 where
  pub name : String
  pub namespace : String
  pub resource_version : String
  pub labels : StringMap
  pub spec : TartHostSpec
  pub status : TartHostStatus
