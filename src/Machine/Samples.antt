-- ===== src/Machine/Samples.antt =====
-- A machine that is being deleted: it is past the drain, and its shutdown was requested.
use cluster_api_provider_tar.Base.{
  true, false, none, some, [], ◌∷◌, comparable_nat, comparable_text, comparable_list,
}
use cluster_api_provider_tar.Api.Meta.{condition_true}
use cluster_api_provider_tar.Api.Machine.{CapiMachine, TartMachine}
use cluster_api_provider_tar.Machine.Deletion.{CapiNames}

abbrev pub names : CapiNames
names = record {
  machine_deleting_condition = "Deleting";
  waiting_for_infrastructure_deletion = "WaitingForInfrastructureDeletion";
  waiting_for_bootstrap_deletion = "WaitingForBootstrapDeletion";
  deleting_node = "DeletingNode";
  deletion_completed = "DeletionCompleted";
}

abbrev pub capi_machine : CapiMachine
capi_machine = record {
  name = "machine-a";
  namespace = "default";
  uid = "uid-m";
  labels = [];
  annotations = [];
  owner_references = [];
  deletion_timestamp = some 5;
  version = "v1.34.0";
  readiness_gates = [];
  taints = [];
  deletion = record {
    node_drain_timeout_seconds = none;
    node_volume_detach_timeout_seconds = none;
    node_deletion_timeout_seconds = none;
  };
  cluster_name = "c";
  failure_domain = "";
  infrastructure_ref = record { api_group = ""; kind = "TartMachine"; name = "machine-a" };
  bootstrap_config_ref = record { api_group = ""; kind = ""; name = "" };
  provider_id = "";
  conditions =
      record {
        kind = "Deleting";
        status = condition_true;
        reason = "DeletingNode";
        last_transition_time = some 6;
      }
      ∷ [];
}

abbrev pub machine : TartMachine
machine = record {
  name = "machine-a";
  namespace = "default";
  uid = "uid-a";
  generation = 1;
  deletion_timestamp = some 5;
  finalizers = "tart.cluster.x-k8s.io/machine-lifecycle" ∷ [];
  paused = false;
  labels = [];
  annotations = [];
  owner_references = [];
  spec = record {
    host_ref = none;
    host_selector = none;
    image = record { version = ""; schematic_id = "" };
    provider_id = "";
  };
  status = record {
    provisioned = some true;
    addresses = [];
    failure_domain = "";
    host_ref = none;
    talos_version = "";
    talos_schematic_id = "";
    observed_control_plane_endpoint = "";
    observed_configuration_digest = "";
    observed_generation = 0;
    conditions =
        record {
          kind = "Ready";
          status = condition_true;
          reason = "ShutdownRequested";
          last_transition_time = some 7;
        }
        ∷ [];
  };
}
