-- ===== src/Api/Samples.antt =====
-- Sample objects for the tests.
use cluster_api_provider_tar.Base.{
  true, none, [], ◌∷◌, comparable_nat, comparable_text, comparable_list,
}
use cluster_api_provider_tar.Api.Meta.{MacAddress, ObjectReference}
use cluster_api_provider_tar.Api.Host.{
  manual, retain, other_mode, TartHostSpec, TartHostStatus, TartHost,
}

abbrev pub sample_mac : MacAddress
sample_mac = record { value = 2 ∷ 0 ∷ 0 ∷ 0 ∷ 0 ∷ 1 ∷ []; is_set = true }

abbrev pub sample_spec : TartHostSpec
sample_spec = record {
  host_id = 17;
  mac_address = sample_mac;
  talos_api_address = "192.0.2.10";
  architecture = "amd64";
  failure_domain = "rack-a";
  power = record {
    backend = manual;
    redfish = none;
    wake_on_lan = none;
    intel_manageability = none;
  };
  consumer_ref = none;
  previous_consumer_ref = none;
  reuse_policy = retain;
  reuse_approval = none;
  reuse_mode = other_mode "";
  deletion_approval = none;
  shutdown_confirmation = none;
}

abbrev pub sample_status : TartHostStatus
sample_status = record {
  current_talos_identity_ref = none;
  inventory = none;
  boot_attempts = [];
  addresses = [];
  power_on_attempts = none;
  observed_generation = 0;
  conditions = [];
}

abbrev pub sample_host : TartHost
sample_host = record {
  name = "host-a";
  namespace = "";
  resource_version = "1";
  labels = [];
  spec = sample_spec;
  status = sample_status;
}

abbrev pub sample_consumer : ObjectReference
sample_consumer = record {
  api_version = "infrastructure.cluster.x-k8s.io/v1alpha1";
  kind = "TartMachine";
  namespace = "default";
  name = "machine-a";
  uid = "uid-a";
  resource_version = "";
  field_path = "";
}
