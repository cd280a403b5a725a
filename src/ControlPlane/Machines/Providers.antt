-- ===== src/ControlPlane/Machines/Providers.antt =====
-- `ensureProviderResources` of controller/tartcontrolplane/machines.go: the TartMachine and the
-- TartBootstrapConfig of a machine, made from the templates and kept in step with them. What the
-- API server answers is an argument; `reflect.DeepEqual` is written out.
use cluster_api_provider_tar.Base.{
  ℕ, String, Bool, true, false, not, ◌&&◌, Option, none, some, List, [], ◌∷◌, map, ◌==◌,
  comparable_nat, comparable_text, comparable_list,
}
use cluster_api_provider_tar.Base.Result.{Result, ok, err, or_fail}
use cluster_api_provider_tar.Base.Run.{Run, just, call, stop_if, ◌>>=◌, ◌>>◌}
use cluster_api_provider_tar.Api.Meta.{
  StringMap, LabelSelectorRequirement, find_key, ApiError, not_found, conflict, already_exists,
  other_error,
}
use cluster_api_provider_tar.Api.Machine.{
  CapiMachine, TartMachine, TartMachineStatus, TalosImageSpec, HostSelector,
}
use cluster_api_provider_tar.Controller.Ownership.{Owner, OwnershipFailure, validate_provider_owner}
use cluster_api_provider_tar.ControlPlane.Etcd.Removal.{
  ControlPlaneError, failure, passed_on, EtcdCall,
}
use cluster_api_provider_tar.ControlPlane.Machines.{
  LabelNames, TemplateMeta, TartControlPlane, controller_owner_reference, control_plane_labels,
  bootstrap_config_name,
}
use cluster_api_provider_tar.ControlPlane.Machines.TemplateSync.{
  TartBootstrapConfig, TartBootstrapConfigSpec, machine_digest_key, bootstrap_digest_key,
  machine_image_digest, bootstrap_config_template_digest, sync_machine_template,
  sync_bootstrap_template,
}

-- `TartMachineTemplate` and `TartBootstrapConfigTemplate`, what they hold for an object.
pub record TartMachineTemplate : Type 0 where
  pub template_meta : TemplateMeta
  pub host_selector : Option HostSelector
  pub image : TalosImageSpec

pub record TartBootstrapConfigTemplate : Type 0 where
  pub template_meta : TemplateMeta
  pub spec : TartBootstrapConfigSpec

-- The calls that change something.
pub data EnsureCall : Type 0 where
  capi_machine_created capi_machine_patched : CapiMachine → EnsureCall
  tart_machine_created tart_machine_patched : TartMachine → EnsureCall
  bootstrap_config_created bootstrap_config_patched : TartBootstrapConfig → EnsureCall
  scaling : EtcdCall → EnsureCall

abbrev pub EnsureRun : Type 0 → Type 0
EnsureRun A = Run EnsureCall ControlPlaneError A

-- The calls of a part, as calls of the whole.
abbrev pub lift_calls : {C A : Type 0} → (C → EnsureCall) → Run C ControlPlaneError A → EnsureRun A
lift_calls f r = record { calls = map f r.calls; result = r.result }

abbrev pub api_failure : ApiError → ControlPlaneError
api_failure not_found = passed_on "not found"
api_failure conflict = passed_on "conflict"
api_failure already_exists = passed_on "already exists"
api_failure (other_error e) = passed_on e

abbrev pub or_api_failure : {A : Type 0} → Result ApiError A → Result ControlPlaneError A
or_api_failure (ok a) = ok a
or_api_failure (err e) = err (api_failure e)

-- A creation that finds the object there is not an error.
abbrev pub or_exists : Result ApiError (Unit {0}) → Result ControlPlaneError (Unit {0})
or_exists (ok u) = ok tt
or_exists (err already_exists) = ok tt
or_exists (err not_found) = err (api_failure not_found)
or_exists (err conflict) = err (api_failure conflict)
or_exists (err (other_error e)) = err (passed_on e)

abbrev pub owned_or_failure :
    Result OwnershipFailure (Unit {0}) → Result ControlPlaneError (Unit {0})
owned_or_failure (ok u) = ok tt
owned_or_failure (err e) = err (failure "MachineOwnershipMismatch")

abbrev has_value : Option String → String → Bool
has_value none v = false
has_value (some w) v = w == v

abbrev has_entries : StringMap → StringMap → Bool
has_entries [] m = true
has_entries ((k, v) ∷ entries) m = has_value (find_key m k) v && has_entries entries m

abbrev same_map : StringMap → StringMap → Bool
same_map a b = has_entries a b && has_entries b a

abbrev same_requirements : List LabelSelectorRequirement → List LabelSelectorRequirement → Bool
same_requirements [] [] = true
same_requirements [] (s ∷ ss) = false
same_requirements (r ∷ rs) [] = false
same_requirements (r ∷ rs) (s ∷ ss) =
    r.key == s.key && r.operator == s.operator && r.values == s.values && same_requirements rs ss

abbrev pub same_selector : Option HostSelector → Option HostSelector → Bool
same_selector none none = true
same_selector none (some b) = false
same_selector (some a) none = false
same_selector (some a) (some b) =
    a.architecture == b.architecture
    && same_map a.selector.match_labels b.selector.match_labels
    && same_requirements a.selector.match_expressions b.selector.match_expressions

-- What the API server answers on the two objects: when it is asked first, to a creation, when it
-- is asked again, and to a patch.
pub record ProviderAnswers : Type 0 where
  pub get_machine : String → Result ApiError TartMachine
  pub get_created_machine : String → Result ApiError TartMachine
  pub create_machine : TartMachine → Result ApiError (Unit {0})
  pub patch_machine : TartMachine → Result ControlPlaneError (Unit {0})
  pub get_config : String → Result ApiError TartBootstrapConfig
  pub get_created_config : String → Result ApiError TartBootstrapConfig
  pub create_config : TartBootstrapConfig → Result ApiError (Unit {0})
  pub patch_config : TartBootstrapConfig → Result ControlPlaneError (Unit {0})

-- `Get`, and `Create` with another `Get` if there is nothing.
unfoldable pub get_or_create :
    {A : Type 0}
    → (A → EnsureCall)
    → A
    → Result ApiError A
    → Result ApiError (Unit {0})
    → Result ApiError A
    → EnsureRun A
get_or_create created expected (ok a) answer again = just (ok a)
get_or_create created expected (err not_found) answer again =
    call (created expected) (or_exists answer) >> just (or_api_failure again)
get_or_create created expected (err conflict) answer again = just (err (api_failure conflict))
get_or_create created expected (err already_exists) answer again =
    just (err (api_failure already_exists))
get_or_create created expected (err (other_error e)) answer again = just (err (passed_on e))

abbrev pub empty_status : TartMachineStatus
empty_status = record {
  provisioned = none;
  addresses = [];
  failure_domain = "";
  host_ref = none;
  talos_version = "";
  talos_schematic_id = "";
  observed_control_plane_endpoint = "";
  observed_configuration_digest = "";
  observed_generation = 0;
  conditions = [];
}

abbrev pub machine_owner : LabelNames → CapiMachine → Owner
machine_owner names machine = record {
  api_version = names.capi_group_version;
  kind = "Machine";
  name = machine.name;
  uid = machine.uid;
}

module _ (names : LabelNames) (digest : List String → String) (cp : TartControlPlane)
    (cluster_name : String) where
  unfoldable pub new_tart_machine : ℕ → CapiMachine → TartMachineTemplate → TartMachine
  new_tart_machine ordinal machine template = record {
    name = machine.name;
    namespace = cp.namespace;
    uid = "";
    generation = 0;
    deletion_timestamp = none;
    finalizers = [];
    paused = false;
    labels = control_plane_labels names template.template_meta cluster_name cp.name ordinal;
    annotations = (machine_digest_key, machine_image_digest digest template.image) ∷ [];
    owner_references = controller_owner_reference (machine_owner names machine) ∷ [];
    spec = record {
      host_ref = none;
      host_selector = template.host_selector;
      image = template.image;
      provider_id = "";
    };
    status = empty_status;
  }

  unfoldable pub new_bootstrap_config :
      ℕ → CapiMachine → String → TartBootstrapConfigTemplate → TartBootstrapConfig
  new_bootstrap_config ordinal machine name template = record {
    name = name;
    namespace = cp.namespace;
    labels = control_plane_labels names template.template_meta cluster_name cp.name ordinal;
    owner_references = controller_owner_reference (machine_owner names machine) ∷ [];
    annotations =
        (bootstrap_digest_key, bootstrap_config_template_digest digest template.spec) ∷ [];
    spec = template.spec;
  }

  module _ (is_dns1123_subdomain : String → Bool) (answers : ProviderAnswers) where
    unfoldable pub ensure_tart_machine :
        ℕ → CapiMachine → TartMachineTemplate → EnsureRun (Unit {0})
    ensure_tart_machine ordinal machine template =
        let expected = new_tart_machine ordinal machine template in
        do
          current ←
              get_or_create tart_machine_created expected (answers.get_machine machine.name)
                (answers.create_machine expected) (answers.get_created_machine machine.name)
          just (
              owned_or_failure
                (validate_provider_owner current.owner_references (machine_owner names machine)))
          stop_if (not (same_selector current.spec.host_selector expected.spec.host_selector))
              (failure "MachineSpecMismatch")
          lift_calls tart_machine_patched
              (sync_machine_template digest answers.patch_machine current expected)

    unfoldable pub ensure_bootstrap_config :
        ℕ → CapiMachine → TartBootstrapConfigTemplate → EnsureRun (Unit {0})
    ensure_bootstrap_config ordinal machine template = do
      name ← just (
          or_fail (bootstrap_config_name is_dns1123_subdomain cp.name ordinal)
            (failure "MachineNameInvalid"))
      current ←
          get_or_create bootstrap_config_created
            (new_bootstrap_config ordinal machine name template) (answers.get_config name)
            (answers.create_config (new_bootstrap_config ordinal machine name template))
            (answers.get_created_config name)
      just (
          owned_or_failure
            (validate_provider_owner current.owner_references (machine_owner names machine)))
      lift_calls bootstrap_config_patched (
          sync_bootstrap_template digest answers.patch_config current
            (new_bootstrap_config ordinal machine name template))

    -- `ensureProviderResources`.
    unfoldable pub ensure_provider_resources :
        ℕ → CapiMachine → TartMachineTemplate → TartBootstrapConfigTemplate → EnsureRun (Unit {0})
    unfolding ensure_tart_machine ensure_bootstrap_config
    ensure_provider_resources ordinal machine machine_template bootstrap_template = do
      stop_if (machine.uid == "") (failure "MachineIdentityUnavailable")
      ensure_tart_machine ordinal machine machine_template
      ensure_bootstrap_config ordinal machine bootstrap_template
