-- ===== src/ControlPlane/Machines.antt =====
-- controller/tartcontrolplane/machines.go and the readers of the spec in reconciler.go: what the
-- machines of a control plane are called, where they stand and what they refer to. `LabelNames`
-- are the labels of Cluster API, `is_dns1123_subdomain` is apimachinery's validation of a name.
pub mod Placement
pub mod References
pub mod TemplateSync
pub mod Providers
pub mod Ensure
pub mod Scenarios
use cluster_api_provider_tar.Base.{
  ℕ, zero, suc, String, ◌+◌, ◌-◌, ◌*◌, ◌/◌, ◌%◌, ◌^◌, ◌≤◌, ◌<◌, ◌≡◌, refl, sym, ap, subst, ◌∙◌, ◌≢◌,
  ◌↔◌, ◌⊎◌, inl, inr, Bool, true, false, not, ◌&&◌, ◌||◌, Option, none, some, List, [], ◌∷◌, ◌++◌,
  map, arith, eq_iff, eq_refl, ltb, leb, if◌then◌else◌, Comparable, ◌==◌, ◌!=◌, comparable_nat,
  comparable_text, comparable_list, list_beq_iff, ==_refl, Bool-cases, Option-cases, ltb→lt, leb→le,
  is_some, length, any, keep, count_if, All, In, trim_space, is_blank, codes, is_blank-empty,
  is_blank_nonempty,
}
use cluster_api_provider_tar.Base.Int.{ℤ, pos, negsuc, ◌<?◌}
use cluster_api_provider_tar.Base.Format.{concat, format_nat}
use cluster_api_provider_tar.Base.Sort.{sort}
use cluster_api_provider_tar.Base.Result.{Result, ok, err, ◌>>=◌, ◌>>◌, fail_if}
use cluster_api_provider_tar.Api.Meta.{StringMap, OwnerReference, lookup_or_empty, put_key, is_true}
use cluster_api_provider_tar.Api.Machine.{CapiMachine, MachineDeletionSpec, ContractReference}
use cluster_api_provider_tar.Controller.Ownership.{Owner, has_controller_owner}
use cluster_api_provider_tar.Host.FailureDomains.{FailureDomain, text_before}
use cluster_api_provider_tar.Machine.Release.{infra_group}
use cluster_api_provider_tar.ControlPlane.Etcd.{ordinal_label}
use cluster_api_provider_tar.ControlPlane.Etcd.Removal.{ControlPlaneError, failure}

pub record LabelNames : Type 0 where
  pub cluster_name_label : String
  pub control_plane_label : String
  pub control_plane_name_label : String
  pub skip_remediation_annotation : String
  pub capi_group_version : String

abbrev pub control_plane_group_version : String
control_plane_group_version = "controlplane.cluster.x-k8s.io/v1alpha1"

abbrev pub bootstrap_group : String
bootstrap_group = "bootstrap.cluster.x-k8s.io"

-- `clusterv1.ObjectMeta`.
pub record TemplateMeta : Type 0 where
  pub labels : StringMap
  pub annotations : StringMap

-- `TartControlPlaneMachineTemplateSpec`.
pub record ControlPlaneMachineTemplateSpec : Type 0 where
  pub infrastructure_ref : ContractReference
  pub readiness_gates : List String
  pub taints : List String
  pub deletion : MachineDeletionSpec

pub record TartControlPlane : Type 0 where
  pub name : String
  pub namespace : String
  pub uid : String
  pub labels : StringMap
  pub owner_references : List OwnerReference
  pub version : String
  pub replicas : Option ℤ
  pub template_meta : TemplateMeta
  pub template_spec : ControlPlaneMachineTemplateSpec
  pub bootstrap_config_template_ref : ContractReference

-- `desiredControlPlaneReplicas`.
replicas_or_one : Option ℤ → Result ControlPlaneError ℤ
replicas_or_one none = ok (pos 1)
replicas_or_one (some n) = if n <? pos 1 then err (failure "InvalidSpec") else ok n

unfoldable pub desired_control_plane_replicas : TartControlPlane → Result ControlPlaneError ℤ
unfolding replicas_or_one
desired_control_plane_replicas cp = replicas_or_one cp.replicas

abbrev owner_cluster_name : String → List OwnerReference → Result ControlPlaneError String
owner_cluster_name group_version [] = err (failure "ClusterUnavailable")
owner_cluster_name group_version (o ∷ os) =
    let rest = owner_cluster_name group_version os in
    if o.api_version == group_version && o.kind == "Cluster" && o.name != ""
    then ok o.name
    else rest

-- `controlPlaneClusterName`.
unfoldable pub control_plane_cluster_name :
    LabelNames → TartControlPlane → Result ControlPlaneError String
control_plane_cluster_name names cp =
    let name = lookup_or_empty cp.labels names.cluster_name_label in
    if name != "" then ok name else owner_cluster_name names.capi_group_version cp.owner_references

abbrev pub serves_control_plane : Option Bool → Bool
serves_control_plane none = true
serves_control_plane (some b) = b

-- The names of a loop's rounds, each kept once and where it comes first.
unfoldable pub eligible_from : List String → List FailureDomain → List String
eligible_from names [] = names
eligible_from names (d ∷ ds) =
    let skipped = eligible_from names ds in
    let added = eligible_from (names ++ (d.name ∷ [])) ds in
    if d.name == "" || not (serves_control_plane d.control_plane)
    then skipped
    else if any (λ n. n == d.name) names
    then skipped
    else added

abbrev pub nth : List String → ℕ → Option String
nth [] n = none
nth (x ∷ xs) zero = some x
nth (x ∷ xs) (suc n) = nth xs n

abbrev pub at_modulo : List String → ℕ → Option String
at_modulo [] ordinal = none
at_modulo (x ∷ xs) ordinal = nth (x ∷ xs) (ordinal % length (x ∷ xs))

-- `controlPlaneFailureDomain`; `none` when there is none.
unfoldable pub control_plane_failure_domain : List FailureDomain → ℕ → Option String
unfolding eligible_from
control_plane_failure_domain domains ordinal =
    at_modulo (sort text_before (eligible_from [] domains)) ordinal

-- `containsControlPlaneFailureDomain`.
unfoldable pub contains_control_plane_failure_domain : List FailureDomain → String → Bool
contains_control_plane_failure_domain domains name =
    any (λ d. d.name == name && serves_control_plane d.control_plane) domains

abbrev pub control_plane_owner : TartControlPlane → Owner
control_plane_owner cp = record {
  api_version = control_plane_group_version;
  kind = "TartControlPlane";
  name = cp.name;
  uid = cp.uid;
}

-- `validateControlPlaneMachineOwners`.
unfoldable pub validate_control_plane_machine_owners :
    List CapiMachine → TartControlPlane → Result ControlPlaneError (Unit {0})
validate_control_plane_machine_owners [] cp = ok tt
validate_control_plane_machine_owners (m ∷ ms) cp = do
  fail_if (not (has_controller_owner m.owner_references (control_plane_owner cp)))
      (failure "MachineOwnershipMismatch")
  validate_control_plane_machine_owners ms cp

-- `capiDefaultNodeDeletionTimeoutSeconds`.
abbrev pub default_node_deletion_timeout : ℤ
default_node_deletion_timeout = pos 10

abbrev or_default : Option ℤ → ℤ → Option ℤ
or_default none d = some d
or_default (some n) d = some n

-- `machineDeletionSpec`.
unfoldable pub machine_deletion_spec : MachineDeletionSpec → MachineDeletionSpec
machine_deletion_spec spec = record {
  node_drain_timeout_seconds = spec.node_drain_timeout_seconds;
  node_volume_detach_timeout_seconds = spec.node_volume_detach_timeout_seconds;
  node_deletion_timeout_seconds =
      or_default spec.node_deletion_timeout_seconds default_node_deletion_timeout;
}

-- `controllerOwnerReference`.
abbrev pub controller_owner_reference : Owner → OwnerReference
controller_owner_reference owner = record {
  api_version = owner.api_version;
  kind = owner.kind;
  name = owner.name;
  uid = owner.uid;
  controller = some true;
}

-- `controlPlaneMetadata`: the labels and the annotations.
unfoldable pub control_plane_labels : LabelNames → TemplateMeta → String → String → ℕ → StringMap
control_plane_labels names template cluster_name control_plane_name ordinal =
    put_key
      (put_key
        (put_key (put_key template.labels names.cluster_name_label cluster_name)
          names.control_plane_label "")
        names.control_plane_name_label control_plane_name)
      ordinal_label (format_nat ordinal)

unfoldable pub control_plane_annotations : LabelNames → TemplateMeta → StringMap
control_plane_annotations names template =
    put_key template.annotations names.skip_remediation_annotation "true"

-- `validateMachineReference`.
unfoldable pub validate_machine_reference :
    CapiMachine → TartControlPlane → String → String → String → Result ControlPlaneError (Unit {0})
validate_machine_reference machine cp cluster_name machine_name bootstrap_name =
    fail_if
      (not (has_controller_owner machine.owner_references (control_plane_owner cp))
        || machine.cluster_name != cluster_name
        || machine.infrastructure_ref.api_group != infra_group
        || machine.infrastructure_ref.kind != "TartMachine"
        || machine.infrastructure_ref.name != machine_name
        || machine.bootstrap_config_ref.api_group != bootstrap_group
        || machine.bootstrap_config_ref.kind != "TartBootstrapConfig"
        || machine.bootstrap_config_ref.name != bootstrap_name)
      (failure "MachineSpecMismatch")

-- The object that `createMachine` sends.
unfoldable pub new_machine :
    LabelNames → TartControlPlane → String → ℕ → String → String → String → CapiMachine
new_machine names cp cluster_name ordinal failure_domain name bootstrap_name = record {
  name = name;
  namespace = cp.namespace;
  uid = "";
  labels = control_plane_labels names cp.template_meta cluster_name cp.name ordinal;
  annotations = control_plane_annotations names cp.template_meta;
  owner_references = controller_owner_reference (control_plane_owner cp) ∷ [];
  deletion_timestamp = none;
  version = cp.version;
  readiness_gates = cp.template_spec.readiness_gates;
  taints = cp.template_spec.taints;
  deletion = machine_deletion_spec cp.template_spec.deletion;
  cluster_name = cluster_name;
  failure_domain = failure_domain;
  infrastructure_ref = record { api_group = infra_group; kind = "TartMachine"; name = name };
  bootstrap_config_ref = record {
    api_group = bootstrap_group;
    kind = "TartBootstrapConfig";
    name = bootstrap_name;
  };
  provider_id = "";
  conditions = [];
}

abbrev pub with_suffix : String → String → List String
with_suffix name suffix = if suffix == "" then name ∷ [] else name ∷ "-" ∷ suffix ∷ []

module _ (is_dns1123_subdomain : String → Bool) where
  -- `controlPlaneChildName`.
  unfoldable pub control_plane_child_name : String → ℕ → String → Option String
  control_plane_child_name control_plane_name ordinal suffix =
      let base = concat (control_plane_name ∷ "-" ∷ format_nat ordinal ∷ []) in
      let name = concat (with_suffix base suffix) in
      if not (is_dns1123_subdomain name) then none else some name

  -- `bootstrapConfigName`.
  unfoldable pub bootstrap_config_name : String → ℕ → Option String
  bootstrap_config_name control_plane_name ordinal =
      control_plane_child_name control_plane_name ordinal "bootstrap"
