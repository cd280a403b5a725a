-- ===== src/ControlPlane/Bundle.antt =====
-- domain/controlplane/bundle.go. `is_dns1123_subdomain` stands for apimachinery's validation of a
-- name, `print` for the printed form of a cluster's identifier.
pub mod Contract
use cluster_api_provider_tar.Base.{
  ℕ, zero, suc, String, ◌+◌, ◌-◌, ◌*◌, ◌/◌, ◌%◌, ◌^◌, ◌≤◌, ◌<◌, ◌≡◌, refl, sym, ap, subst, ◌∙◌, ◌≢◌,
  ◌↔◌, ◌⊎◌, inl, inr, Bool, true, false, not, ◌&&◌, ◌||◌, Option, none, some, List, [], ◌∷◌, ◌++◌,
  map, arith, eq_iff, eq_refl, ltb, leb, if◌then◌else◌, Comparable, ◌==◌, ◌!=◌, comparable_nat,
  comparable_text, comparable_list, list_beq_iff, ==_refl, Bool-cases, Option-cases, ltb→lt, leb→le,
  is_some, length, any, keep, count_if, All, In, trim_space, is_blank, codes, is_blank-empty,
  is_blank_nonempty,
}
use cluster_api_provider_tar.Base.Int.{ℤ, pos, negsuc, ◌<?◌, sub_ℕ, same_ℤ}
use cluster_api_provider_tar.Base.Format.{concat, format_int}
use cluster_api_provider_tar.Base.Result.{Result, ok, err, ◌>>=◌, ◌>>◌, fail_if}
use cluster_api_provider_tar.Api.Meta.{
  ClusterId, cluster_id_is_zero, StringMap, lookup_or_empty, OwnerReference, is_true,
}
use cluster_api_provider_tar.Api.Secret.{Secret, secret_type_opaque}

pub data BundleError : Type 0 where
  invalid_cluster_identity invalid_bundle_generation bundle_data_incomplete : BundleError
  bundle_owner_incomplete bundle_owner_invalid bundle_secret_invalid : BundleError

abbrev pub cluster_name_label : String
cluster_name_label = "cluster.x-k8s.io/cluster-name"

abbrev pub cluster_id_label : String
cluster_id_label = "tart.cluster.x-k8s.io/cluster-id"

abbrev pub generation_label : String
generation_label = "tart.cluster.x-k8s.io/secret-generation"

abbrev pub bundle_state_label : String
bundle_state_label = "tart.cluster.x-k8s.io/bundle-state"

abbrev pub bundle_state_pending : String
bundle_state_pending = "Pending"

abbrev pub bundle_state_active : String
bundle_state_active = "Active"

abbrev pub bundle_state_retired : String
bundle_state_retired = "Retired"

abbrev pub infra_group_version : String
infra_group_version = "infrastructure.cluster.x-k8s.io/v1alpha1"

abbrev pub max_int32 : ℕ
max_int32 = 2147483647

-- `current + 1` for a current generation that is not negative.
abbrev successor : ℤ → ℤ
successor (pos n) = pos (n + 1)
successor (negsuc n) = sub_ℕ 0 n

-- `NextGeneration`.
pub next_generation : ℤ → Result BundleError ℤ
next_generation current =
    if current <? pos 0 || same_ℤ current (pos max_int32)
    then err invalid_bundle_generation
    else if same_ℤ current (pos 0)
    then ok (pos 1)
    else ok (successor current)

-- `cloneCompleteData`: the entries must be there, each with a key and a value.
pub clone_complete_entries : StringMap → Result BundleError StringMap
clone_complete_entries [] = ok []
clone_complete_entries ((key, value) ∷ entries) = do
  fail_if (key == "" || value == "") bundle_data_incomplete
  rest ← clone_complete_entries entries
  ok ((key, value) ∷ rest)

unfoldable pub clone_complete_data : StringMap → Result BundleError StringMap
unfolding clone_complete_entries
clone_complete_data [] = err bundle_data_incomplete
clone_complete_data (entry ∷ entries) = clone_complete_entries (entry ∷ entries)

-- An error is wrapped in `ErrBundleSecretInvalid`.
abbrev wrap_invalid : {A : Type 0} → Result BundleError A → Result BundleError A
wrap_invalid (ok a) = ok a
wrap_invalid (err e) = err bundle_secret_invalid

-- The tests of `buildBundleSecret` between the name and the data.
unfoldable pub check_buildable :
    String → String → String → OwnerReference → Result BundleError (Unit {0})
check_buildable namespace cluster_name state owner = do
  fail_if (state != bundle_state_pending && state != bundle_state_active) bundle_secret_invalid
  fail_if
      (namespace == ""
        || owner.api_version == ""
        || owner.kind == ""
        || owner.name == ""
        || owner.uid == "")
      bundle_owner_incomplete
  fail_if
      (owner.api_version != infra_group_version
        || owner.kind != "TartCluster"
        || owner.name != cluster_name)
      bundle_owner_invalid

-- The tests of `ValidateBundleSecretContract` on the Secret's namespace, form, its labels and its state.
check_namespace : Secret → String → Result BundleError (Unit {0})
check_namespace secret namespace =
    fail_if (namespace == "" || secret.namespace != namespace) bundle_secret_invalid

check_form : Secret → String → Result BundleError (Unit {0})
check_form secret expected_name =
    fail_if
      (secret.name != expected_name
        || secret.kind != secret_type_opaque
        || not (is_true secret.immutable))
      bundle_secret_invalid

check_state : String → Result BundleError (Unit {0})
check_state state =
    fail_if
      (state != bundle_state_pending
        && state != bundle_state_active
        && state != bundle_state_retired)
      bundle_secret_invalid

module _ (is_dns1123_subdomain : String → Bool) (print : ClusterId → String) where
  -- `BundleName`.
  unfoldable pub bundle_name : String → ClusterId → ℤ → Result BundleError String
  bundle_name cluster_name cluster_id generation = do
    fail_if (not (is_dns1123_subdomain cluster_name)) invalid_cluster_identity
    fail_if (cluster_id_is_zero cluster_id) invalid_cluster_identity
    fail_if (generation <? pos 1) invalid_bundle_generation
    let name =
        concat
          (cluster_name ∷ "-talos-secrets-" ∷ print cluster_id ∷ "-g" ∷ format_int generation ∷ [])
    fail_if (not (is_dns1123_subdomain name)) invalid_cluster_identity
    ok name

  validate_owner : List OwnerReference → String → String → Result BundleError (Unit {0})
  validate_owner (owner ∷ []) cluster_name owner_uid = do
    fail_if
        (owner.api_version != infra_group_version
          || owner.kind != "TartCluster"
          || owner.name != cluster_name
          || owner.uid == ""
          || not (is_true owner.controller))
        bundle_secret_invalid
    fail_if (owner_uid != "" && owner.uid != owner_uid) bundle_secret_invalid
  validate_owner _ cluster_name owner_uid = err bundle_secret_invalid

  check_labels : Secret → String → ClusterId → ℤ → String → Result BundleError (Unit {0})
  check_labels secret cluster_name cluster_id generation state =
      fail_if
        (lookup_or_empty secret.labels cluster_name_label != cluster_name
          || lookup_or_empty secret.labels cluster_id_label != print cluster_id
          || lookup_or_empty secret.labels generation_label != format_int generation
          || lookup_or_empty secret.labels bundle_state_label != state)
        bundle_secret_invalid

  -- `ValidateBundleSecretContract` for a Secret that is there.
  validate_bundle_secret :
      Secret → String → String → ClusterId → ℤ → String → String → Result BundleError (Unit {0})
  unfolding validate_owner check_namespace check_form check_labels check_state
  validate_bundle_secret secret namespace cluster_name cluster_id generation state owner_uid = do
    check_namespace secret namespace
    expected_name ← wrap_invalid (bundle_name cluster_name cluster_id generation)
    check_form secret expected_name
    check_labels secret cluster_name cluster_id generation state
    check_state state
    _ ← wrap_invalid (clone_complete_data secret.data_entries)
    validate_owner secret.owner_references cluster_name owner_uid

  -- `ValidateBundleSecretContract`.
  unfoldable pub validate_bundle_secret_contract :
      Option Secret
      → String
      → String
      → ClusterId
      → ℤ
      → String
      → String
      → Result BundleError (Unit {0})
  unfolding validate_bundle_secret
  validate_bundle_secret_contract none namespace cluster_name cluster_id generation state
        owner_uid =
      err bundle_secret_invalid
  validate_bundle_secret_contract (some secret) namespace cluster_name cluster_id generation state
        owner_uid =
      validate_bundle_secret secret namespace cluster_name cluster_id generation state owner_uid

  -- The Secret that `buildBundleSecret` returns.
  abbrev pub new_bundle_secret :
      String → String → String → ClusterId → ℤ → String → OwnerReference → StringMap → Secret
  new_bundle_secret name namespace cluster_name cluster_id generation state owner cloned = record {
    name = name;
    namespace = namespace;
    labels =
        (cluster_name_label, cluster_name)
        ∷ (cluster_id_label, print cluster_id)
        ∷ (generation_label, format_int generation)
        ∷ (bundle_state_label, state)
        ∷ [];
    owner_references = record owner { controller = some true } ∷ [];
    kind = secret_type_opaque;
    immutable = some true;
    data_entries = cloned;
    creation_timestamp = none;
    deletion_timestamp = none;
  }

  -- `buildBundleSecret`.
  unfoldable pub build_bundle_secret :
      String
      → String
      → ClusterId
      → ℤ
      → String
      → OwnerReference
      → StringMap
      → Result BundleError Secret
  build_bundle_secret namespace cluster_name cluster_id generation state owner entries = do
    name ← bundle_name cluster_name cluster_id generation
    check_buildable namespace cluster_name state owner
    cloned ← clone_complete_data entries
    ok (new_bundle_secret name namespace cluster_name cluster_id generation state owner cloned)

  unfoldable pub build_pending_secret :
      String → String → ClusterId → ℤ → OwnerReference → StringMap → Result BundleError Secret
  build_pending_secret namespace cluster_name cluster_id generation owner entries =
      build_bundle_secret namespace cluster_name cluster_id generation bundle_state_pending owner
        entries

  unfoldable pub build_active_secret :
      String → String → ClusterId → ℤ → OwnerReference → StringMap → Result BundleError Secret
  build_active_secret namespace cluster_name cluster_id generation owner entries =
      build_bundle_secret namespace cluster_name cluster_id generation bundle_state_active owner
        entries
