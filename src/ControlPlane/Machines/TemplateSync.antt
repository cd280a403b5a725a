-- ===== src/ControlPlane/Machines/TemplateSync.antt =====
-- controller/tartcontrolplane/machines.go: how a change of a template reaches the object that was
-- made from it. The digest that was applied last is kept on the object; `digest` is
-- `digestTemplateValue`, and `answer` what the API server answers to a patch.
pub mod Settled
use cluster_api_provider_tar.Base.{
  ℕ, zero, suc, String, ◌+◌, ◌-◌, ◌*◌, ◌/◌, ◌%◌, ◌^◌, ◌≤◌, ◌<◌, ◌≡◌, refl, sym, ap, subst, ◌∙◌, ◌≢◌,
  ◌↔◌, ◌⊎◌, inl, inr, Bool, true, false, not, ◌&&◌, ◌||◌, Option, none, some, List, [], ◌∷◌, ◌++◌,
  map, arith, eq_iff, eq_refl, ltb, leb, if◌then◌else◌, Comparable, ◌==◌, ◌!=◌, comparable_nat,
  comparable_text, comparable_list, list_beq_iff, ==_refl, Bool-cases, Option-cases, ltb→lt, leb→le,
  is_some, length, any, keep, count_if, All, In, trim_space, is_blank, codes, is_blank-empty,
  is_blank_nonempty,
}
use cluster_api_provider_tar.Base.Result.{Result, ok, err}
use cluster_api_provider_tar.Base.Run.{Run, just, call}
use cluster_api_provider_tar.Api.Meta.{StringMap, OwnerReference, lookup_or_empty, put_key}
use cluster_api_provider_tar.Api.Maps.{lookup_or_empty-put_key}
use cluster_api_provider_tar.Api.Machine.{TartMachine, TartMachineSpec, TalosImageSpec}
use cluster_api_provider_tar.ControlPlane.Etcd.Removal.{ControlPlaneError, failure}

-- `TartBootstrapConfigSpec`, with its update policy as a text.
pub record TartBootstrapConfigSpec : Type 0 where
  pub config_patches_secret_ref : Option String
  pub update_policy : String

pub record TartBootstrapConfig : Type 0 where
  pub name : String
  pub namespace : String
  pub labels : StringMap
  pub owner_references : List OwnerReference
  pub annotations : StringMap
  pub spec : TartBootstrapConfigSpec

abbrev pub machine_digest_key : String
machine_digest_key = "tart.cluster.x-k8s.io/last-applied-machine-template-digest"

abbrev pub bootstrap_digest_key : String
bootstrap_digest_key = "tart.cluster.x-k8s.io/last-applied-bootstrap-template-digest"

abbrev secret_name : Option String → String
secret_name none = ""
secret_name (some name) = name

-- The annotations that `patchTemplateDigest` sends.
abbrev pub with_digest : StringMap → String → String → StringMap
with_digest annotations key digest = put_key annotations key digest

module _ (digest : List String → String) where
  -- `machineImageDigest`.
  abbrev pub machine_image_digest : TalosImageSpec → String
  machine_image_digest image = digest (image.version ∷ image.schematic_id ∷ [])

  -- `bootstrapConfigTemplateDigest`.
  abbrev pub bootstrap_config_template_digest : TartBootstrapConfigSpec → String
  bootstrap_config_template_digest template =
      digest (secret_name template.config_patches_secret_ref ∷ template.update_policy ∷ [])

  -- `syncMachineTemplate`.
  unfoldable pub sync_machine_template :
      (TartMachine → Result ControlPlaneError (Unit {0}))
      → TartMachine
      → TartMachine
      → Run TartMachine ControlPlaneError (Unit {0})
  sync_machine_template answer current expected =
      let last = lookup_or_empty current.annotations machine_digest_key in
      let current_digest = machine_image_digest current.spec.image in
      let desired_digest = machine_image_digest expected.spec.image in
      let annotations = with_digest current.annotations machine_digest_key desired_digest in
      let marked = record current { annotations = annotations } in
      let updated = record current {
        annotations = annotations;
        spec = record current.spec { image = expected.spec.image };
      } in
      if last == ""
      then if current_digest != desired_digest
        then just (err (failure "MachineSpecMismatch"))
        else call marked (answer marked)
      else if current_digest != last
      then just (ok tt)
      else if current_digest == desired_digest
      then just (ok tt)
      else call updated (answer updated)

  -- `syncBootstrapTemplate`.
  unfoldable pub sync_bootstrap_template :
      (TartBootstrapConfig → Result ControlPlaneError (Unit {0}))
      → TartBootstrapConfig
      → TartBootstrapConfig
      → Run TartBootstrapConfig ControlPlaneError (Unit {0})
  sync_bootstrap_template answer current expected =
      let last = lookup_or_empty current.annotations bootstrap_digest_key in
      let current_digest = bootstrap_config_template_digest current.spec in
      let desired_digest = bootstrap_config_template_digest expected.spec in
      let annotations = with_digest current.annotations bootstrap_digest_key desired_digest in
      let marked = record current { annotations = annotations } in
      let updated = record current { annotations = annotations; spec = expected.spec } in
      if last == ""
      then if current_digest != desired_digest
        then just (err (failure "BootstrapConfigMismatch"))
        else call marked (answer marked)
      else if current_digest != last
      then just (ok tt)
      else if current_digest == desired_digest
      then just (ok tt)
      else call updated (answer updated)
