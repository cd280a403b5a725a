-- ===== src/ControlPlane/Machines/Ensure/Allowed.antt =====
-- `ensureMachines` of controller/tartcontrolplane/machines.go: which calls it may make.
use cluster_api_provider_tar.Base.{
  ℕ, String, ◌<◌, ◌≡◌, Bool, true, false, some, List, comparable_nat, comparable_text,
  comparable_list, is_some, length, In,
}
use cluster_api_provider_tar.Base.Result.{ok}
use cluster_api_provider_tar.Api.Machine.{CapiMachine}
use cluster_api_provider_tar.Host.FailureDomains.{FailureDomain}
use cluster_api_provider_tar.ControlPlane.Etcd.{EtcdNames, EtcdAnswers}
use cluster_api_provider_tar.ControlPlane.Machines.{
  LabelNames, TartControlPlane, control_plane_failure_domain, new_machine, control_plane_child_name,
  bootstrap_config_name,
}
use cluster_api_provider_tar.ControlPlane.Machines.Providers.{
  TartMachineTemplate, TartBootstrapConfigTemplate, EnsureCall, capi_machine_created,
  capi_machine_patched, tart_machine_created, tart_machine_patched, bootstrap_config_created,
  bootstrap_config_patched, scaling, ProviderAnswers,
}
use cluster_api_provider_tar.ControlPlane.Machines.Ensure.{MachineAnswers, with_template_fields}
use cluster_api_provider_tar.ControlPlane.Machines.Ensure.ProviderCalls.{IsProviderCall}
use cluster_api_provider_tar.ControlPlane.Etcd.ScaleDown.{reconcile_scale_down}
use cluster_api_provider_tar.ControlPlane.Machines.References.{IsMachineOf}
use cluster_api_provider_tar.ControlPlane.Machines.Placement.Balance.{ServesNamed}
use cluster_api_provider_tar.Controller.Ownership.{has_controller_owner}
use cluster_api_provider_tar.Base.Int.{pos}
use cluster_api_provider_tar.Base.{◌≢◌, ◌⊎◌}
use cluster_api_provider_tar.ControlPlane.Machines.{control_plane_owner}

-- Every machine of the list is owned by the control plane, as its controller.
abbrev pub AreOwned : TartControlPlane → List CapiMachine → Type 0
AreOwned cp machines =
    (m : CapiMachine)
    → In m machines
    → has_controller_owner m.owner_references (control_plane_owner cp) ≡ true

module _ (names : LabelNames) (digest : List String → String) (cp : TartControlPlane)
    (cluster_name : String) (is_dns1123_subdomain : String → Bool) (providers : ProviderAnswers)
    (machine_template : TartMachineTemplate)
    (bootstrap_template : TartBootstrapConfigTemplate) where
  module _ (etcd_names : EtcdNames) (etcd_answers : EtcdAnswers) (answers : MachineAnswers)
      (domains : List FailureDomain) where
    -- A machine that the round of one ordinal has checked: it was listed under the name of the
    -- ordinal, or no such machine was and it was read after its creation; and it has the owner, the
    -- cluster and the references that it should, and no failure domain or one that serves.
    pub record IsServed (by_name : List CapiMachine) (desired i : ℕ) (m : CapiMachine)
        : Type 0 where
      pub below : i < desired
      pub machine_name : String
      pub config_name : String
      pub is_named : control_plane_child_name is_dns1123_subdomain cp.name i "" ≡ some machine_name
      pub config_named : bootstrap_config_name is_dns1123_subdomain cp.name i ≡ some config_name
      pub origin :
          (In m by_name × (m.name ≡ machine_name))
          ⊎ (((x : CapiMachine) → In x by_name → x.name ≢ machine_name)
              × (answers.get machine_name ≡ ok m))
      pub accepted : IsMachineOf cp cluster_name machine_name config_name m
      pub placed : m.failure_domain ≢ "" → ServesNamed domains m.failure_domain

    -- A machine that may be created: it is new, has the name of an ordinal that is wanted and a
    -- failure domain if there are any.
    pub record IsWanted (by_name : List CapiMachine) (desired : ℕ) (x : CapiMachine) : Type 0 where
      pub i : ℕ
      pub below : i < desired
      pub machine_name : String
      pub config_name : String
      pub is_named : control_plane_child_name is_dns1123_subdomain cp.name i "" ≡ some machine_name
      pub config_named : bootstrap_config_name is_dns1123_subdomain cp.name i ≡ some config_name
      pub unknown : (y : CapiMachine) → In y by_name → y.name ≢ machine_name
      pub domain : String
      pub has_domain :
          (control_plane_failure_domain domains i ≡ some domain)
          ⊎ ((length domains ≡ 0) × (domain ≡ ""))
      pub made : x ≡ new_machine names cp cluster_name i domain machine_name config_name

    -- What may change on the objects of a machine: it was checked and has a UID.
    abbrev pub IsServedCall : List CapiMachine → ℕ → EnsureCall → Type 0
    IsServedCall by_name desired c =
        (i : ℕ) × (m : CapiMachine) × IsServed by_name desired i m
        × (m.uid ≢ "")
        × IsProviderCall names digest cp cluster_name is_dns1123_subdomain providers
            machine_template bootstrap_template i m c

    abbrev pub IsAllowed : List CapiMachine → ℕ → EnsureCall → Type 0
    IsAllowed by_name desired (capi_machine_created x) = IsWanted by_name desired x
    IsAllowed by_name desired (capi_machine_patched x) =
        (i : ℕ) × (m : CapiMachine) × IsServed by_name desired i m
        × (is_some m.deletion_timestamp ≡ false)
        × (x ≡ with_template_fields cp m)
    IsAllowed by_name desired (scaling c) =
        (machines : List CapiMachine) × (answers.list_again ≡ ok machines)
        × AreOwned cp machines
        × (desired < length machines)
        × In c (reconcile_scale_down etcd_names etcd_answers machines (pos desired)).calls
    IsAllowed by_name desired (tart_machine_created x) =
        IsServedCall by_name desired (tart_machine_created x)
    IsAllowed by_name desired (tart_machine_patched x) =
        IsServedCall by_name desired (tart_machine_patched x)
    IsAllowed by_name desired (bootstrap_config_created x) =
        IsServedCall by_name desired (bootstrap_config_created x)
    IsAllowed by_name desired (bootstrap_config_patched x) =
        IsServedCall by_name desired (bootstrap_config_patched x)
