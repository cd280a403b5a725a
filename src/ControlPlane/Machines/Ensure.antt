-- ===== src/ControlPlane/Machines/Ensure.antt =====
-- `ensureMachines` of controller/tartcontrolplane/machines.go: the machines of a control plane are
-- created, checked and kept in step with its template, one ordinal after the other; then the
-- surplus is scaled down. Lists that are nil and empty are not told apart.
pub mod ProviderCalls
pub mod Allowed
pub mod Checks
pub mod Safety
pub mod Scenarios
use cluster_api_provider_tar.Base.{
  ℕ, zero, suc, String, ◌+◌, ◌-◌, ◌*◌, ◌/◌, ◌%◌, ◌^◌, ◌≤◌, ◌<◌, ◌≡◌, refl, sym, ap, subst, ◌∙◌, ◌≢◌,
  ◌↔◌, ◌⊎◌, inl, inr, Bool, true, false, not, ◌&&◌, ◌||◌, Option, none, some, List, [], ◌∷◌, ◌++◌,
  map, arith, eq_iff, eq_refl, ltb, leb, if◌then◌else◌, Comparable, ◌==◌, ◌!=◌, comparable_nat,
  comparable_text, comparable_list, list_beq_iff, ==_refl, Bool-cases, Option-cases, ltb→lt, leb→le,
  is_some, length, any, keep, count_if, All, In, trim_space, is_blank, codes, is_blank-empty,
  is_blank_nonempty,
}
use cluster_api_provider_tar.Base.Int.{ℤ, pos, ◌<?◌, same_ℤ}
use cluster_api_provider_tar.Base.Result.{Result, ok, err, or_fail}
use cluster_api_provider_tar.Base.Run.{Run, just, call, stop_if, ◌>>=◌, ◌>>◌}
use cluster_api_provider_tar.Api.Meta.{ApiError}
use cluster_api_provider_tar.Api.Machine.{CapiMachine, MachineDeletionSpec}
use cluster_api_provider_tar.Host.FailureDomains.{FailureDomain}
use cluster_api_provider_tar.ControlPlane.Etcd.{EtcdNames, EtcdAnswers}
use cluster_api_provider_tar.ControlPlane.Etcd.Removal.{ControlPlaneError, failure, pending}
use cluster_api_provider_tar.ControlPlane.Etcd.ScaleDown.{reconcile_scale_down}
use cluster_api_provider_tar.ControlPlane.Machines.{
  LabelNames, TartControlPlane, control_plane_failure_domain, contains_control_plane_failure_domain,
  validate_control_plane_machine_owners, machine_deletion_spec, validate_machine_reference,
  new_machine, control_plane_child_name, bootstrap_config_name,
}
use cluster_api_provider_tar.ControlPlane.Machines.Providers.{
  TartMachineTemplate, TartBootstrapConfigTemplate, EnsureRun, EnsureCall, capi_machine_created,
  capi_machine_patched, scaling, lift_calls, or_api_failure, or_exists, ProviderAnswers,
  ensure_provider_resources,
}

-- What the API server answers on machines; it lists those with the labels of the control plane.
pub record MachineAnswers : Type 0 where
  pub list : Result ApiError (List CapiMachine)
  pub list_again : Result ApiError (List CapiMachine)
  pub create : CapiMachine → Result ApiError (Unit {0})
  pub get : String → Result ApiError CapiMachine
  pub patch : CapiMachine → Result ControlPlaneError (Unit {0})

abbrev same_timeout : Option ℤ → Option ℤ → Bool
same_timeout none none = true
same_timeout none (some b) = false
same_timeout (some a) none = false
same_timeout (some a) (some b) = same_ℤ a b

abbrev same_deletion : MachineDeletionSpec → MachineDeletionSpec → Bool
same_deletion a b =
    same_timeout a.node_drain_timeout_seconds b.node_drain_timeout_seconds
    && same_timeout a.node_volume_detach_timeout_seconds b.node_volume_detach_timeout_seconds
    && same_timeout a.node_deletion_timeout_seconds b.node_deletion_timeout_seconds

abbrev pub named : List CapiMachine → String → Option CapiMachine
named [] name = none
named (m ∷ ms) name = let rest = named ms name in if m.name == name then some m else rest

abbrev pub or_empty : Option String → String
or_empty none = ""
or_empty (some s) = s

-- The machine with the fields that its template determines.
abbrev pub with_template_fields : TartControlPlane → CapiMachine → CapiMachine
with_template_fields cp machine = record machine {
  readiness_gates = cp.template_spec.readiness_gates;
  taints = cp.template_spec.taints;
  deletion = machine_deletion_spec cp.template_spec.deletion;
  version = cp.version;
}

module _ (names : LabelNames) (digest : List String → String) (is_dns1123_subdomain : String → Bool)
    (etcd_names : EtcdNames) (etcd_answers : EtcdAnswers) (providers : ProviderAnswers)
    (answers : MachineAnswers) (cp : TartControlPlane) (cluster_name : String) where
  -- `ensureMachineTemplateFields`.
  unfoldable pub ensure_machine_template_fields : CapiMachine → EnsureRun (Unit {0})
  ensure_machine_template_fields machine =
      let patched = with_template_fields cp machine in
      if is_some machine.deletion_timestamp
      then just (ok tt)
      else if machine.readiness_gates == patched.readiness_gates
          && machine.taints == patched.taints
          && same_deletion machine.deletion patched.deletion
          && machine.version == patched.version
      then just (ok tt)
      else call (capi_machine_patched patched) (answers.patch patched)

  -- `createMachine`.
  unfoldable pub create_machine : ℕ → String → String → EnsureRun CapiMachine
  create_machine ordinal failure_domain name = do
    bootstrap_name ← just (
        or_fail (bootstrap_config_name is_dns1123_subdomain cp.name ordinal)
          (failure "MachineNameInvalid"))
    call
        (capi_machine_created
          (new_machine names cp cluster_name ordinal failure_domain name bootstrap_name))
        (or_exists (
          answers.create
            (new_machine names cp cluster_name ordinal failure_domain name bootstrap_name)))
    just (or_api_failure (answers.get name))

  module _ (domains : List FailureDomain) (machine_template : TartMachineTemplate)
      (bootstrap_template : TartBootstrapConfigTemplate) where
    pub found_or_created : ℕ → String → String → Option CapiMachine → EnsureRun CapiMachine
    found_or_created ordinal failure_domain name (some machine) = just (ok machine)
    found_or_created ordinal failure_domain name none = create_machine ordinal failure_domain name

    -- The round of one ordinal, once its machine is there.
    pub check_machine : ℕ → String → CapiMachine → EnsureRun (Unit {0})
    check_machine ordinal name machine = do
      bootstrap_name ← just (
          or_fail (bootstrap_config_name is_dns1123_subdomain cp.name ordinal)
            (failure "MachineNameInvalid"))
      just (validate_machine_reference machine cp cluster_name name bootstrap_name)
      stop_if
          (machine.failure_domain != ""
            && not (contains_control_plane_failure_domain domains machine.failure_domain))
          (failure "FailureDomainInvalid")
      ensure_machine_template_fields machine
      ensure_provider_resources names digest cp cluster_name is_dns1123_subdomain providers ordinal
          machine machine_template bootstrap_template

    -- The round of one ordinal, with the machines by their names.
    pub ensure_machine : List CapiMachine → ℕ → EnsureRun (Unit {0})
    unfolding found_or_created check_machine
    ensure_machine by_name ordinal = do
      stop_if
          (ltb 0 (length domains) && not (is_some (control_plane_failure_domain domains ordinal)))
          (failure "FailureDomainInvalid")
      name ← just (
          or_fail (control_plane_child_name is_dns1123_subdomain cp.name ordinal "")
            (failure "MachineNameInvalid"))
      machine ←
          found_or_created ordinal (or_empty (control_plane_failure_domain domains ordinal)) name
            (named by_name name)
      check_machine ordinal name machine

    -- The last `n` ordinals below `m + n`. A name is looked up once, so the map of the source is
    -- the list as it was read.
    pub ensure_from : List CapiMachine → ℕ → ℕ → EnsureRun (Unit {0})
    unfolding ensure_machine
    ensure_from by_name m zero = just (ok tt)
    ensure_from by_name m (suc n) = ensure_machine by_name m >> ensure_from by_name (suc m) n

    pub scale_down : ℕ → List CapiMachine → EnsureRun (List CapiMachine × Option ControlPlaneError)
    scale_down desired machines =
        let surplus =
          lift_calls scaling
            (reconcile_scale_down etcd_names etcd_answers machines (pos desired)) in
        if not (ltb desired (length machines))
        then just (ok (machines, none))
        else record { calls = surplus.calls; result = ok (machines, scaled surplus.result) }
      where
        scaled : Result ControlPlaneError Bool → Option ControlPlaneError
        scaled (err e) = some e
        scaled (ok false) = none
        scaled (ok true) = some (pending "scale-down")

    -- `ensureMachines`; the machines are also returned with an error of the scale-down.
    unfoldable pub ensure_machines : ℕ → EnsureRun (List CapiMachine × Option ControlPlaneError)
    unfolding ensure_from scale_down
    ensure_machines desired = do
      machines ← just (or_api_failure answers.list)
      just (validate_control_plane_machine_owners machines cp)
      ensure_from machines 0 desired
      refreshed ← just (or_api_failure answers.list_again)
      just (validate_control_plane_machine_owners refreshed cp)
      scale_down desired refreshed
