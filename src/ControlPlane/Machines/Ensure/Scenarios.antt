-- ===== src/ControlPlane/Machines/Ensure/Scenarios.antt =====
-- A control plane that has no machine yet: the first one is created, and not read back in time.
use cluster_api_provider_tar.Base.{
  ℕ, zero, suc, String, ◌+◌, ◌-◌, ◌*◌, ◌/◌, ◌%◌, ◌^◌, ◌≤◌, ◌<◌, ◌≡◌, refl, sym, ap, subst, ◌∙◌, ◌≢◌,
  ◌↔◌, ◌⊎◌, inl, inr, Bool, true, false, not, ◌&&◌, ◌||◌, Option, none, some, List, [], ◌∷◌, ◌++◌,
  map, arith, eq_iff, eq_refl, ltb, leb, if◌then◌else◌, Comparable, ◌==◌, ◌!=◌, comparable_nat,
  comparable_text, comparable_list, list_beq_iff, ==_refl, Bool-cases, Option-cases, ltb→lt, leb→le,
  is_some, length, any, keep, count_if, All, In, trim_space, is_blank, codes, is_blank-empty,
  is_blank_nonempty,
}
use cluster_api_provider_tar.Base.Result.{ok, err}
use cluster_api_provider_tar.Api.Meta.{not_found, other_error}
use cluster_api_provider_tar.Api.Machine.{CapiMachine}
use cluster_api_provider_tar.ControlPlane.Etcd.Scenarios.{names, three}
use cluster_api_provider_tar.ControlPlane.Machines.{
  new_machine, validate_control_plane_machine_owners,
}
use cluster_api_provider_tar.ControlPlane.Machines.Scenarios.{
  label_names, control_plane, domains, is_name, plain_digest,
}
use cluster_api_provider_tar.ControlPlane.Machines.Providers.{
  TartMachineTemplate, TartBootstrapConfigTemplate, ProviderAnswers, capi_machine_created,
}
use cluster_api_provider_tar.ControlPlane.Machines.Ensure.{MachineAnswers, ensure_machines}
use cluster_api_provider_tar.ControlPlane.Machines.Ensure.Allowed.{AreOwned, IsAllowed}
use cluster_api_provider_tar.ControlPlane.Machines.Ensure.Safety.{ensure_machines-IsAllowed}

abbrev machine_template : TartMachineTemplate
machine_template = record {
  template_meta = record { labels = []; annotations = [] };
  host_selector = none;
  image = record { version = "v1.13.0"; schematic_id = "s" };
}

abbrev bootstrap_template : TartBootstrapConfigTemplate
bootstrap_template = record {
  template_meta = record { labels = []; annotations = [] };
  spec = record { config_patches_secret_ref = none; update_policy = "" };
}

abbrev first_machine : CapiMachine
first_machine = new_machine label_names control_plane "c" 0 "rack-a" "cp-0" "cp-0-bootstrap"

abbrev answers : MachineAnswers
answers = record {
  list = ok [];
  list_again = ok [];
  create = λ m. ok tt;
  get = λ name. err (other_error "timeout");
  patch = λ m. ok tt;
}

abbrev providers : ProviderAnswers
providers = record {
  get_machine = λ name. err (other_error "timeout");
  get_created_machine = λ name. err not_found;
  create_machine = λ m. ok tt;
  patch_machine = λ m. ok tt;
  get_config = λ name. err not_found;
  get_created_config = λ name. err not_found;
  create_config = λ m. ok tt;
  patch_config = λ m. ok tt;
}

first_created :
    In
      (capi_machine_created first_machine)
      (ensure_machines label_names plain_digest is_name names three providers answers control_plane
        "c" domains machine_template bootstrap_template 1).calls
unfolding ensure_machines validate_control_plane_machine_owners
    cluster_api_provider_tar.ControlPlane.Machines.control_plane_failure_domain
    cluster_api_provider_tar.Base.Sort.sort cluster_api_provider_tar.Host.FailureDomains.text_before
    cluster_api_provider_tar.Base.Order.lt_bytes
    cluster_api_provider_tar.ControlPlane.Machines.control_plane_child_name
    cluster_api_provider_tar.Base.Format.concat cluster_api_provider_tar.Base.Format.format_nat
    cluster_api_provider_tar.ControlPlane.Machines.Ensure.create_machine
    cluster_api_provider_tar.ControlPlane.Machines.bootstrap_config_name
first_created = inl refl

ensure_machines-IsAllowed_example :
    (listed : List CapiMachine) × (answers.list ≡ ok listed)
    × AreOwned control_plane listed
    × IsAllowed label_names plain_digest control_plane "c" is_name providers machine_template
        bootstrap_template names three answers domains listed 1
        (capi_machine_created first_machine)
ensure_machines-IsAllowed_example =
    ensure_machines-IsAllowed label_names plain_digest control_plane "c" is_name providers
      machine_template bootstrap_template names three answers domains 1
      (capi_machine_created first_machine) first_created
