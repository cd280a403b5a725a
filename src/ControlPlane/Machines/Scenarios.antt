-- ===== src/ControlPlane/Machines/Scenarios.antt =====
-- A control plane of three machines over two failure domains, on which the theorems apply.
use cluster_api_provider_tar.Base.{
  ap, inr, sym, ◌∙◌, eq_iff, length, ℕ, zero, suc, String, ◌+◌, ◌-◌, ◌*◌, ◌/◌, ◌%◌, ◌^◌, ◌≤◌, ◌<◌,
  ◌≡◌, refl, subst, ◌≢◌, ◌↔◌, ◌⊎◌, inl, Bool, true, false, not, ◌&&◌, ◌||◌, Option, none, some,
  List, [], ◌∷◌, ◌++◌, map, arith, eq_refl, ltb, leb, if◌then◌else◌, Comparable, ◌==◌, ◌!=◌,
  comparable_nat, comparable_text, comparable_list, list_beq_iff, ==_refl, Bool-cases, Option-cases,
  ltb→lt, leb→le, is_some, any, keep, count_if, All, In, trim_space, is_blank, codes,
  is_blank-empty, is_blank_nonempty,
}
use cluster_api_provider_tar.Base.Int.{pos}
use cluster_api_provider_tar.Base.Format.{concat, format_nat}
use cluster_api_provider_tar.Base.Result.{Result, ok}
use cluster_api_provider_tar.Base.Run.{just}
use cluster_api_provider_tar.Api.Machine.{TartMachine}
use cluster_api_provider_tar.Host.FailureDomains.{FailureDomain, as_domain}
use cluster_api_provider_tar.Machine.Samples.{machine}
use cluster_api_provider_tar.ControlPlane.Etcd.Removal.{ControlPlaneError}
use cluster_api_provider_tar.ControlPlane.Machines.{
  LabelNames, TartControlPlane, control_plane_failure_domain, new_machine,
  validate_machine_reference, validate_control_plane_machine_owners, control_plane_child_name,
}
use cluster_api_provider_tar.ControlPlane.Machines.Placement.Balance.{
  ServesNamed, AreServing, same_domain_iff,
}
use cluster_api_provider_tar.ControlPlane.Machines.References.{
  new_machine-accepted, control_plane_child_name_differs,
}
use cluster_api_provider_tar.ControlPlane.Machines.TemplateSync.{
  machine_digest_key, machine_image_digest, sync_machine_template,
}
use cluster_api_provider_tar.ControlPlane.Machines.TemplateSync.Settled.{
  stored, IsMachineWrite, sync_machine_template-IsMachineWrite, sync_machine_template_settled,
}

abbrev pub label_names : LabelNames
label_names = record {
  cluster_name_label = "cluster.x-k8s.io/cluster-name";
  control_plane_label = "cluster.x-k8s.io/control-plane";
  control_plane_name_label = "cluster.x-k8s.io/control-plane-name";
  skip_remediation_annotation = "cluster.x-k8s.io/skip-remediation";
  capi_group_version = "cluster.x-k8s.io/v1beta2";
}

abbrev pub control_plane : TartControlPlane
control_plane = record {
  name = "cp";
  namespace = "default";
  uid = "uid-cp";
  labels = [];
  owner_references = [];
  version = "v1.34.0";
  replicas = some (pos 3);
  template_meta = record { labels = []; annotations = [] };
  template_spec = record {
    infrastructure_ref = record {
      api_group = "infrastructure.cluster.x-k8s.io";
      kind = "TartMachineTemplate";
      name = "t";
    };
    readiness_gates = [];
    taints = [];
    deletion = record {
      node_drain_timeout_seconds = none;
      node_volume_detach_timeout_seconds = none;
      node_deletion_timeout_seconds = none;
    };
  };
  bootstrap_config_template_ref = record {
    api_group = "bootstrap.cluster.x-k8s.io";
    kind = "TartBootstrapConfigTemplate";
    name = "b";
  };
}

-- The rack of workers takes no control plane, and one domain is listed twice.
abbrev pub domains : List FailureDomain
domains =
    as_domain "rack-b"
    ∷ record { name = "rack-w"; control_plane = some false }
    ∷ as_domain "rack-a"
    ∷ record { name = "rack-b"; control_plane = none }
    ∷ []

second_domain : control_plane_failure_domain domains 1 ≡ some "rack-b"
unfolding control_plane_failure_domain cluster_api_provider_tar.Base.Sort.sort
    cluster_api_provider_tar.Host.FailureDomains.text_before
    cluster_api_provider_tar.Base.Order.lt_bytes
second_domain = refl

abbrev serving : List String
serving = "rack-a" ∷ "rack-b" ∷ []

serving-AreServing : AreServing serving domains
serving-AreServing = (
  ((λ m. ground (arith, m, eq_iff "rack-a" "rack-b")), ((λ m. m), tt)),
  λ x. (sound x, complete x),
)
  where
    sound : (x : String) → In x serving → ServesNamed domains x
    sound x (inl e) = (
      ground (arith, e, eq_iff "rack-a" ""),
      (as_domain "rack-a", inr (inr (inl refl)), sym e, λ h. cc),
    )
    sound x (inr (inl e)) =
        (ground (arith, e, eq_iff "rack-b" ""), (as_domain "rack-b", inl refl, sym e, λ h. cc))
    sound x (inr (inr m)) = absurd m

    complete : (x : String) → ServesNamed domains x → In x serving
    complete x (n, (d, inl m, e, c)) = inr (inl (sym e ∙ ap (λ g. g.name) m))
    complete x (n, (d, inr (inl m), e, c)) = absurd (c (ap (λ g. g.control_plane) m))
    complete x (n, (d, inr (inr (inl m)), e, c)) = inl (sym e ∙ ap (λ g. g.name) m)
    complete x (n, (d, inr (inr (inr (inl m))), e, c)) = inr (inl (sym e ∙ ap (λ g. g.name) m))
    complete x (n, (d, inr (inr (inr (inr m))), e, c)) = absurd m

same_domain_iff_example :
    ((a : String) × (control_plane_failure_domain domains 0 ≡ some a) × In a serving)
    × ((control_plane_failure_domain domains 0 ≡ control_plane_failure_domain domains 2)
        ↔ (0 % length serving ≡ 2 % length serving))
same_domain_iff_example =
    same_domain_iff domains serving 0 2 serving-AreServing (λ h. omega (arith, h))

no_owners : validate_control_plane_machine_owners [] control_plane ≡ ok tt
unfolding validate_control_plane_machine_owners
no_owners = refl

new_machine-accepted_example :
    (validate_machine_reference
        (new_machine label_names control_plane "c" 1 "rack-b" "cp-1" "cp-1-bootstrap")
        control_plane
        "c"
        "cp-1"
        "cp-1-bootstrap"
      ≡ ok tt)
    × (validate_control_plane_machine_owners
          (new_machine label_names control_plane "c" 1 "rack-b" "cp-1" "cp-1-bootstrap" ∷ [])
          control_plane
        ≡ ok tt)
new_machine-accepted_example =
    new_machine-accepted label_names control_plane "c" 1 "rack-b" "cp-1" "cp-1-bootstrap" []
      no_owners

abbrev pub is_name : String → Bool
is_name s = not (s == "")

second_name : control_plane_child_name is_name "cp" 1 "bootstrap" ≡ some "cp-1-bootstrap"
unfolding control_plane_child_name concat format_nat
second_name = refl

twelfth_name : control_plane_child_name is_name "cp" 11 "bootstrap" ≡ some "cp-11-bootstrap"
unfolding control_plane_child_name concat format_nat
twelfth_name = refl

control_plane_child_name_differs_example : ◌≢◌ {A = String} "cp-1-bootstrap" "cp-11-bootstrap"
control_plane_child_name_differs_example =
    control_plane_child_name_differs is_name "cp" "bootstrap" "cp-1-bootstrap" "cp-11-bootstrap" 1
      11 (omega arith) (omega arith) (λ h. omega (arith, h)) second_name twelfth_name

-- The digest is the text itself, so that it tells images apart.
abbrev pub plain_digest : List String → String
plain_digest values = concat values

abbrev with_image : String → TartMachine
with_image version = record machine {
  annotations = (machine_digest_key, "v1.12.0s") ∷ [];
  spec = record machine.spec { image = record { version = version; schematic_id = "s" } };
}

abbrev all_accepted : TartMachine → Result ControlPlaneError (Unit {0})
all_accepted m = ok tt

updated :
    In
      (record (with_image "v1.13.0") { annotations = (machine_digest_key, "v1.13.0s") ∷ [] })
      (sync_machine_template plain_digest all_accepted
        (with_image "v1.12.0")
        (with_image "v1.13.0")).calls
unfolding sync_machine_template cluster_api_provider_tar.Api.Meta.lookup_or_empty concat
    cluster_api_provider_tar.Api.Meta.put_key
updated = inl refl

-- An image that somebody set by hand stays.
kept :
    sync_machine_template plain_digest all_accepted (with_image "v1.12.5") (with_image "v1.13.0")
    ≡ just (ok tt)
unfolding sync_machine_template cluster_api_provider_tar.Api.Meta.lookup_or_empty concat
kept = refl

sync_machine_template-IsMachineWrite_example :
    IsMachineWrite plain_digest
      (with_image "v1.12.0")
      (with_image "v1.13.0")
      (record (with_image "v1.13.0") { annotations = (machine_digest_key, "v1.13.0s") ∷ [] })
sync_machine_template-IsMachineWrite_example =
    sync_machine_template-IsMachineWrite plain_digest all_accepted (with_image "v1.12.0")
      (with_image "v1.13.0")
      (record (with_image "v1.13.0") { annotations = (machine_digest_key, "v1.13.0s") ∷ [] })
      updated

has_digest : machine_image_digest plain_digest (with_image "v1.13.0").spec.image ≢ ""
unfolding concat
has_digest h = ground (arith, (eq_iff "v1.13.0s" "").1 h)

carried_out :
    (sync_machine_template plain_digest all_accepted
      (with_image "v1.12.0")
      (with_image "v1.13.0")).result
    ≡ ok tt
unfolding sync_machine_template cluster_api_provider_tar.Api.Meta.lookup_or_empty concat
carried_out = refl

sync_machine_template_settled_example :
    sync_machine_template plain_digest all_accepted
      (stored
        (with_image "v1.12.0")
        (sync_machine_template plain_digest all_accepted
          (with_image "v1.12.0")
          (with_image "v1.13.0")).calls)
      (with_image "v1.13.0")
    ≡ just (ok tt)
sync_machine_template_settled_example =
    sync_machine_template_settled plain_digest all_accepted (with_image "v1.12.0")
      (with_image "v1.13.0") has_digest carried_out
