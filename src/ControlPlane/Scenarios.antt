-- ===== src/ControlPlane/Scenarios.antt =====
-- Concrete control planes on which the theorems on quorum, rotation and bundles apply.
use cluster_api_provider_tar.Base.{
  ℕ, String, ◌+◌, ◌-◌, ◌≤◌, ◌<◌, ◌≡◌, refl, ◌≢◌, ◌↔◌, ◌⊎◌, inr, Bool, true, false, Option, none,
  some, List, [], ◌∷◌, arith, eq_iff, comparable_nat, comparable_text, comparable_list,
}
use cluster_api_provider_tar.Base.Int.{pos, negsuc}
use cluster_api_provider_tar.Base.Format.{concat, format_int}
use cluster_api_provider_tar.Base.Result.{ok, err}
use cluster_api_provider_tar.Api.Meta.{OwnerReference, StringMap, lookup_or_empty}
use cluster_api_provider_tar.Api.Secret.{Secret}
use cluster_api_provider_tar.ControlPlane.Quorum.{
  RemovalObservation, can_remove_member, can_temporarily_disrupt_member,
}
use cluster_api_provider_tar.ControlPlane.Quorum.Majority.{
  IsRemovable, HasQuorum, can_remove_member_iff, can_temporarily_disrupt_member_iff,
  negative_counts,
}
use cluster_api_provider_tar.ControlPlane.Rotation.{
  CertificateAndKey, Certificate, CertBundle, ObservedCa, dual_trust, ca_stage, observe_stage,
  observe_stage_without_aggregator,
}
use cluster_api_provider_tar.ControlPlane.Rotation.Stages.{
  OnlyKnown, AtStage, WorkerAccepts, ca_stage_iff, observe_stage_iff, worker_stage_iff,
}
use cluster_api_provider_tar.ControlPlane.Bundle.{
  max_int32, next_generation, invalid_bundle_generation, validate_bundle_secret_contract,
  build_bundle_secret, new_bundle_secret, bundle_name, check_buildable, bundle_state_pending,
  clone_complete_data, bundle_secret_invalid,
}
use cluster_api_provider_tar.ControlPlane.Bundle.Contract.{next_generation_lem, validate-build}

-- Three members, one of them unhealthy: it is the one that can go.
can_remove_member_iff_example :
    (can_remove_member (record {
      member_count = pos 3;
      healthy_member_count = pos 2;
      target_healthy = false;
      target_health_observed = true;
    })
      ≡ true)
    ↔ ((true ≡ true) × IsRemovable 3 2 false)
can_remove_member_iff_example = can_remove_member_iff 3 2 false true

can_temporarily_disrupt_member_iff_example :
    (can_temporarily_disrupt_member (record {
      member_count = pos 3;
      healthy_member_count = pos 3;
      target_healthy = true;
      target_health_observed = true;
    })
      ≡ true)
    ↔ ((true ≡ true)
        × (true ≡ true)
        × (3 ≤ 3)
        × ((◌≡◌ {A = ℕ} 3 1 × ◌≡◌ {A = ℕ} 3 1) ⊎ HasQuorum 3 (3 - 1)))
can_temporarily_disrupt_member_iff_example = can_temporarily_disrupt_member_iff 3 3 true true

abbrev broken : RemovalObservation
broken = record {
  member_count = pos 3;
  healthy_member_count = negsuc 0;
  target_healthy = false;
  target_health_observed = true;
}

negative_counts_example :
    (can_remove_member broken ≡ false) × (can_temporarily_disrupt_member broken ≡ false)
negative_counts_example = negative_counts broken 0 (inr refl)

abbrev old_ca : CertificateAndKey
old_ca = record { crt = "old"; key = "k" }

abbrev new_ca : CertificateAndKey
new_ca = record { crt = "new"; key = "l" }

abbrev both : List (Option Certificate)
both = some (record { crt = "new" }) ∷ []

old≢new : ◌≢◌ {A = String} "old" "new"
old≢new = ground (arith, eq_iff "old" "new")

ca_stage_iff_example :
    (ca_stage (some old_ca) both (some old_ca) (some new_ca) ≡ dual_trust)
    ↔ (OnlyKnown both "old" "new" × AtStage "old" both "old" "new" dual_trust)
ca_stage_iff_example = ca_stage_iff old_ca old_ca new_ca both dual_trust old≢new (ground arith)

abbrev dual : ObservedCa
dual = record { issuing = some old_ca; accepted = both }

abbrev old_bundle : CertBundle
old_bundle = record {
  machine = some old_ca;
  kubernetes_api = some old_ca;
  kubernetes_aggregator = some old_ca;
}

abbrev new_bundle : CertBundle
new_bundle = record {
  machine = some new_ca;
  kubernetes_api = some new_ca;
  kubernetes_aggregator = some new_ca;
}

observe_stage_iff_example : (observe_stage dual dual dual old_bundle new_bundle ≡ dual_trust) ↔ (
    (ca_stage (some old_ca) both (some old_ca) (some new_ca) ≡ dual_trust)
    × (ca_stage (some old_ca) both (some old_ca) (some new_ca) ≡ dual_trust)
    × (ca_stage (some old_ca) both (some old_ca) (some new_ca) ≡ dual_trust))
observe_stage_iff_example =
    observe_stage_iff dual dual dual old_bundle new_bundle dual_trust (ground arith)

worker_stage_iff_example :
    (observe_stage_without_aggregator dual both old_bundle new_bundle ≡ dual_trust) ↔ (
      (ca_stage (some old_ca) both (some old_ca) (some new_ca) ≡ dual_trust)
      × OnlyKnown both "old" "new"
      × WorkerAccepts both "old" "new" dual_trust)
worker_stage_iff_example =
    worker_stage_iff dual both old_bundle new_bundle old_ca new_ca dual_trust (ground arith) refl
      refl

next_generation_lem_example :
    ((4 < max_int32) × (next_generation (pos 4) ≡ ok (pos (4 + 1))))
    ⊎ ((4 ≡ max_int32) × (next_generation (pos 4) ≡ err invalid_bundle_generation))
next_generation_lem_example = next_generation_lem 4 (ground arith)

abbrev every_name : String → Bool
every_name name = true

abbrev print_id : ℕ → String
print_id n = "id"

abbrev owner : OwnerReference
owner = record {
  api_version = "infrastructure.cluster.x-k8s.io/v1alpha1";
  kind = "TartCluster";
  name = "c";
  uid = "u";
  controller = none;
}

abbrev entries : StringMap
entries = ("bundle", "secret") ∷ []

abbrev built : Secret
built =
    new_bundle_secret every_name print_id "c-talos-secrets-id-g1" "ns" "c" 5 (pos 1)
      bundle_state_pending owner entries

built_run :
    build_bundle_secret every_name print_id "ns" "c" 5 (pos 1) bundle_state_pending owner entries
    ≡ ok built
unfolding build_bundle_secret check_buildable bundle_name clone_complete_data concat format_int
built_run = refl

validate-build_example :
    validate_bundle_secret_contract every_name print_id
      (some built)
      "ns"
      "c"
      5
      (pos 1)
      bundle_state_pending
      "u"
    ≡ ok tt
validate-build_example =
    validate-build every_name print_id "ns" "c" 5 (pos 1) bundle_state_pending owner entries built
      "u" built_run (inr refl)

owner_uid_matters :
    validate_bundle_secret_contract every_name print_id
      (some built)
      "ns"
      "c"
      5
      (pos 1)
      bundle_state_pending
      "v"
    ≡ err bundle_secret_invalid
unfolding validate_bundle_secret_contract bundle_name clone_complete_data lookup_or_empty concat
    format_int
owner_uid_matters = refl
