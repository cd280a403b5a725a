-- ===== src/Repository/Scenarios.antt =====
-- Runs of the repository on the small server.
use cluster_api_provider_tar.Repository.SmallServer.{fresh, small_server}
use cluster_api_provider_tar.Api.Meta.{reference_beq}
use cluster_api_provider_tar.Repository.TartHostRepository.Errors.{attempts_not_exhausted}
use cluster_api_provider_tar.Host.Eligibility.{classify, reusable, reprovision_approved}
use cluster_api_provider_tar.Repository.TartHostRepository.Retention.{
  Retained, retain_host_safe, Retained-not_reusable,
}
use cluster_api_provider_tar.Repository.TartHostRepository.Claims.{
  Claimed, claim_host_with_request_safe,
}
use cluster_api_provider_tar.Repository.TartHostRepository.{
  claim_host_with_request, retain_host, pinned, decide_and_validate, retained_host, claimed_host,
}
use cluster_api_provider_tar.Repository.Loop.{Outcome, update_loop}
use cluster_api_provider_tar.Host.Selector.{LabelMatcher, matches_for_failure_domain}
use cluster_api_provider_tar.Host.ClaimDecision.{
  ClaimRequest, attempts_exhausted, fresh_automatic, decide_retention, decide_claim,
  validate_claim_candidate,
}
use cluster_api_provider_tar.Base.Result.{ok, err}
use cluster_api_provider_tar.Api.Samples.{sample_host, sample_spec, sample_consumer}
use cluster_api_provider_tar.Base.{
  ◌≡◌, refl, ◌≢◌, ◌⊎◌, true, false, none, some, arith, eq_iff, comparable_nat, comparable_text,
  comparable_list,
}
use cluster_api_provider_tar.Host.ClaimDecision.{explicit_reusable, claim_apply}
use cluster_api_provider_tar.Repository.Ownership.{
  Step, claims, releases, changes, stays, goes_on, IsApprovedClaim, held_host-IsApprovedClaim,
}
use cluster_api_provider_tar.Repository.Ownership.Refinement.{
  Refines, IsCarriedOut, run_request-Refines, run_request, to_claim,
}
use cluster_api_provider_tar.Api.Host.{
  TartHostSpec, PreviousConsumerRef, allow_reuse, reprovision, TartHost,
}

abbrev request : ClaimRequest
request = record {
  consumer = sample_consumer;
  expected_host_id = 0;
  selector = none;
  failure_domain = "rack-a";
  mode = fresh_automatic;
}

abbrev any_labels : LabelMatcher
any_labels selector labels = some true

abbrev claim_run : Outcome (small_server sample_spec)
claim_run = claim_host_with_request (small_server sample_spec) any_labels fresh sample_host request

-- The first attempt conflicts, the second writes over the relabelled host.
claim_run_succeeds : claim_run.result ≡ ok tt
unfolding claim_host_with_request update_loop decide_and_validate claimed_host pinned decide_claim
    validate_claim_candidate classify matches_for_failure_domain
claim_run_succeeds = refl

claim_host_with_request_safe_example :
    Claimed (small_server sample_spec) any_labels fresh (pinned sample_host request) claim_run
claim_host_with_request_safe_example =
    claim_host_with_request_safe (small_server sample_spec) any_labels fresh sample_host request
      refl claim_run_succeeds

abbrev claimed_spec : TartHostSpec
claimed_spec = record sample_spec {
  consumer_ref = some sample_consumer;
  reuse_policy = allow_reuse;
  reuse_mode = reprovision;
  reuse_approval = some (record { previous_consumer_uid = "uid-of-another" });
}

abbrev previous : PreviousConsumerRef
previous = record { namespace = "default"; name = "machine-a"; uid = "uid-a"; cluster_id = 5 }

abbrev retain_run : Outcome (small_server claimed_spec)
retain_run =
    retain_host (small_server claimed_spec) fresh (record sample_host { spec = claimed_spec })
      sample_consumer previous

retain_run_succeeds : retain_run.result ≡ ok tt
unfolding retain_host update_loop retained_host decide_retention reference_beq
retain_run_succeeds = refl

retain_host_safe_example :
    Retained (small_server claimed_spec) fresh sample_consumer previous retain_run
retain_host_safe_example =
    retain_host_safe (small_server claimed_spec) fresh (record sample_host { spec = claimed_spec })
      sample_consumer previous refl retain_run_succeeds

retain_run_approval :
    retain_run.host.spec.reuse_approval ≡ some (record { previous_consumer_uid = "uid-of-another" })
unfolding retain_host update_loop retained_host decide_retention reference_beq
retain_run_approval = refl

Retained-not_reusable_example :
    (classify retain_run.host.spec ≢ reusable) × (reprovision_approved retain_run.host.spec ≡ false)
Retained-not_reusable_example =
    Retained-not_reusable (small_server claimed_spec) fresh sample_consumer previous retain_run
      (record { previous_consumer_uid = "uid-of-another" }) retain_host_safe_example
      retain_run_approval (ground (arith, eq_iff "uid-of-another" "uid-a"))

attempts_not_exhausted_example :
    (claim_run.result ≢ err attempts_exhausted)
    × ((retain_host (small_server sample_spec) fresh sample_host sample_consumer previous).result
        ≢ err attempts_exhausted)
attempts_not_exhausted_example =
    attempts_not_exhausted (small_server sample_spec) any_labels fresh sample_host request
      sample_consumer previous

run_request-Refines_example :
    Refines
      (small_server sample_spec)
      any_labels
      (IsCarriedOut (small_server sample_spec) any_labels sample_host (to_claim request))
      fresh
      sample_host.name
      (run_request (small_server sample_spec) any_labels fresh sample_host (to_claim request)).state
run_request-Refines_example =
    run_request-Refines (small_server sample_spec) any_labels fresh sample_host (to_claim request)
      refl

-- The request of another machine.
abbrev late_request : ClaimRequest
late_request = record request { consumer = record sample_consumer { uid = "uid-b" } }

-- Machine a gives the host up, an operator approves its reuse, and machine b claims it.
abbrev held_by_a : TartHost
held_by_a = record sample_host { spec = claimed_spec }

abbrev given_up : TartHost
given_up = retained_host previous held_by_a

abbrev approved : TartHost
approved = record sample_host {
  spec = record claimed_spec {
    consumer_ref = none;
    previous_consumer_ref = some previous;
    reuse_approval = some (record { previous_consumer_uid = "uid-a" });
  };
}

abbrev reuse_request : ClaimRequest
reuse_request = record late_request { mode = explicit_reusable }

releases_a : Step any_labels held_by_a given_up
unfolding decide_retention reference_beq
releases_a = releases sample_consumer previous decided
  where
    decided : decide_retention held_by_a.spec sample_consumer previous ≡ ok claim_apply
    decided = refl

approves : Step any_labels given_up approved
unfolding retained_host
approves = changes approved refl refl

claims_b : Step any_labels approved (claimed_host reuse_request approved)
unfolding decide_and_validate decide_claim validate_claim_candidate classify
    matches_for_failure_domain
claims_b = claims reuse_request decided
  where
    decided : decide_and_validate any_labels reuse_request approved ≡ ok claim_apply
    decided = refl

held_host-IsApprovedClaim_example :
    (sample_consumer ≡ late_request.consumer)
    ⊎ IsApprovedClaim any_labels held_by_a (claimed_host reuse_request approved) "uid-a"
unfolding claimed_host
held_host-IsApprovedClaim_example =
    held_host-IsApprovedClaim any_labels held_by_a (claimed_host reuse_request approved)
      sample_consumer late_request.consumer
      (goes_on releases_a (goes_on approves (goes_on claims_b stays))) refl refl
