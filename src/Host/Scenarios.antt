-- ===== src/Host/Scenarios.antt =====
-- Concrete hosts on which the theorems on eligibility and claims apply.
use cluster_api_provider_tar.Base.{
  ◌≡◌, refl, ◌≢◌, ◌↔◌, ◌⊎◌, inr, true, false, none, some, arith, eq_iff, comparable_nat,
  comparable_text, comparable_list,
}
use cluster_api_provider_tar.Base.Result.{ok}
use cluster_api_provider_tar.Api.Host.{
  TartHost, TartHostSpec, PreviousConsumerRef, ReuseApproval, allow_reuse, reprovision, adopt,
}
use cluster_api_provider_tar.Api.Samples.{sample_host, sample_spec, sample_consumer}
use cluster_api_provider_tar.Host.Eligibility.{classify, reusable, available, reprovision_approved}
use cluster_api_provider_tar.Host.Eligibility.Approval.{
  IsApproved, classify_reusable_sound, classify_reusable_complete, approval_stale,
  reprovision_approved-claim, classify_available_iff,
}
use cluster_api_provider_tar.Host.Selector.{LabelMatcher}
use cluster_api_provider_tar.Host.ClaimDecision.{
  ClaimRequest, explicit_reusable, decide_claim, decide_retention, claim_apply, claim_noop,
  valid_consumer_reference, validate_claim_candidate,
}
use cluster_api_provider_tar.Host.ClaimDecision.Laws.{
  IsClaimable, decide_claim_iff, decide_retention_iff, decide_retention_noop_iff,
  validate_claim_candidate_iff,
}

abbrev previous : PreviousConsumerRef
previous = record { namespace = "default"; name = "machine-a"; uid = "uid-a"; cluster_id = 5 }

abbrev approval : ReuseApproval
approval = record { previous_consumer_uid = "uid-a" }

abbrev stale_approval : ReuseApproval
stale_approval = record { previous_consumer_uid = "uid-z" }

-- Released by machine-a, and approved for a reset.
abbrev approved_spec : TartHostSpec
approved_spec = record sample_spec {
  previous_consumer_ref = some previous;
  reuse_policy = allow_reuse;
  reuse_approval = some approval;
  reuse_mode = reprovision;
}

approved : IsApproved approved_spec previous approval
approved = record {
  on_record = refl;
  given = refl;
  policy = refl;
  identified = ground (arith, eq_iff "uid-a" "");
  same_consumer = refl;
}

classify_reusable_complete_example : classify approved_spec ≡ reusable
classify_reusable_complete_example =
    classify_reusable_complete approved_spec previous approval approved refl (inr refl)

approved_is_reusable : classify approved_spec ≡ reusable
unfolding classify
approved_is_reusable = refl

classify_reusable_sound_example :
    (p : PreviousConsumerRef) × (a : ReuseApproval) × IsApproved approved_spec p a
    × (approved_spec.consumer_ref ≡ none)
    × ((approved_spec.reuse_mode ≡ adopt) ⊎ (approved_spec.reuse_mode ≡ reprovision))
classify_reusable_sound_example = classify_reusable_sound approved_spec approved_is_reusable

abbrev stale_spec : TartHostSpec
stale_spec = record approved_spec { reuse_approval = some stale_approval }

approval_stale_example :
    (classify stale_spec ≢ reusable) × (reprovision_approved stale_spec ≡ false)
approval_stale_example =
    approval_stale stale_spec previous stale_approval refl refl
      (ground (arith, eq_iff "uid-z" "uid-a"))

reprovision_approved-claim_example :
    (reprovision_approved (record approved_spec { consumer_ref = some sample_consumer })
      ≡ reprovision_approved approved_spec)
    × (reprovision_approved approved_spec ≡ true
        → approved_spec.consumer_ref ≡ none
        → classify approved_spec ≡ reusable)
reprovision_approved-claim_example = reprovision_approved-claim approved_spec (some sample_consumer)

classify_available_iff_example :
    (classify sample_spec ≡ available)
    ↔ ((sample_spec.consumer_ref ≡ none) × (sample_spec.previous_consumer_ref ≡ none))
classify_available_iff_example = classify_available_iff sample_spec

decide_claim_iff_example :
    ((decide_claim approved_spec sample_consumer ≡ ok claim_apply)
      ↔ ((valid_consumer_reference sample_consumer ≡ true) × (approved_spec.consumer_ref ≡ none)))
    × ((decide_claim approved_spec sample_consumer ≡ ok claim_noop) ↔ (
        (valid_consumer_reference sample_consumer ≡ true)
        × (approved_spec.consumer_ref ≡ some sample_consumer)))
decide_claim_iff_example = decide_claim_iff approved_spec sample_consumer

abbrev held_spec : TartHostSpec
held_spec = record sample_spec { consumer_ref = some sample_consumer }

decide_retention_iff_example :
    (decide_retention held_spec sample_consumer previous ≡ ok claim_apply) ↔ (
      (valid_consumer_reference sample_consumer ≡ true)
      × (previous.uid ≡ sample_consumer.uid)
      × (held_spec.consumer_ref ≡ some sample_consumer))
decide_retention_iff_example = decide_retention_iff held_spec sample_consumer previous

decide_retention_noop_iff_example :
    (decide_retention approved_spec sample_consumer previous ≡ ok claim_noop) ↔ (
      (valid_consumer_reference sample_consumer ≡ true)
      × (previous.uid ≡ sample_consumer.uid)
      × (approved_spec.consumer_ref ≡ none)
      × ((recorded : PreviousConsumerRef) × (approved_spec.previous_consumer_ref ≡ some recorded)
          × (recorded.uid ≡ previous.uid)))
decide_retention_noop_iff_example = decide_retention_noop_iff approved_spec sample_consumer previous

abbrev any_labels : LabelMatcher
any_labels selector labels = some true

abbrev reuse_request : ClaimRequest
reuse_request = record {
  consumer = sample_consumer;
  expected_host_id = 17;
  selector = none;
  failure_domain = "rack-a";
  mode = explicit_reusable;
}

abbrev released_host : TartHost
released_host = record sample_host { spec = approved_spec }

validate_claim_candidate_iff_example :
    (validate_claim_candidate any_labels released_host reuse_request ≡ ok tt)
    ↔ IsClaimable any_labels released_host reuse_request
validate_claim_candidate_iff_example =
    validate_claim_candidate_iff any_labels released_host reuse_request
