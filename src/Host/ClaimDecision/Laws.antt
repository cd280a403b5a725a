-- ===== src/Host/ClaimDecision/Laws.antt =====
-- What the decisions on claims and releases depend on.
use cluster_api_provider_tar.Base.{
  ◌≡◌, refl, ◌↔◌, ◌⊎◌, true, Option, none, some, arith, eq_iff, comparable_nat, comparable_text,
  comparable_list,
}
use cluster_api_provider_tar.Base.Result.{ok}
use cluster_api_provider_tar.Api.Meta.{ObjectReference, comparable_reference, reference_beq_iff}
use cluster_api_provider_tar.Api.Host.{PreviousConsumerRef, TartHostSpec, TartHost}
use cluster_api_provider_tar.Host.Eligibility.{reusable, classify}
use cluster_api_provider_tar.Host.Eligibility.Approval.{
  classify_available_iff, classify_reusable-free,
}
use cluster_api_provider_tar.Host.Selector.{LabelMatcher, matches_for_failure_domain}
use cluster_api_provider_tar.Host.ClaimDecision.{
  ClaimRequest, ClaimMode, fresh_automatic, explicit_reusable, other_claim_mode, claim_apply,
  claim_noop, valid_consumer_reference, decide_claim, decide_retention, validate_claim_candidate,
}

-- A claim is applied exactly to a host that nobody holds, by a consumer that is identified, and is
-- a no-op exactly for the consumer that holds the host already.
pub decide_claim_iff :
    (spec : TartHostSpec) (consumer : ObjectReference)
    → ((decide_claim spec consumer ≡ ok claim_apply)
        ↔ ((valid_consumer_reference consumer ≡ true) × (spec.consumer_ref ≡ none)))
      × ((decide_claim spec consumer ≡ ok claim_noop)
          ↔ ((valid_consumer_reference consumer ≡ true) × (spec.consumer_ref ≡ some consumer)))
unfolding decide_claim
decide_claim_iff spec consumer = go spec.consumer_ref refl
  where
    go :
        (c : Option ObjectReference)
        → spec.consumer_ref ≡ c
        → ((decide_claim spec consumer ≡ ok claim_apply)
            ↔ ((valid_consumer_reference consumer ≡ true) × (spec.consumer_ref ≡ none)))
          × ((decide_claim spec consumer ≡ ok claim_noop)
              ↔ ((valid_consumer_reference consumer ≡ true) × (spec.consumer_ref ≡ some consumer)))
    go none e = ground arith
    go (some c) e = ground (arith, reference_beq_iff c consumer)

-- A retention is applied exactly when the deleting consumer is identified, holds the host and is
-- the one that the record names.
pub decide_retention_iff :
    (spec : TartHostSpec) (consumer : ObjectReference) (previous : PreviousConsumerRef)
    → (decide_retention spec consumer previous ≡ ok claim_apply) ↔ (
        (valid_consumer_reference consumer ≡ true)
        × (previous.uid ≡ consumer.uid)
        × (spec.consumer_ref ≡ some consumer))
unfolding decide_retention
decide_retention_iff spec consumer previous = go spec.consumer_ref refl
  where
    go :
        (c : Option ObjectReference)
        → spec.consumer_ref ≡ c
        → (decide_retention spec consumer previous ≡ ok claim_apply) ↔ (
            (valid_consumer_reference consumer ≡ true)
            × (previous.uid ≡ consumer.uid)
            × (spec.consumer_ref ≡ some consumer))
    go none e = ground arith
    go (some c) e = ground (
      arith,
      reference_beq_iff c consumer,
      eq_iff previous.uid consumer.uid,
      eq_iff previous.uid "",
      eq_iff consumer.uid "",
    )

-- It is a no-op exactly when nobody holds the host and its record already names that consumer.
pub decide_retention_noop_iff :
    (spec : TartHostSpec) (consumer : ObjectReference) (previous : PreviousConsumerRef)
    → (decide_retention spec consumer previous ≡ ok claim_noop) ↔ (
        (valid_consumer_reference consumer ≡ true)
        × (previous.uid ≡ consumer.uid)
        × (spec.consumer_ref ≡ none)
        × ((recorded : PreviousConsumerRef) × (spec.previous_consumer_ref ≡ some recorded)
            × (recorded.uid ≡ previous.uid)))
unfolding decide_retention
decide_retention_noop_iff spec consumer previous =
    go spec.consumer_ref spec.previous_consumer_ref refl refl
  where
    go :
        (c : Option ObjectReference) (p : Option PreviousConsumerRef)
        → spec.consumer_ref ≡ c
        → spec.previous_consumer_ref ≡ p
        → (decide_retention spec consumer previous ≡ ok claim_noop) ↔ (
            (valid_consumer_reference consumer ≡ true)
            × (previous.uid ≡ consumer.uid)
            × (spec.consumer_ref ≡ none)
            × ((recorded : PreviousConsumerRef) × (spec.previous_consumer_ref ≡ some recorded)
                × (recorded.uid ≡ previous.uid)))
    go (some c) p e k = ground arith
    go none none e k = ground arith
    go none (some p) e k = ground (
      arith,
      eq_iff p.uid previous.uid,
      eq_iff previous.uid consumer.uid,
      eq_iff previous.uid "",
      eq_iff consumer.uid "",
    )

-- What a host and a request have in common when the claim is let through.
pub record IsClaimable (matches_labels : LabelMatcher) (host : TartHost) (req : ClaimRequest)
    : Type 0 where
  pub same_host : (req.expected_host_id ≡ 0) ⊎ (host.spec.host_id ≡ req.expected_host_id)
  pub free : host.spec.consumer_ref ≡ none
  pub eligible :
      ((req.mode ≡ fresh_automatic) × (host.spec.previous_consumer_ref ≡ none))
      ⊎ ((req.mode ≡ explicit_reusable) × (classify host.spec ≡ reusable))
  pub placed :
      matches_for_failure_domain matches_labels host.labels host.spec req.selector
        req.failure_domain
      ≡ true

-- A candidate is accepted exactly when it is the expected host, nobody holds it, it is fresh or its
-- reuse was asked for and approved, and it fits the placement.
pub validate_claim_candidate_iff :
    (matches_labels : LabelMatcher) (host : TartHost) (req : ClaimRequest)
    → (validate_claim_candidate matches_labels host req ≡ ok tt)
      ↔ IsClaimable matches_labels host req
unfolding validate_claim_candidate
validate_claim_candidate_iff matches_labels host req = go req.mode refl
  where
    go :
        (m : ClaimMode)
        → req.mode ≡ m
        → (validate_claim_candidate matches_labels host req ≡ ok tt)
          ↔ IsClaimable matches_labels host req
    go fresh_automatic e = ground (
      arith,
      classify_available_iff host.spec,
      comparable_nat.decides host.spec.host_id req.expected_host_id,
    )
    go explicit_reusable e = ground (
      arith,
      classify_reusable-free host.spec,
      comparable_nat.decides host.spec.host_id req.expected_host_id,
    )
    go (other_claim_mode m) e =
        ground (arith, comparable_nat.decides host.spec.host_id req.expected_host_id)
