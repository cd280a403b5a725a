-- ===== src/Host/ClaimDecision.antt =====
-- usecase/host/claimdecision.go.
pub mod Laws
use cluster_api_provider_tar.Base.{
  ℕ, zero, suc, String, ◌+◌, ◌-◌, ◌*◌, ◌/◌, ◌%◌, ◌^◌, ◌≤◌, ◌<◌, ◌≡◌, refl, sym, ap, subst, ◌∙◌, ◌≢◌,
  ◌↔◌, ◌⊎◌, inl, inr, Bool, true, false, not, ◌&&◌, ◌||◌, Option, none, some, List, [], ◌∷◌, ◌++◌,
  map, arith, eq_iff, eq_refl, ltb, leb, if◌then◌else◌, Comparable, ◌==◌, ◌!=◌, comparable_nat,
  comparable_text, comparable_list, list_beq_iff, ==_refl, Bool-cases, Option-cases, ltb→lt, leb→le,
  is_some, length, any, keep, count_if, All, In, trim_space, is_blank, codes, is_blank-empty,
  is_blank_nonempty,
}
use cluster_api_provider_tar.Base.Result.{Result, ok, err, ◌>>◌, fail_if}
use cluster_api_provider_tar.Api.Meta.{
  HostId, host_id_is_zero, ObjectReference, comparable_reference,
}
use cluster_api_provider_tar.Api.Host.{PreviousConsumerRef, TartHostSpec, TartHost}
use cluster_api_provider_tar.Api.Machine.{HostSelector}
use cluster_api_provider_tar.Host.Eligibility.{
  Eligibility, available, claimed, retained, reusable, classify,
}
use cluster_api_provider_tar.Host.Selector.{LabelMatcher, matches_for_failure_domain}

-- The sentinel errors of the package, and what the API server's client returns.
pub data HostError : Type 0 where
  claim_conflict invalid_claim invalid_retention host_no_longer_eligible : HostError
  reuse_approval_required host_identity_changed host_selection_mismatch : HostError
  no_eligible_host : HostError
  conflict_after_attempts attempts_exhausted : HostError
  api_error : String → HostError

pub data ClaimDecision : Type 0 where
  claim_noop claim_apply : ClaimDecision

-- `ValidConsumerReference`.
unfoldable pub valid_consumer_reference : ObjectReference → Bool
valid_consumer_reference consumer =
    consumer.api_version != ""
    && consumer.kind != ""
    && consumer.namespace != ""
    && consumer.name != ""
    && consumer.uid != ""

decide_claim_for : Option ObjectReference → ObjectReference → Result HostError ClaimDecision
decide_claim_for none consumer = ok claim_apply
decide_claim_for (some current) consumer =
    if current != consumer then err claim_conflict else ok claim_noop

-- `DecideClaim`.
unfoldable pub decide_claim : TartHostSpec → ObjectReference → Result HostError ClaimDecision
unfolding valid_consumer_reference decide_claim_for
decide_claim spec consumer = do
  fail_if (not (valid_consumer_reference consumer)) invalid_claim
  decide_claim_for spec.consumer_ref consumer

already_retained : Option PreviousConsumerRef → PreviousConsumerRef → Bool
already_retained none previous = false
already_retained (some recorded) previous = recorded.uid == previous.uid

decide_retention_for :
    TartHostSpec
    → Option ObjectReference
    → ObjectReference
    → PreviousConsumerRef
    → Result HostError ClaimDecision
unfolding already_retained
decide_retention_for spec none consumer previous =
    if already_retained spec.previous_consumer_ref previous
    then ok claim_noop
    else err claim_conflict
decide_retention_for spec (some current) consumer previous =
    if current != consumer then err claim_conflict else ok claim_apply

-- `DecideRetention`.
unfoldable pub decide_retention :
    TartHostSpec → ObjectReference → PreviousConsumerRef → Result HostError ClaimDecision
unfolding valid_consumer_reference decide_retention_for
decide_retention spec consumer previous = do
  fail_if
      (not (valid_consumer_reference consumer)
        || previous.uid == ""
        || previous.uid != consumer.uid)
      invalid_retention
  decide_retention_for spec spec.consumer_ref consumer previous

-- How a host is to be taken: a fresh one by the allocator, or a retained one on request.
pub data ClaimMode : Type 0 where
  fresh_automatic explicit_reusable : ClaimMode
  other_claim_mode : ℕ → ClaimMode

pub record ClaimRequest : Type 0 where
  pub consumer : ObjectReference
  pub expected_host_id : HostId
  pub selector : Option HostSelector
  pub failure_domain : String
  pub mode : ClaimMode

abbrev is_available : Eligibility → Bool
is_available available = true
is_available _ = false

abbrev is_reusable : Eligibility → Bool
is_reusable reusable = true
is_reusable _ = false

check_mode : TartHost → ClaimMode → Result HostError (Unit {0})
check_mode host fresh_automatic = do
  fail_if (not (is_available (classify host.spec))) host_no_longer_eligible
  fail_if (is_some host.spec.previous_consumer_ref) reuse_approval_required
check_mode host explicit_reusable =
    fail_if (not (is_reusable (classify host.spec))) reuse_approval_required
check_mode host (other_claim_mode m) = err invalid_claim

-- `ValidateClaimCandidate` for a host that is there.
unfoldable pub validate_claim_candidate :
    LabelMatcher → TartHost → ClaimRequest → Result HostError (Unit {0})
unfolding check_mode
validate_claim_candidate matches_labels host req = do
  fail_if (not (host_id_is_zero req.expected_host_id) && host.spec.host_id != req.expected_host_id)
      host_identity_changed
  check_mode host req.mode
  fail_if
      (not (
        matches_for_failure_domain matches_labels host.labels host.spec req.selector
          req.failure_domain))
      host_selection_mismatch

-- `ValidateClaimCandidate`: the host may be a nil pointer.
unfoldable pub validate_claim_candidate_pointer :
    LabelMatcher → Option TartHost → ClaimRequest → Result HostError (Unit {0})
unfolding validate_claim_candidate
validate_claim_candidate_pointer matches_labels none req = err invalid_claim
validate_claim_candidate_pointer matches_labels (some host) req =
    validate_claim_candidate matches_labels host req
