-- ===== src/Repository/TartHostRepository.antt =====
-- adapter/kubernetes/tarthostrepository.go: `ClaimHostWithRequest` and `RetainHost`. The pointer to
-- the host may be nil; the client is set.
pub mod Claims
pub mod Retention
pub mod Errors
use cluster_api_provider_tar.Base.{
  ℕ, zero, suc, String, ◌+◌, ◌-◌, ◌*◌, ◌/◌, ◌%◌, ◌^◌, ◌≤◌, ◌<◌, ◌≡◌, refl, sym, ap, subst, ◌∙◌, ◌≢◌,
  ◌↔◌, ◌⊎◌, inl, inr, Bool, true, false, not, ◌&&◌, ◌||◌, Option, none, some, List, [], ◌∷◌, ◌++◌,
  map, arith, eq_iff, eq_refl, ltb, leb, if◌then◌else◌, Comparable, ◌==◌, ◌!=◌, comparable_nat,
  comparable_text, comparable_list, list_beq_iff, ==_refl, Bool-cases, Option-cases, ltb→lt, leb→le,
  is_some, length, any, keep, count_if, All, In, trim_space, is_blank, codes, is_blank-empty,
  is_blank_nonempty,
}
use cluster_api_provider_tar.Base.Result.{Result, ok, err, ◌>>=◌, ◌>>◌}
use cluster_api_provider_tar.Api.Meta.{host_id_is_zero, ObjectReference}
use cluster_api_provider_tar.Api.Host.{PreviousConsumerRef, TartHost}
use cluster_api_provider_tar.Host.Selector.{LabelMatcher}
use cluster_api_provider_tar.Host.ClaimDecision.{
  HostError, ClaimDecision, claim_noop, claim_apply, ClaimRequest, invalid_claim, invalid_retention,
  decide_claim, decide_retention, validate_claim_candidate,
}
use cluster_api_provider_tar.Repository.Server.{ApiServer}
use cluster_api_provider_tar.Repository.Loop.{Outcome, update_loop, claim_attempts}

validate_if_applied :
    LabelMatcher → TartHost → ClaimRequest → ClaimDecision → Result HostError ClaimDecision
validate_if_applied matches_labels host req claim_noop = ok claim_noop
validate_if_applied matches_labels host req claim_apply = do
  validate_claim_candidate matches_labels host req
  ok claim_apply

-- The tests that come before the write of a claim.
unfoldable pub decide_and_validate :
    LabelMatcher → ClaimRequest → TartHost → Result HostError ClaimDecision
unfolding validate_if_applied
decide_and_validate matches_labels req host = do
  decision ← decide_claim host.spec req.consumer
  validate_if_applied matches_labels host req decision

unfoldable pub claimed_host : ClaimRequest → TartHost → TartHost
claimed_host req host = record host {
  spec = record (host.spec) { consumer_ref = some req.consumer };
}

unfoldable pub retained_host : PreviousConsumerRef → TartHost → TartHost
retained_host previous host = record host {
  spec = record (host.spec) { consumer_ref = none; previous_consumer_ref = some previous };
}

-- A request that names no host expects the one at hand.
unfoldable pub pinned : TartHost → ClaimRequest → ClaimRequest
pinned host req =
    if host_id_is_zero req.expected_host_id
    then record req { expected_host_id = host.spec.host_id }
    else req

module _ (server : ApiServer) where
  open server use {State}

  unfoldable pub claim_host_with_request :
      LabelMatcher → State → TartHost → ClaimRequest → Outcome server
  claim_host_with_request matches_labels s host req =
      if host.name == ""
      then record { state = s; host = host; result = err invalid_claim }
      else update_loop server (decide_and_validate matches_labels (pinned host req))
          (claimed_host (pinned host req)) claim_attempts s host

  unfoldable pub retain_host :
      State → TartHost → ObjectReference → PreviousConsumerRef → Outcome server
  retain_host s host consumer previous =
      if host.name == ""
      then record { state = s; host = host; result = err invalid_retention }
      else update_loop server (λ h. decide_retention h.spec consumer previous)
          (retained_host previous) claim_attempts s host
