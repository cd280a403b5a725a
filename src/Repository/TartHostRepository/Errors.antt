-- ===== src/Repository/TartHostRepository/Errors.antt =====
-- Claims and releases that fail.
use cluster_api_provider_tar.Base.{
  ◌≢◌, inl, inr, arith, ◌==◌, comparable_nat, comparable_text, comparable_list, Bool-cases,
}
use cluster_api_provider_tar.Base.Result.{err}
use cluster_api_provider_tar.Api.Meta.{ObjectReference}
use cluster_api_provider_tar.Api.Host.{TartHost, TartHostSpec, PreviousConsumerRef}
use cluster_api_provider_tar.Host.Selector.{LabelMatcher}
use cluster_api_provider_tar.Host.ClaimDecision.{
  attempts_exhausted, ClaimRequest, decide_claim, decide_retention, validate_claim_candidate,
}
use cluster_api_provider_tar.Repository.Server.{ApiServer}
use cluster_api_provider_tar.Repository.Loop.Attempts.{update_loop-Returns}
use cluster_api_provider_tar.Repository.TartHostRepository.{
  decide_and_validate, claimed_host, retained_host, pinned, claim_host_with_request, retain_host,
}

decide_claim_returns :
    (spec : TartHostSpec) (consumer : ObjectReference)
    → decide_claim spec consumer ≢ err attempts_exhausted
unfolding decide_claim
decide_claim_returns spec consumer = ground arith

validate_returns :
    (matches_labels : LabelMatcher) (host : TartHost) (req : ClaimRequest)
    → validate_claim_candidate matches_labels host req ≢ err attempts_exhausted
unfolding validate_claim_candidate
validate_returns matches_labels host req = ground arith

decide_and_validate_returns :
    (matches_labels : LabelMatcher) (req : ClaimRequest) (host : TartHost)
    → decide_and_validate matches_labels req host ≢ err attempts_exhausted
unfolding decide_and_validate
decide_and_validate_returns matches_labels req host =
    ground
      (arith, decide_claim_returns host.spec req.consumer, validate_returns matches_labels host req)

decide_retention_returns :
    (spec : TartHostSpec) (consumer : ObjectReference) (previous : PreviousConsumerRef)
    → decide_retention spec consumer previous ≢ err attempts_exhausted
unfolding decide_retention
decide_retention_returns spec consumer previous = ground arith

-- Neither operation reaches the error behind its loop: each of the three attempts decides, writes
-- or reads again, and the last one returns.
pub attempts_not_exhausted :
    (server : ApiServer) (matches_labels : LabelMatcher) (s : server.State) (host : TartHost)
    (req : ClaimRequest) (consumer : ObjectReference) (previous : PreviousConsumerRef)
    → ((claim_host_with_request server matches_labels s host req).result ≢ err attempts_exhausted)
      × ((retain_host server s host consumer previous).result ≢ err attempts_exhausted)
unfolding claim_host_with_request retain_host
attempts_not_exhausted server matches_labels s host req consumer previous =
    elim (Bool-cases (host.name == "")) [
      | inl p ↦ rw p (ground arith)
      | inr p ↦ rw p (
        update_loop-Returns server (decide_and_validate matches_labels (pinned host req))
            (claimed_host (pinned host req))
            (decide_and_validate_returns matches_labels (pinned host req)) 2 s host,
        update_loop-Returns server (λ g. decide_retention g.spec consumer previous)
            (retained_host previous) (λ g. decide_retention_returns g.spec consumer previous) 2 s
            host,
      )
    ]
