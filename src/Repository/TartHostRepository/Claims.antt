-- ===== src/Repository/TartHostRepository/Claims.antt =====
-- What a claim leaves behind.
use cluster_api_provider_tar.Base.{
  ◌≡◌, refl, inl, inr, false, some, arith, ◌==◌, comparable_nat, comparable_text, comparable_list,
  Bool-cases, String,
}
use cluster_api_provider_tar.Base.Result.{ok}
use cluster_api_provider_tar.Api.Host.{TartHost}
use cluster_api_provider_tar.Host.Selector.{LabelMatcher}
use cluster_api_provider_tar.Host.ClaimDecision.{claim_noop, claim_apply, ClaimRequest}
use cluster_api_provider_tar.Host.ClaimDecision.Laws.{
  IsClaimable, decide_claim_iff, validate_claim_candidate_iff,
}
use cluster_api_provider_tar.Repository.Server.{ApiServer}
use cluster_api_provider_tar.Repository.Loop.{Outcome, update_loop, claim_attempts}
use cluster_api_provider_tar.Repository.Loop.Safety.{
  OnlySettled, here, update_loop-Sound, Success, unchanged, committed,
}
use cluster_api_provider_tar.Repository.TartHostRepository.{
  decide_and_validate, claimed_host, pinned, claim_host_with_request,
}

-- What a claim that went through has done.
pub data Claimed (server : ApiServer) (matches_labels : LabelMatcher) (s : server.State)
    (req : ClaimRequest) (o : Outcome server) : Type 0 where
  held_already :
      o.host.spec.consumer_ref ≡ some req.consumer
      → OnlySettled server s o.state
      → Claimed server matches_labels s req o
  taken :
      (before : server.State) (current : TartHost)
      → OnlySettled server s before
      → server.stored before current.name ≡ some current
      → IsClaimable matches_labels current req
      → server.stored o.state current.name ≡ some o.host
      → o.host.spec ≡ record (current.spec) { consumer_ref = some req.consumer }
      → Claimed server matches_labels s req o

decide_and_validate-noop :
    (matches_labels : LabelMatcher) (req : ClaimRequest) (host : TartHost)
    → decide_and_validate matches_labels req host ≡ ok claim_noop
    → host.spec.consumer_ref ≡ some req.consumer
unfolding decide_and_validate
decide_and_validate-noop matches_labels req host h =
    ((decide_claim_iff host.spec req.consumer).1.0 (ground arith)).1

pub decide_and_validate-apply :
    (matches_labels : LabelMatcher) (req : ClaimRequest) (host : TartHost)
    → decide_and_validate matches_labels req host ≡ ok claim_apply
    → IsClaimable matches_labels host req
unfolding decide_and_validate
decide_and_validate-apply matches_labels req host h =
    (validate_claim_candidate_iff matches_labels host req).0 (ground arith)

Success-Claimed :
    (server : ApiServer) (matches_labels : LabelMatcher) (s : server.State) (req : ClaimRequest)
    (name : String) (o : Outcome server)
    → Success server (decide_and_validate matches_labels req) (claimed_host req) s name o
    → Claimed server matches_labels s req o
unfolding claimed_host
Success-Claimed server matches_labels s req name o (unchanged d r) =
    held_already (decide_and_validate-noop matches_labels req o.host d) r
Success-Claimed server matches_labels s req name o
      (committed before current r was d now content same_name others) =
    taken before current r was (decide_and_validate-apply matches_labels req current d) now
      content.same_spec

loop_of_named :
    (server : ApiServer) (matches_labels : LabelMatcher) (s : server.State) (host : TartHost)
    (req : ClaimRequest)
    → (host.name == "") ≡ false
    → claim_host_with_request server matches_labels s host req
      ≡ update_loop server
          (decide_and_validate matches_labels (pinned host req))
          (claimed_host (pinned host req))
          claim_attempts
          s
          host
unfolding claim_host_with_request
loop_of_named server matches_labels s host req e = rw e

-- A claim that succeeds has left a host that the consumer held already as it was, or has written
-- the consumer over a stored host that nobody held and that met every precondition of the request,
-- and has changed nothing else of its spec.
pub claim_host_with_request_safe :
    (server : ApiServer) (matches_labels : LabelMatcher) (s : server.State) (host : TartHost)
    (req : ClaimRequest)
    → server.Seen s host
    → (claim_host_with_request server matches_labels s host req).result ≡ ok tt
    → Claimed server matches_labels s
        (pinned host req)
        (claim_host_with_request server matches_labels s host req)
unfolding claim_host_with_request
claim_host_with_request_safe server matches_labels s host req seen h =
    elim (Bool-cases (host.name == "")) [
      | inl e ↦ absurd (ground arith)
      | inr e ↦ rw e (
          Success-Claimed server matches_labels s (pinned host req) host.name _ (
            (update_loop-Sound server (decide_and_validate matches_labels (pinned host req))
                (claimed_host (pinned host req)) (λ g. unfold claimed_host in refl)
                (λ g. unfold claimed_host in refl) s host.name claim_attempts s host here seen
                refl).0
              (rw (← loop_of_named server matches_labels s host req e) h)))
    ]
