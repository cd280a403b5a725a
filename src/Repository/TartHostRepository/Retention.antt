-- ===== src/Repository/TartHostRepository/Retention.antt =====
-- What a release leaves behind.
use cluster_api_provider_tar.Base.{
  ◌≡◌, refl, ap, ◌∙◌, ◌≢◌, inl, inr, false, none, some, arith, ◌==◌, comparable_nat,
  comparable_text, comparable_list, Bool-cases, String,
}
use cluster_api_provider_tar.Base.Result.{ok}
use cluster_api_provider_tar.Api.Meta.{ObjectReference}
use cluster_api_provider_tar.Api.Host.{TartHost, PreviousConsumerRef, ReuseApproval}
use cluster_api_provider_tar.Host.Eligibility.{reusable, classify, reprovision_approved}
use cluster_api_provider_tar.Host.Eligibility.Approval.{approval_stale}
use cluster_api_provider_tar.Host.ClaimDecision.{decide_retention}
use cluster_api_provider_tar.Host.ClaimDecision.Laws.{
  decide_retention_iff, decide_retention_noop_iff,
}
use cluster_api_provider_tar.Repository.Server.{ApiServer}
use cluster_api_provider_tar.Repository.Loop.{Outcome, update_loop, claim_attempts}
use cluster_api_provider_tar.Repository.Loop.Safety.{
  OnlySettled, here, update_loop-Sound, Success, unchanged, committed,
}
use cluster_api_provider_tar.Repository.TartHostRepository.{retained_host, retain_host}

-- What a release that went through has done.
pub data Retained (server : ApiServer) (s : server.State) (consumer : ObjectReference)
    (previous : PreviousConsumerRef) (o : Outcome server) : Type 0 where
  recorded_already :
      (recorded : PreviousConsumerRef)
      → o.host.spec.consumer_ref ≡ none
      → o.host.spec.previous_consumer_ref ≡ some recorded
      → recorded.uid ≡ consumer.uid
      → OnlySettled server s o.state
      → Retained server s consumer previous o
  moved :
      (before : server.State) (current : TartHost)
      → OnlySettled server s before
      → server.stored before current.name ≡ some current
      → current.spec.consumer_ref ≡ some consumer
      → previous.uid ≡ consumer.uid
      → server.stored o.state current.name ≡ some o.host
      → o.host.spec
        ≡ record (current.spec) { consumer_ref = none; previous_consumer_ref = some previous }
      → Retained server s consumer previous o

Success-Retained :
    (server : ApiServer) (s : server.State) (consumer : ObjectReference)
    (previous : PreviousConsumerRef) (name : String) (o : Outcome server)
    → Success server
        (λ h. decide_retention h.spec consumer previous)
        (retained_host previous)
        s
        name
        o
    → Retained server s consumer previous o
unfolding retained_host
Success-Retained server s consumer previous name o (unchanged d r) =
    let (valid, same, free, rest) = (decide_retention_noop_iff o.host.spec consumer previous).0 d in
    recorded_already rest.0 free rest.1 (rest.2 ∙ same) r
Success-Retained server s consumer previous name o
      (committed before current r was d now content same_name others) =
    let (valid, same, held) = (decide_retention_iff current.spec consumer previous).0 d in
    moved before current r was held same now content.same_spec

loop_of_named :
    (server : ApiServer) (s : server.State) (host : TartHost) (consumer : ObjectReference)
    (previous : PreviousConsumerRef)
    → (host.name == "") ≡ false
    → retain_host server s host consumer previous
      ≡ update_loop server
          (λ h. decide_retention h.spec consumer previous)
          (retained_host previous)
          claim_attempts
          s
          host
unfolding retain_host
loop_of_named server s host consumer previous e = rw e

-- A release that succeeds has found the record of the consumer in place on a host that nobody
-- holds, or has moved the consumer from the claim into the record, on the stored host that the
-- consumer held, and has changed nothing else of its spec.
pub retain_host_safe :
    (server : ApiServer) (s : server.State) (host : TartHost) (consumer : ObjectReference)
    (previous : PreviousConsumerRef)
    → server.Seen s host
    → (retain_host server s host consumer previous).result ≡ ok tt
    → Retained server s consumer previous (retain_host server s host consumer previous)
unfolding retain_host
retain_host_safe server s host consumer previous seen h = elim (Bool-cases (host.name == "")) [
  | inl e ↦ absurd (ground arith)
  | inr e ↦ rw e (
      Success-Retained server s consumer previous host.name _ (
        (update_loop-Sound server (λ g. decide_retention g.spec consumer previous)
            (retained_host previous) (λ g. unfold retained_host in refl)
            (λ g. unfold retained_host in refl) s host.name claim_attempts s host here seen refl).0
          (rw (← loop_of_named server s host consumer previous e) h)))
]

-- After a release, an approval that names anyone but the consumer released neither makes the host
-- reusable nor allows its reset.
pub Retained-not_reusable :
    (server : ApiServer) (s : server.State) (consumer : ObjectReference)
    (previous : PreviousConsumerRef) (o : Outcome server) (approval : ReuseApproval)
    → Retained server s consumer previous o
    → o.host.spec.reuse_approval ≡ some approval
    → approval.previous_consumer_uid ≢ consumer.uid
    → (classify o.host.spec ≢ reusable) × (reprovision_approved o.host.spec ≡ false)
Retained-not_reusable server s consumer previous o approval
      (recorded_already recorded free on_record same r) given other =
    approval_stale o.host.spec recorded approval on_record given (λ e. other (e ∙ same))
Retained-not_reusable server s consumer previous o approval
      (moved before current r was held same now spec) given other =
    approval_stale o.host.spec previous approval (ap (λ x. x.previous_consumer_ref) spec) given
      (λ e. other (e ∙ same))
