-- ===== src/Repository/Ownership/Refinement.antt =====
-- The repository's operations take the steps of Ownership, whatever other clients do in between.
use cluster_api_provider_tar.Base.{
  String, ◌≡◌, ◌≢◌, none, refl, ap, ◌∙◌, subst, inl, inr, some, ◌==◌, comparable_nat,
  comparable_text, comparable_list, Bool-cases,
}
use cluster_api_provider_tar.Base.Result.{Result, ok, Result-cases}
use cluster_api_provider_tar.Api.Meta.{ObjectReference, host_id_is_zero}
use cluster_api_provider_tar.Api.Host.{TartHost, PreviousConsumerRef}
use cluster_api_provider_tar.Host.Selector.{LabelMatcher}
use cluster_api_provider_tar.Host.ClaimDecision.{
  ClaimRequest, ClaimDecision, HostError, claim_apply, decide_retention,
}
use cluster_api_provider_tar.Host.ClaimDecision.Laws.{IsClaimable, decide_retention_iff}
use cluster_api_provider_tar.Repository.TartHostRepository.Claims.{decide_and_validate-apply}
use cluster_api_provider_tar.Repository.Server.{ApiServer, SameContent}
use cluster_api_provider_tar.Repository.Loop.{Outcome, update_loop, claim_attempts}
use cluster_api_provider_tar.Repository.Loop.Safety.{
  OnlySettled, here, update_loop-Sound, Success, unchanged, committed, Failure, untouched,
  maybe_committed,
}
use cluster_api_provider_tar.Repository.TartHostRepository.{
  decide_and_validate, claimed_host, retained_host, pinned, claim_host_with_request, retain_host,
}
use cluster_api_provider_tar.Repository.Ownership.{
  Step, claims, releases, changes, Reaches, stays, goes_on,
}

pub data HostRequest : Type 0 where
  to_claim : ClaimRequest → HostRequest
  to_retain : ObjectReference → PreviousConsumerRef → HostRequest

pinned-consumer : (host : TartHost) (req : ClaimRequest) → (pinned host req).consumer ≡ req.consumer
unfolding pinned
pinned-consumer host req = elim (Bool-cases (host_id_is_zero req.expected_host_id)) [
  | inl e ↦ rw e refl
  | inr e ↦ rw e refl
]

module _ (server : ApiServer) (matches_labels : LabelMatcher) where
  -- One of the two operations.
  abbrev pub run_request : server.State → TartHost → HostRequest → Outcome server
  run_request s host (to_claim req) = claim_host_with_request server matches_labels s host req
  run_request s host (to_retain consumer previous) = retain_host server s host consumer previous

  -- What a request does to a host that it is carried out on: a claim sets the consumer of a host
  -- that meets the request's preconditions, a release moves the consumer of the host into the
  -- record; nothing else of the spec changes.
  abbrev pub IsCarriedOut : TartHost → HostRequest → TartHost → TartHost → Type 0
  IsCarriedOut host (to_claim req) current last =
      IsClaimable matches_labels current (pinned host req)
      × (last.spec ≡ record (current.spec) { consumer_ref = some req.consumer })
  IsCarriedOut host (to_retain consumer previous) current last =
      (current.spec.consumer_ref ≡ some consumer)
      × (previous.uid ≡ consumer.uid)
      × (last.spec
          ≡ record (current.spec) { consumer_ref = none; previous_consumer_ref = some previous })

  -- What the abstract view allows of an operation on the host of that name: only other clients have
  -- written; or after their writes the request was carried out on that host, which are steps of its
  -- ownership, and no other object has changed.
  pub data Refines (IsDone : TartHost → TartHost → Type 0) (s : server.State) (name : String)
      (after : server.State) : Type 0 where
    nothing : OnlySettled server s after → Refines IsDone s name after
    steps :
        (before : server.State) (current last : TartHost)
        → OnlySettled server s before
        → server.stored before name ≡ some current
        → server.stored after name ≡ some last
        → Reaches matches_labels current last
        → IsDone current last
        → ((n : String) → n ≢ name → server.stored after n ≡ server.stored before n)
        → Refines IsDone s name after

  SameContent-Reaches :
      (current modified last : TartHost)
      → Step matches_labels current modified
      → SameContent last modified
      → Reaches matches_labels current last
  SameContent-Reaches current modified last step c = goes_on step (
      goes_on
        (changes last (ap (λ x. x.consumer_ref) c.same_spec)
          (ap (λ x. x.previous_consumer_ref) c.same_spec))
        stays)

  one_step :
      (IsDone : TartHost → TartHost → Type 0) (s before after : server.State) (name : String)
      (current modified last : TartHost)
      → OnlySettled server s before
      → server.stored before current.name ≡ some current
      → Step matches_labels current modified
      → server.stored after current.name ≡ some last
      → SameContent last modified
      → IsDone current last
      → current.name ≡ name
      → ((n : String) → n ≢ current.name → server.stored after n ≡ server.stored before n)
      → Refines IsDone s name after
  one_step IsDone s before after name current modified last r was step now content done named
        others =
      steps before current last r (subst (λ n. server.stored before n ≡ some current) named was)
        (subst (λ n. server.stored after n ≡ some last) named now)
        (SameContent-Reaches current modified last step content) done
        (subst (λ m. (n : String) → n ≢ m → server.stored after n ≡ server.stored before n) named
          others)

  Success-Refines :
      (IsDone : TartHost → TartHost → Type 0) (decide : TartHost → Result HostError ClaimDecision)
      (modify : TartHost → TartHost) (s : server.State) (name : String) (o : Outcome server)
      → ((h : TartHost) → decide h ≡ ok claim_apply → Step matches_labels h (modify h))
      → ((h last : TartHost)
          → decide h ≡ ok claim_apply
          → SameContent last (modify h)
          → IsDone h last)
      → Success server decide modify s name o
      → Refines IsDone s name o.state
  Success-Refines IsDone decide modify s name o step done (unchanged d r) = nothing r
  Success-Refines IsDone decide modify s name o step done
        (committed before current r was d now content named others) =
      one_step IsDone s before o.state name current (modify current) o.host r was (step current d)
        now content (done current o.host d content) named others

  Failure-Refines :
      (IsDone : TartHost → TartHost → Type 0) (decide : TartHost → Result HostError ClaimDecision)
      (modify : TartHost → TartHost) (s : server.State) (name : String) (o : Outcome server)
      → ((h : TartHost) → decide h ≡ ok claim_apply → Step matches_labels h (modify h))
      → ((h last : TartHost)
          → decide h ≡ ok claim_apply
          → SameContent last (modify h)
          → IsDone h last)
      → Failure server decide modify s name o
      → Refines IsDone s name o.state
  Failure-Refines IsDone decide modify s name o step done (untouched r) = nothing r
  Failure-Refines IsDone decide modify s name o step done
        (maybe_committed before current last r was d now content named others) =
      one_step IsDone s before o.state name current (modify current) last r was (step current d) now
        content (done current last d content) named others

  loop-Refines :
      (IsDone : TartHost → TartHost → Type 0) (decide : TartHost → Result HostError ClaimDecision)
      (modify : TartHost → TartHost) (s : server.State) (host : TartHost)
      → ((h : TartHost) → (modify h).name ≡ h.name)
      → ((h : TartHost) → (modify h).resource_version ≡ h.resource_version)
      → ((h : TartHost) → decide h ≡ ok claim_apply → Step matches_labels h (modify h))
      → ((h last : TartHost)
          → decide h ≡ ok claim_apply
          → SameContent last (modify h)
          → IsDone h last)
      → server.Seen s host
      → Refines IsDone s host.name (update_loop server decide modify claim_attempts s host).state
  loop-Refines IsDone decide modify s host n v step done seen =
      let o = update_loop server decide modify claim_attempts s host in
      let sound =
        update_loop-Sound server decide modify n v s host.name claim_attempts s host here seen
          refl in
      elim (Result-cases o.result) [
        | inl (tt, e) ↦ Success-Refines IsDone decide modify s host.name o step done (sound.0 e)
        | inr (x, e) ↦ Failure-Refines IsDone decide modify s host.name o step done (sound.1 x e)
      ]

  -- A claim or a release of a host, whether it succeeds or fails, and also where the answer to its
  -- write was lost, changes the stored objects as the abstract ownership allows: only other clients
  -- have written; or the request was carried out on the host of that name, a claim only where its
  -- preconditions were met and a release only where the consumer held it, and no other object has
  -- changed.
  pub run_request-Refines :
      (s : server.State) (host : TartHost) (request : HostRequest)
      → server.Seen s host
      → Refines (IsCarriedOut host request) s host.name (run_request s host request).state
  unfolding claim_host_with_request retain_host claimed_host retained_host
  run_request-Refines s host (to_claim req) seen = elim (Bool-cases (host.name == "")) [
    | inl e ↦ rw e (nothing here)
    | inr e ↦ rw e (
        loop-Refines (IsCarriedOut host (to_claim req))
          (decide_and_validate matches_labels (pinned host req)) (claimed_host (pinned host req)) s
          host (λ g. refl) (λ g. refl) (λ h d. claims (pinned host req) d)
          (λ h last d content. (
            decide_and_validate-apply matches_labels (pinned host req) h d,
            content.same_spec
                ∙ ap (λ c. record (h.spec) { consumer_ref = some c }) (pinned-consumer host req),
          ))
          seen)
  ]
  run_request-Refines s host (to_retain consumer previous) seen =
      elim (Bool-cases (host.name == "")) [
        | inl e ↦ rw e (nothing here)
        | inr e ↦ rw e (
            loop-Refines (IsCarriedOut host (to_retain consumer previous))
              (λ h. decide_retention h.spec consumer previous) (retained_host previous) s host
              (λ g. refl) (λ g. refl) (λ h d. releases consumer previous d)
              (λ h last d content.
                let (valid, same, held) = (decide_retention_iff h.spec consumer previous).0 d in
                (held, same, content.same_spec))
              seen)
      ]
