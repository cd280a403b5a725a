-- ===== src/Repository/Ownership.antt =====
-- Who holds a host over time: the steps that a host's object takes, by the decisions of
-- adapter/kubernetes/tarthostrepository.go, and everything else that does not touch the claim.
pub mod Refinement
use cluster_api_provider_tar.Base.{
  ℕ, zero, suc, String, ◌+◌, ◌-◌, ◌*◌, ◌/◌, ◌%◌, ◌^◌, ◌≤◌, ◌<◌, ◌≡◌, refl, sym, ap, subst, ◌∙◌, ◌≢◌,
  ◌↔◌, ◌⊎◌, inl, inr, Bool, true, false, not, ◌&&◌, ◌||◌, Option, none, some, List, [], ◌∷◌, ◌++◌,
  map, arith, eq_iff, eq_refl, ltb, leb, if◌then◌else◌, Comparable, ◌==◌, ◌!=◌, comparable_nat,
  comparable_text, comparable_list, list_beq_iff, ==_refl, Bool-cases, Option-cases, ltb→lt, leb→le,
  is_some, length, any, keep, count_if, All, In, trim_space, is_blank, codes, is_blank-empty,
  is_blank_nonempty,
}
use cluster_api_provider_tar.Base.Result.{ok}
use cluster_api_provider_tar.Api.Meta.{ObjectReference}
use cluster_api_provider_tar.Api.Host.{TartHost, PreviousConsumerRef}
use cluster_api_provider_tar.Host.Eligibility.{classify, reusable}
use cluster_api_provider_tar.Host.Selector.{LabelMatcher}
use cluster_api_provider_tar.Host.ClaimDecision.{
  ClaimRequest, claim_apply, decide_retention, explicit_reusable, fresh_automatic,
}
use cluster_api_provider_tar.Host.ClaimDecision.Laws.{decide_retention_iff, IsClaimable}
use cluster_api_provider_tar.Repository.TartHostRepository.{
  decide_and_validate, claimed_host, retained_host,
}
use cluster_api_provider_tar.Repository.TartHostRepository.Claims.{decide_and_validate-apply}

module _ (matches_labels : LabelMatcher) where
  pub data Step (host : TartHost) : TartHost → Type 0 where
    claims :
        (req : ClaimRequest)
        → decide_and_validate matches_labels req host ≡ ok claim_apply
        → Step host (claimed_host req host)
    releases :
        (consumer : ObjectReference) (previous : PreviousConsumerRef)
        → decide_retention host.spec consumer previous ≡ ok claim_apply
        → Step host (retained_host previous host)
    -- Anything else, an approval too.
    changes :
        (next : TartHost)
        → next.spec.consumer_ref ≡ host.spec.consumer_ref
        → next.spec.previous_consumer_ref ≡ host.spec.previous_consumer_ref
        → Step host next

  pub data Reaches : TartHost → TartHost → Type 0 where
    stays : {host : TartHost} → Reaches host host
    goes_on : {host next last : TartHost} → Step host next → Reaches next last → Reaches host last

  -- A claim of a host whose last consumer is on record, after its reuse was approved.
  pub record IsApprovedClaim (first last : TartHost) (uid : String) : Type 0 where
    pub host : TartHost
    pub request : ClaimRequest
    pub previous : PreviousConsumerRef
    pub reached : Reaches first host
    pub on_record : host.spec.previous_consumer_ref ≡ some previous
    pub of_consumer : previous.uid ≡ uid
    pub nobody_holds : host.spec.consumer_ref ≡ none
    pub approved : classify host.spec ≡ reusable
    pub asked_for : request.mode ≡ explicit_reusable
    pub claimed : Reaches (claimed_host request host) last

  later :
      (first next last : TartHost) (uid : String)
      → Step first next
      → IsApprovedClaim next last uid
      → IsApprovedClaim first last uid
  later first next last uid step c = record {
    host = c.host;
    request = c.request;
    previous = c.previous;
    reached = goes_on step c.reached;
    on_record = c.on_record;
    of_consumer = c.of_consumer;
    nobody_holds = c.nobody_holds;
    approved = c.approved;
    asked_for = c.asked_for;
    claimed = c.claimed;
  }

  from_waiting :
      (first last : TartHost) (previous : PreviousConsumerRef) (d : ObjectReference)
      → Reaches first last
      → first.spec.consumer_ref ≡ none
      → first.spec.previous_consumer_ref ≡ some previous
      → last.spec.consumer_ref ≡ some d
      → IsApprovedClaim first last previous.uid
  from_waiting first last previous d stays n p e = absurd (ground (arith, n, e))
  from_waiting first last previous d (goes_on (changes next c q) r) n p e =
      later first next last previous.uid (changes next c q)
        (from_waiting next last previous d r (c ∙ n) (q ∙ p) e)
  from_waiting first last previous d (goes_on (releases consumer x h) r) n p e =
      absurd (ground (arith, n, (decide_retention_iff first.spec consumer x).0 h))
  from_waiting first last previous d (goes_on (claims req h) r) n p e =
      let c = decide_and_validate-apply matches_labels req first h in
      record {
        host = first;
        request = req;
        previous = previous;
        reached = stays;
        on_record = p;
        of_consumer = refl;
        nobody_holds = n;
        approved = ground (arith, c.eligible, p);
        asked_for = ground (arith, c.eligible, p);
        claimed = r;
      }

  -- A host that one consumer holds and that is held later on is still held by that consumer, or in
  -- between it was claimed while nobody held it, the first consumer stood on record, its reuse was
  -- approved, and the claim asked for a reusable host.
  pub held_host-IsApprovedClaim :
      (first last : TartHost) (c d : ObjectReference)
      → Reaches first last
      → first.spec.consumer_ref ≡ some c
      → last.spec.consumer_ref ≡ some d
      → (c ≡ d) ⊎ IsApprovedClaim first last c.uid
  unfolding retained_host
  held_host-IsApprovedClaim first last c d stays n e = inl (ground (arith, n, e))
  held_host-IsApprovedClaim first last c d (goes_on (changes next k q) r) n e =
      elim (held_host-IsApprovedClaim next last c d r (k ∙ n) e) [
        | inl same ↦ inl same
        | inr a ↦ inr (later first next last c.uid (changes next k q) a)
      ]
  held_host-IsApprovedClaim first last c d (goes_on (claims req h) r) n e =
      absurd (ground (arith, n, (decide_and_validate-apply matches_labels req first h).free))
  held_host-IsApprovedClaim first last c d (goes_on (releases consumer x h) r) n e =
      let (valid, same, held) = (decide_retention_iff first.spec consumer x).0 h in
      let uid : x.uid ≡ c.uid = ground (arith, same, held, n) in
      inr (
        later first (retained_host x first) last c.uid (releases consumer x h) (
          subst (λ u. IsApprovedClaim (retained_host x first) last u) uid
            (from_waiting (retained_host x first) last x d r refl refl e)))
