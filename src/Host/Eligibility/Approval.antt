-- ===== src/Host/Eligibility/Approval.antt =====
-- What an approval allows, and how long it lasts.
use cluster_api_provider_tar.Base.{
  true, ◌≡◌, refl, ◌≢◌, ◌⊎◌, false, Option, none, some, arith, eq_iff, comparable_nat,
  comparable_text, comparable_list, ◌↔◌,
}
use cluster_api_provider_tar.Api.Meta.{ObjectReference}
use cluster_api_provider_tar.Api.Host.{
  allow_reuse, adopt, reprovision, PreviousConsumerRef, ReuseApproval, TartHostSpec,
}
use cluster_api_provider_tar.Host.Eligibility.{available, reusable, classify, reprovision_approved}

-- A host that waits for reuse, with the record of its last consumer and a matching approval.
pub record IsApproved (spec : TartHostSpec) (previous : PreviousConsumerRef)
    (approval : ReuseApproval) : Type 0 where
  pub on_record : spec.previous_consumer_ref ≡ some previous
  pub given : spec.reuse_approval ≡ some approval
  pub policy : spec.reuse_policy ≡ allow_reuse
  pub identified : previous.uid ≢ ""
  pub same_consumer : approval.previous_consumer_uid ≡ previous.uid

-- The approval that makes a host reusable, found from the test.
pub classify_reusable_sound :
    (spec : TartHostSpec)
    → classify spec ≡ reusable
    → (previous : PreviousConsumerRef) × (approval : ReuseApproval) × IsApproved spec previous
        approval
      × (spec.consumer_ref ≡ none)
      × ((spec.reuse_mode ≡ adopt) ⊎ (spec.reuse_mode ≡ reprovision))
unfolding classify
classify_reusable_sound spec h =
    go spec.consumer_ref spec.previous_consumer_ref spec.reuse_approval refl refl refl
  where
    go :
        (c : Option ObjectReference) (p : Option PreviousConsumerRef) (a : Option ReuseApproval)
        → spec.consumer_ref ≡ c
        → spec.previous_consumer_ref ≡ p
        → spec.reuse_approval ≡ a
        → (previous : PreviousConsumerRef) × (approval : ReuseApproval) × IsApproved spec previous
            approval
          × (spec.consumer_ref ≡ none)
          × ((spec.reuse_mode ≡ adopt) ⊎ (spec.reuse_mode ≡ reprovision))
    go (some c) p a ec ep ea = absurd (ground arith)
    go none none a ec ep ea = absurd (ground arith)
    go none (some p) none ec ep ea = absurd (ground arith)
    go none (some p) (some a) ec ep ea = (
      p,
      a,
      record {
        on_record = ep;
        given = ea;
        policy = ground arith;
        identified = ground (arith, eq_iff p.uid "");
        same_consumer = ground (arith, eq_iff a.previous_consumer_uid p.uid);
      },
      ec,
      ground arith,
    )

-- And the other way: an approved host that nobody holds is reusable.
pub classify_reusable_complete :
    (spec : TartHostSpec) (previous : PreviousConsumerRef) (approval : ReuseApproval)
    → IsApproved spec previous approval
    → spec.consumer_ref ≡ none
    → (spec.reuse_mode ≡ adopt) ⊎ (spec.reuse_mode ≡ reprovision)
    → classify spec ≡ reusable
unfolding classify
classify_reusable_complete spec previous approval v c m = ground (
  arith,
  eq_iff previous.uid "",
  eq_iff approval.previous_consumer_uid previous.uid,
  eq_iff approval.previous_consumer_uid "",
)

-- An approval given for another consumer than the one on record is void: the host is not reusable
-- and may not be reset.
pub approval_stale :
    (spec : TartHostSpec) (previous : PreviousConsumerRef) (approval : ReuseApproval)
    → spec.previous_consumer_ref ≡ some previous
    → spec.reuse_approval ≡ some approval
    → approval.previous_consumer_uid ≢ previous.uid
    → (classify spec ≢ reusable) × (reprovision_approved spec ≡ false)
unfolding classify reprovision_approved
approval_stale spec previous approval p a h =
    ground (arith, eq_iff approval.previous_consumer_uid previous.uid)

-- The approval of a reset does not depend on who holds the host: a claim keeps it, and a host that
-- nobody holds is reusable when its reset is approved.
pub reprovision_approved-claim :
    (spec : TartHostSpec) (consumer : Option ObjectReference)
    → (reprovision_approved (record spec { consumer_ref = consumer }) ≡ reprovision_approved spec)
      × (reprovision_approved spec ≡ true → spec.consumer_ref ≡ none → classify spec ≡ reusable)
unfolding classify reprovision_approved
reprovision_approved-claim spec consumer = (refl, λ h c. ground arith)

-- A host is available exactly when nobody holds it and nobody held it before.
pub classify_available_iff :
    (spec : TartHostSpec)
    → (classify spec ≡ available)
      ↔ ((spec.consumer_ref ≡ none) × (spec.previous_consumer_ref ≡ none))
unfolding classify
classify_available_iff spec = go spec.consumer_ref spec.previous_consumer_ref refl refl
  where
    go :
        (c : Option ObjectReference) (p : Option PreviousConsumerRef)
        → spec.consumer_ref ≡ c
        → spec.previous_consumer_ref ≡ p
        → (classify spec ≡ available)
          ↔ ((spec.consumer_ref ≡ none) × (spec.previous_consumer_ref ≡ none))
    go (some c) p ec ep = ground arith
    go none none ec ep = ground arith
    go none (some p) ec ep = ground arith

pub classify_reusable-free :
    (spec : TartHostSpec) → classify spec ≡ reusable → spec.consumer_ref ≡ none
unfolding classify
classify_reusable-free spec h = ground arith
