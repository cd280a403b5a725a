-- ===== src/Host/Eligibility.antt =====
-- usecase/host/eligibility.go and domain/host/state.go.
pub mod Approval
use cluster_api_provider_tar.Base.{
  ℕ, zero, suc, String, ◌+◌, ◌-◌, ◌*◌, ◌/◌, ◌%◌, ◌^◌, ◌≤◌, ◌<◌, ◌≡◌, refl, sym, ap, subst, ◌∙◌, ◌≢◌,
  ◌↔◌, ◌⊎◌, inl, inr, Bool, true, false, not, ◌&&◌, ◌||◌, Option, none, some, List, [], ◌∷◌, ◌++◌,
  map, arith, eq_iff, eq_refl, ltb, leb, if◌then◌else◌, Comparable, ◌==◌, ◌!=◌, comparable_nat,
  comparable_text, comparable_list, list_beq_iff, ==_refl, Bool-cases, Option-cases, ltb→lt, leb→le,
  is_some, length, any, keep, count_if, All, In, trim_space, is_blank, codes, is_blank-empty,
  is_blank_nonempty,
}
use cluster_api_provider_tar.Api.Host.{
  ReusePolicy, allow_reuse, ReuseMode, adopt, reprovision, PreviousConsumerRef, ReuseApproval,
  TartHostSpec,
}

-- Whether a host can be allocated; it is computed anew from the spec, never stored.
pub data Eligibility : Type 0 where
  available claimed retained reusable : Eligibility

abbrev pub is_allow_reuse : ReusePolicy → Bool
is_allow_reuse allow_reuse = true
is_allow_reuse _ = false

abbrev pub is_reprovision : ReuseMode → Bool
is_reprovision reprovision = true
is_reprovision _ = false

unfoldable pub valid_reuse_mode : ReuseMode → Bool
valid_reuse_mode adopt = true
valid_reuse_mode reprovision = true
valid_reuse_mode _ = false

-- The clauses that `Classify` and `ReprovisionApproved` share: an approval is there, and it names
-- the consumer on record.
abbrev pub approval_matches : Option ReuseApproval → PreviousConsumerRef → Bool
approval_matches none previous = false
approval_matches (some approval) previous =
    previous.uid != ""
    && approval.previous_consumer_uid != ""
    && approval.previous_consumer_uid == previous.uid

classify_retained : TartHostSpec → PreviousConsumerRef → Eligibility
unfolding valid_reuse_mode
classify_retained spec previous =
    if is_allow_reuse spec.reuse_policy
      && approval_matches spec.reuse_approval previous
      && valid_reuse_mode spec.reuse_mode
    then reusable
    else retained

classify_unclaimed : TartHostSpec → Option PreviousConsumerRef → Eligibility
unfolding classify_retained
classify_unclaimed spec none = available
classify_unclaimed spec (some previous) = classify_retained spec previous

-- `Classify`.
unfoldable pub classify : TartHostSpec → Eligibility
unfolding classify_unclaimed
classify spec =
    if is_some spec.consumer_ref
    then claimed
    else classify_unclaimed spec spec.previous_consumer_ref

abbrev approved_for : TartHostSpec → Option PreviousConsumerRef → Bool
approved_for spec none = false
approved_for spec (some previous) = approval_matches spec.reuse_approval previous

-- `ReprovisionApproved`: whether the user has approved the destructive reset of the host.
unfoldable pub reprovision_approved : TartHostSpec → Bool
reprovision_approved spec =
    is_allow_reuse spec.reuse_policy
    && is_reprovision spec.reuse_mode
    && approved_for spec spec.previous_consumer_ref
