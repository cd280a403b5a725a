-- ===== src/ControlPlane/Quorum.antt =====
-- domain/controlplane/quorum.go.
pub mod Majority
use cluster_api_provider_tar.Base.{
  ℕ, zero, suc, String, ◌+◌, ◌-◌, ◌*◌, ◌/◌, ◌%◌, ◌^◌, ◌≤◌, ◌<◌, ◌≡◌, refl, sym, ap, subst, ◌∙◌, ◌≢◌,
  ◌↔◌, ◌⊎◌, inl, inr, Bool, true, false, not, ◌&&◌, ◌||◌, Option, none, some, List, [], ◌∷◌, ◌++◌,
  map, arith, eq_iff, eq_refl, ltb, leb, if◌then◌else◌, Comparable, ◌==◌, ◌!=◌, comparable_nat,
  comparable_text, comparable_list, list_beq_iff, ==_refl, Bool-cases, Option-cases, ltb→lt, leb→le,
  is_some, length, any, keep, count_if, All, In, trim_space, is_blank, codes, is_blank-empty,
  is_blank_nonempty,
}
use cluster_api_provider_tar.Base.Int.{ℤ, pos, negsuc, ◌<?◌, pred_ℤ, half_plus_one, same_ℤ}

-- `RemovalObservation`.
pub record RemovalObservation : Type 0 where
  pub member_count : ℤ
  pub healthy_member_count : ℤ
  pub target_healthy : Bool
  pub target_health_observed : Bool

unfoldable pub quorum_size : ℤ → ℤ
quorum_size member_count = half_plus_one member_count

remaining_healthy : RemovalObservation → ℤ
remaining_healthy o =
    if o.target_healthy then pred_ℤ o.healthy_member_count else o.healthy_member_count

-- `CanRemoveMember`.
unfoldable pub can_remove_member : RemovalObservation → Bool
unfolding quorum_size remaining_healthy
can_remove_member o =
    if o.member_count <? pos 2 || not o.target_health_observed
    then false
    else if o.healthy_member_count <? pos 0 || o.member_count <? o.healthy_member_count
    then false
    else if o.target_healthy && same_ℤ o.healthy_member_count (pos 0)
    then false
    else if not o.target_healthy && same_ℤ o.healthy_member_count o.member_count
    then false
    else if o.healthy_member_count <? quorum_size o.member_count
    then false
    else not (remaining_healthy o <? quorum_size (pred_ℤ o.member_count))

-- `CanTemporarilyDisruptMember`.
unfoldable pub can_temporarily_disrupt_member : RemovalObservation → Bool
unfolding quorum_size
can_temporarily_disrupt_member o =
    if o.member_count <? pos 1 || not o.target_health_observed || not o.target_healthy
    then false
    else if o.healthy_member_count <? pos 0 || o.member_count <? o.healthy_member_count
    then false
    else if same_ℤ o.member_count (pos 1)
    then same_ℤ o.healthy_member_count (pos 1)
    else if o.healthy_member_count <? quorum_size o.member_count
    then false
    else not (pred_ℤ o.healthy_member_count <? quorum_size o.member_count)
