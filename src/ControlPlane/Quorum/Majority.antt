-- ===== src/ControlPlane/Quorum/Majority.antt =====
-- The tests against majorities of members.
use cluster_api_provider_tar.Base.{
  ℕ, ◌+◌, ◌-◌, ◌*◌, ◌≤◌, ◌<◌, ◌≡◌, ◌↔◌, ◌⊎◌, Bool, true, false, arith, comparable_nat,
  comparable_text, comparable_list,
}
use cluster_api_provider_tar.Base.Int.{pos, negsuc}
use cluster_api_provider_tar.ControlPlane.Quorum.{
  RemovalObservation, can_remove_member, can_temporarily_disrupt_member,
}

-- More than half of the members are healthy.
abbrev pub HasQuorum : ℕ → ℕ → Type 0
HasQuorum members healthy = members < 2 * healthy

abbrev pub counted : Bool → ℕ
counted true = 1
counted false = 0

-- The removal of one member is safe.
pub record IsRemovable (members healthy : ℕ) (target_healthy : Bool) : Type 0 where
  pub plural : 2 ≤ members
  pub bounded : healthy ≤ members
  pub target_counts : counted target_healthy ≤ healthy
  pub target_missing : healthy + 1 ≤ members + counted target_healthy
  pub before : HasQuorum members healthy
  pub after : HasQuorum (members - 1) (healthy - counted target_healthy)

-- A member may be removed exactly when the health of the target was observed, the counts are
-- consistent, and more than half of the members are healthy both before and after the removal.
pub can_remove_member_iff :
    (members healthy : ℕ) (target_healthy observed : Bool)
    → (can_remove_member (record {
      member_count = pos members;
      healthy_member_count = pos healthy;
      target_healthy = target_healthy;
      target_health_observed = observed;
    })
        ≡ true)
      ↔ ((observed ≡ true) × IsRemovable members healthy target_healthy)
unfolding can_remove_member
can_remove_member_iff members healthy true true = ground arith
can_remove_member_iff members healthy false true = ground arith
can_remove_member_iff members healthy true false = ground arith
can_remove_member_iff members healthy false false = ground arith

-- A member may be stopped for a while exactly when it is observed healthy, the counts are
-- consistent, and it is the only member or more than half of all members are healthy without it.
pub can_temporarily_disrupt_member_iff :
    (members healthy : ℕ) (target_healthy observed : Bool)
    → (can_temporarily_disrupt_member (record {
      member_count = pos members;
      healthy_member_count = pos healthy;
      target_healthy = target_healthy;
      target_health_observed = observed;
    })
        ≡ true)
      ↔ ((observed ≡ true)
          × (target_healthy ≡ true)
          × (healthy ≤ members)
          × (((members ≡ 1) × (healthy ≡ 1)) ⊎ HasQuorum members (healthy - 1)))
unfolding can_temporarily_disrupt_member
can_temporarily_disrupt_member_iff members healthy true true = ground arith
can_temporarily_disrupt_member_iff members healthy false true = ground arith
can_temporarily_disrupt_member_iff members healthy true false = ground arith
can_temporarily_disrupt_member_iff members healthy false false = ground arith

-- A negative count is no observation: nothing may be removed or stopped on it.
pub negative_counts :
    (o : RemovalObservation) (n : ℕ)
    → (o.member_count ≡ negsuc n) ⊎ (o.healthy_member_count ≡ negsuc n)
    → (can_remove_member o ≡ false) × (can_temporarily_disrupt_member o ≡ false)
unfolding can_remove_member can_temporarily_disrupt_member
negative_counts o n h = ground arith
