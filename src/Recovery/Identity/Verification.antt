-- ===== src/Recovery/Identity/Verification.antt =====
-- When the target of a reset is accepted.
use cluster_api_provider_tar.Api.Host.{TartHost}
use cluster_api_provider_tar.Base.{
  String, ◌≡◌, refl, ◌≢◌, ◌↔◌, ◌⊎◌, true, false, Option, none, some, List, [], ◌∷◌, arith, eq_iff,
  ◌==◌, comparable_nat, comparable_text, comparable_list, any, In, trim_space, is_blank,
}
use cluster_api_provider_tar.Base.Result.{ok}
use cluster_api_provider_tar.Api.Meta.{MacAddress, comparable_mac, mac_beq_iff, ClusterId}
use cluster_api_provider_tar.Recovery.Identity.{
  ExpectedIdentity, ObservedIdentity, normalized_uuid, verify_reset_target, check_uuid,
  expected_identity_for_host,
}

pub any_mac_iff : (m : MacAddress) (ms : List MacAddress) → (any (λ x. x == m) ms ≡ true) ↔ In m ms
any_mac_iff m [] = ground arith
any_mac_iff m (x ∷ ms) = ground (arith, mac_beq_iff x m, any_mac_iff m ms)

pub record IsResetTarget (to_lower : String → String) (expected : ExpectedIdentity)
    (observed : ObservedIdentity) : Type 0 where
  pub has_cluster : expected.cluster_id ≢ 0
  pub same_cluster : observed.cluster_id ≡ expected.cluster_id
  pub has_endpoint : is_blank expected.endpoint ≡ false
  pub same_endpoint : trim_space observed.endpoint ≡ expected.endpoint
  pub has_mac : expected.mac_address.is_set ≡ true
  pub mac_reported : In expected.mac_address observed.mac_addresses
  pub same_uuid :
      (normalized_uuid to_lower expected.system_uuid ≡ "")
      ⊎ (normalized_uuid to_lower observed.system_uuid
          ≡ normalized_uuid to_lower expected.system_uuid)

check_uuid_iff : (a b : String) → (check_uuid a b ≡ ok tt) ↔ ((a ≡ "") ⊎ (b ≡ a))
unfolding check_uuid
check_uuid_iff a b = ground (arith, eq_iff a "", eq_iff b "", eq_iff b a)

-- A reset is accepted exactly when the expected cluster is set and is the observed one, the
-- expected endpoint is not blank and is the one that was reached, the expected MAC address is set
-- and among the reported ones, and the expected system UUID, when the inventory has a real one, is
-- the reported one.
pub verify_reset_target_iff :
    (to_lower : String → String) (expected : ExpectedIdentity) (observed : ObservedIdentity)
    → (verify_reset_target to_lower expected observed ≡ ok tt)
      ↔ IsResetTarget to_lower expected observed
unfolding verify_reset_target
verify_reset_target_iff to_lower expected observed = ground (
  arith,
  eq_iff expected.endpoint (trim_space observed.endpoint),
  any_mac_iff expected.mac_address observed.mac_addresses,
  check_uuid_iff (normalized_uuid to_lower expected.system_uuid)
      (normalized_uuid to_lower observed.system_uuid),
)

-- An accepted reset of the host of an inventory: there is a host, the node that was reached
-- belongs to the cluster of the recovery identity, and it reports the MAC address of the host.
pub verify-expected_identity_for_host :
    (to_lower : String → String) (host : Option TartHost) (cluster_id : ClusterId)
    (endpoint : String) (observed : ObservedIdentity)
    → verify_reset_target to_lower (expected_identity_for_host host cluster_id endpoint) observed
      ≡ ok tt
    → (h : TartHost) × (host ≡ some h)
      × (cluster_id ≢ 0)
      × (observed.cluster_id ≡ cluster_id)
      × In h.spec.mac_address observed.mac_addresses
unfolding expected_identity_for_host
verify-expected_identity_for_host to_lower none cluster_id endpoint observed e = absurd (
    ground (
      arith,
      (verify_reset_target_iff to_lower (expected_identity_for_host none cluster_id endpoint)
            observed).0
          e,
    ))
verify-expected_identity_for_host to_lower (some h) cluster_id endpoint observed e =
    let t =
      (verify_reset_target_iff to_lower (expected_identity_for_host (some h) cluster_id endpoint)
          observed).0
        e in
    (h, refl, t.has_cluster, t.same_cluster, t.mac_reported)
