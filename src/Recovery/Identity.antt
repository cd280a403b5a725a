-- ===== src/Recovery/Identity.antt =====
-- domain/recovery/identity.go and usecase/recovery/identity.go. `to_lower` stands for the
-- lower-case form of a text.
pub mod Verification
use cluster_api_provider_tar.Base.{
  ℕ, zero, suc, String, ◌+◌, ◌-◌, ◌*◌, ◌/◌, ◌%◌, ◌^◌, ◌≤◌, ◌<◌, ◌≡◌, refl, sym, ap, subst, ◌∙◌, ◌≢◌,
  ◌↔◌, ◌⊎◌, inl, inr, Bool, true, false, not, ◌&&◌, ◌||◌, Option, none, some, List, [], ◌∷◌, ◌++◌,
  map, arith, eq_iff, eq_refl, ltb, leb, if◌then◌else◌, Comparable, ◌==◌, ◌!=◌, comparable_nat,
  comparable_text, comparable_list, list_beq_iff, ==_refl, Bool-cases, Option-cases, ltb→lt, leb→le,
  is_some, length, any, keep, count_if, All, In, trim_space, is_blank, codes, is_blank-empty,
  is_blank_nonempty,
}
use cluster_api_provider_tar.Base.Result.{Result, ok, err, ◌>>=◌, ◌>>◌, fail_if}
use cluster_api_provider_tar.Api.Meta.{ClusterId, cluster_id_is_zero, MacAddress, comparable_mac}
use cluster_api_provider_tar.Api.Host.{TartHost, HostInventory}

pub data IdentityError : Type 0 where
  endpoint_unknown cluster_identity_mismatch : IdentityError
  host_identity_mismatch host_identity_unverifiable : IdentityError

pub record ExpectedIdentity : Type 0 where
  pub cluster_id : ClusterId
  pub mac_address : MacAddress
  pub system_uuid : String
  pub endpoint : String

pub record ObservedIdentity : Type 0 where
  pub cluster_id : ClusterId
  pub mac_addresses : List MacAddress
  pub system_uuid : String
  pub endpoint : String

-- `MACAddress{}`.
abbrev pub no_mac : MacAddress
no_mac = record { value = 0 ∷ 0 ∷ 0 ∷ 0 ∷ 0 ∷ 0 ∷ []; is_set = false }

abbrev pub zero_uuid_text : String
zero_uuid_text = "00000000-0000-0000-0000-000000000000"

-- The comparison of two normalized system UUIDs.
unfoldable pub check_uuid : String → String → Result IdentityError (Unit {0})
check_uuid expected observed =
    if expected == ""
    then ok tt
    else if observed == ""
    then err host_identity_unverifiable
    else fail_if (observed != expected) host_identity_mismatch

module _ (to_lower : String → String) where
  -- `normalizedUUID`.
  unfoldable pub normalized_uuid : String → String
  normalized_uuid value =
      let normalized = to_lower (trim_space value) in
      if normalized == zero_uuid_text then "" else normalized

  -- `VerifyResetTarget`.
  unfoldable pub verify_reset_target :
      ExpectedIdentity → ObservedIdentity → Result IdentityError (Unit {0})
  unfolding check_uuid
  verify_reset_target expected observed = do
    fail_if (cluster_id_is_zero expected.cluster_id) cluster_identity_mismatch
    fail_if (cluster_id_is_zero observed.cluster_id || observed.cluster_id != expected.cluster_id)
        cluster_identity_mismatch
    fail_if (is_blank expected.endpoint || expected.endpoint != trim_space observed.endpoint)
        endpoint_unknown
    fail_if
        (not expected.mac_address.is_set
          || not (any (λ m. m == expected.mac_address) observed.mac_addresses))
        host_identity_mismatch
    check_uuid (normalized_uuid expected.system_uuid) (normalized_uuid observed.system_uuid)

abbrev inventory_uuid : Option HostInventory → String
inventory_uuid none = ""
inventory_uuid (some inventory) = trim_space inventory.system_uuid

-- `ExpectedIdentityForHost`.
unfoldable pub expected_identity_for_host : Option TartHost → ClusterId → String → ExpectedIdentity
expected_identity_for_host none cluster_id endpoint = record {
  cluster_id = cluster_id;
  mac_address = no_mac;
  system_uuid = "";
  endpoint = trim_space endpoint;
}
expected_identity_for_host (some host) cluster_id endpoint = record {
  cluster_id = cluster_id;
  mac_address = host.spec.mac_address;
  system_uuid = inventory_uuid host.status.inventory;
  endpoint = trim_space endpoint;
}
