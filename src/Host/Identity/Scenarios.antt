-- ===== src/Host/Identity/Scenarios.antt =====
-- Two hosts with one MAC address, and two without a conflict.
use cluster_api_provider_tar.Base.{
  String, ◌≡◌, refl, Bool, true, false, Option, none, [], ◌∷◌, arith, eq_iff, ◌==◌, comparable_nat,
  comparable_text, comparable_list,
}
use cluster_api_provider_tar.Api.Meta.{Uuid, MacAddress, mac_beq}
use cluster_api_provider_tar.Api.Host.{TartHost}
use cluster_api_provider_tar.Api.Samples.{sample_host, sample_spec}
use cluster_api_provider_tar.Host.Identity.{
  same_mac_address, has_identity_conflict, clash, conflict_among, has_identity_conflict_for_any,
}
use cluster_api_provider_tar.Host.Identity.Sharing.{NoConflict}
use cluster_api_provider_tar.Host.Identity.Conflicts.{
  has_identity_conflict_sym, has_identity_conflict_for_any_lem,
}

abbrev no_uuid : String → Option Uuid
no_uuid text = none

abbrev same_text : String → String → Bool
same_text a b = a == b

same_text_sym : (a b : String) → same_text a b ≡ true → same_text b a ≡ true
same_text_sym a b h = ground (arith, eq_iff a b, eq_iff b a, h)

abbrev copy : TartHost
copy = record sample_host { name = "host-b" }

conflicts : has_identity_conflict no_uuid same_text sample_host (copy ∷ []) ≡ true
unfolding has_identity_conflict clash same_mac_address mac_beq
conflicts = refl

has_identity_conflict_sym_example :
    has_identity_conflict no_uuid same_text copy (sample_host ∷ []) ≡ true
has_identity_conflict_sym_example =
    has_identity_conflict_sym no_uuid same_text same_text_sym sample_host copy conflicts

abbrev other_mac : MacAddress
other_mac = record { value = 2 ∷ 0 ∷ 0 ∷ 0 ∷ 0 ∷ 2 ∷ []; is_set = true }

abbrev other : TartHost
other = record copy { spec = record sample_spec { mac_address = other_mac } }

no_conflict : has_identity_conflict_for_any no_uuid same_text (sample_host ∷ other ∷ []) ≡ false
unfolding has_identity_conflict_for_any conflict_among has_identity_conflict clash same_mac_address
    mac_beq
no_conflict = refl

has_identity_conflict_for_any_lem_example : NoConflict no_uuid same_text (sample_host ∷ other ∷ [])
has_identity_conflict_for_any_lem_example =
    has_identity_conflict_for_any_lem no_uuid same_text (sample_host ∷ other ∷ []) no_conflict
