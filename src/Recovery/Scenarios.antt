-- ===== src/Recovery/Scenarios.antt =====
-- Concrete hosts and Secrets on which the theorems on resets and recovery Secrets apply.
use cluster_api_provider_tar.Base.{
  ℕ, String, ◌≡◌, refl, ap, subst, ◌≢◌, ◌↔◌, ◌⊎◌, inr, Bool, true, false, Option, none, some, [],
  ◌∷◌, comparable_nat, comparable_text, comparable_list, In, trim_space, is_blank,
}
use cluster_api_provider_tar.Base.Int.{pos}
use cluster_api_provider_tar.Base.Marks.{marks, count_marks, trim_space-marks, count_marks-marks}
use cluster_api_provider_tar.Base.Format.{concat}
use cluster_api_provider_tar.Base.Result.{ok, err}
use cluster_api_provider_tar.Api.Meta.{not_found, lookup_or_empty, comparable_mac, mac_beq}
use cluster_api_provider_tar.Api.Host.{TartHost}
use cluster_api_provider_tar.Api.Secret.{Secret, UuidText}
use cluster_api_provider_tar.Api.Samples.{sample_host, sample_mac, sample_status}
use cluster_api_provider_tar.ControlPlane.Rotation.{CertificateAndKey}
use cluster_api_provider_tar.Recovery.Identity.{
  ExpectedIdentity, ObservedIdentity, verify_reset_target, expected_identity_for_host,
  normalized_uuid, check_uuid,
}
use cluster_api_provider_tar.Recovery.Identity.Verification.{
  IsResetTarget, verify_reset_target_iff, verify-expected_identity_for_host,
}
use cluster_api_provider_tar.Recovery.RecoverySecret.{
  Material, build_secret, decode_secret, new_recovery_secret, secret_name,
  certificate_authority_fingerprint, complete_authority, is_recovery_secret, ca_certificate_key,
  ca_key_key, cluster_id_label,
}
use cluster_api_provider_tar.Recovery.RecoverySecret.RoundTrip.{decode-build}
use cluster_api_provider_tar.Recovery.RecoverySecret.Contract.{
  KeepsContract, decode_secret-KeepsContract, build-decode,
}
use cluster_api_provider_tar.Recovery.Retention.{should_delete, is_referenced_by}
use cluster_api_provider_tar.Recovery.Retention.Holders.{IsDeletable, should_delete_iff}
use cluster_api_provider_tar.Recovery.Collector.{
  SecretReadings, requested, reconcile_recovery_secret, IsCollectable,
  reconcile_recovery_secret_safe,
}

abbrev unary : UuidText
unary = record {
  print = marks;
  parse = λ s. some (count_marks s);
  trim_space-print = trim_space-marks;
  parse-print = λ n. ap some (count_marks-marks n);
}

abbrev as_is : String → String
as_is s = s

abbrev every_name : String → Bool
every_name name = true

abbrev expected : ExpectedIdentity
expected = record {
  cluster_id = 3;
  mac_address = sample_mac;
  system_uuid = "";
  endpoint = "192.0.2.10";
}

abbrev observed : ObservedIdentity
observed = record {
  cluster_id = 3;
  mac_addresses = sample_mac ∷ [];
  system_uuid = "";
  endpoint = "192.0.2.10 ";
}

verify_reset_target_iff_example :
    (verify_reset_target as_is expected observed ≡ ok tt) ↔ IsResetTarget as_is expected observed
verify_reset_target_iff_example = verify_reset_target_iff as_is expected observed

accepted :
    verify_reset_target as_is
      (expected_identity_for_host (some sample_host) 3 " 192.0.2.10")
      observed
    ≡ ok tt
unfolding verify_reset_target expected_identity_for_host normalized_uuid check_uuid is_blank mac_beq
accepted = refl

verify-expected_identity_for_host_example :
    (h : TartHost) × (some sample_host ≡ some h)
    × (◌≢◌ {A = ℕ} 3 0)
    × (observed.cluster_id ≡ 3)
    × In h.spec.mac_address observed.mac_addresses
verify-expected_identity_for_host_example =
    verify-expected_identity_for_host as_is (some sample_host) 3 " 192.0.2.10" observed accepted

abbrev ca : CertificateAndKey
ca = record { crt = "certificate"; key = "key" }

abbrev material : Material
material = record { cluster_id = 3; certificate_authority = some ca }

abbrev built : Secret
built = new_recovery_secret as_is every_name unary "tart-talos-recovery-xxx-certificate" "ns" 3 ca

build_run : build_secret as_is every_name unary "ns" material ≡ ok built
unfolding build_secret secret_name certificate_authority_fingerprint complete_authority is_blank
    concat
build_run = refl

abbrev key_of : Option CertificateAndKey → String
key_of none = ""
key_of (some c) = c.key

key_there : (c : CertificateAndKey) → some ca ≡ some c → is_blank c.key ≡ false
unfolding is_blank
key_there c e = subst (λ o. is_blank (key_of o) ≡ false) e refl

decode-build_example : decode_secret as_is every_name unary (some built) 3 ≡ ok material
decode-build_example =
    decode-build as_is every_name unary "ns" material built 3 build_run key_there (inr refl)

decode_secret-KeepsContract_example :
    KeepsContract as_is every_name unary built material × (◌≡◌ {A = ℕ} 3 0 ⊎ ◌≡◌ {A = ℕ} 3 3)
decode_secret-KeepsContract_example =
    decode_secret-KeepsContract as_is every_name unary built material 3
      (decode-build as_is every_name unary "ns" material built 3 build_run key_there (inr refl))

other_is_name : is_blank "other" ≡ false
unfolding is_blank
other_is_name = refl

build-decode_example :
    (rebuilt : Secret) × (build_secret as_is every_name unary "other" material ≡ ok rebuilt)
    × (rebuilt.name ≡ built.name)
    × (lookup_or_empty rebuilt.data_entries ca_certificate_key
        ≡ lookup_or_empty built.data_entries ca_certificate_key)
    × (lookup_or_empty rebuilt.data_entries ca_key_key
        ≡ lookup_or_empty built.data_entries ca_key_key)
    × (lookup_or_empty rebuilt.labels cluster_id_label
        ≡ lookup_or_empty built.labels cluster_id_label)
build-decode_example =
    build-decode as_is every_name unary built material 3 "other"
      (decode-build as_is every_name unary "ns" material built 3 build_run key_there (inr refl))
      other_is_name

abbrev holder : TartHost
holder = record sample_host {
  status = record sample_status {
    current_talos_identity_ref = some (record {
      cluster_id = 3;
      recovery_secret_ref = "tart-talos-recovery-xxx-certificate";
      bound_at = none;
    });
  };
}

should_delete_iff_example :
    (should_delete (some built) (holder ∷ []) 5000 (pos 1800) ≡ true)
    ↔ IsDeletable built (holder ∷ []) 5000 1800
should_delete_iff_example = should_delete_iff built (holder ∷ []) 5000 1800

held : should_delete (some built) (holder ∷ []) 5000 (pos 1800) ≡ false
unfolding should_delete is_referenced_by is_recovery_secret lookup_or_empty is_blank trim_space
held = refl

abbrev abandoned : SecretReadings
abandoned = record {
  secret = ok built;
  hosts = ok (sample_host ∷ []);
  now = 5000;
  deletion = err not_found;
}

collected : reconcile_recovery_secret "ns" "ns" abandoned ≡ requested (ok tt)
unfolding reconcile_recovery_secret should_delete is_referenced_by is_recovery_secret
    lookup_or_empty is_blank
collected = refl

reconcile_recovery_secret_safe_example : IsCollectable "ns" "ns" abandoned
reconcile_recovery_secret_safe_example =
    reconcile_recovery_secret_safe "ns" "ns" abandoned (ok tt) collected
