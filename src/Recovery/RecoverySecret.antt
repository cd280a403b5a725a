-- ===== src/Recovery/RecoverySecret.antt =====
-- usecase/recovery/secret.go: the Secret that holds the Talos API CA of a cluster. `print` and
-- `parse` are the printed form of a UUID and its parser, `fingerprint` the first eight bytes of a
-- text's SHA-256 in hexadecimal, and `is_dns1123_subdomain` apimachinery's validation of a name.
pub mod RoundTrip
pub mod Contract
use cluster_api_provider_tar.Base.{
  ℕ, zero, suc, String, ◌+◌, ◌-◌, ◌*◌, ◌/◌, ◌%◌, ◌^◌, ◌≤◌, ◌<◌, ◌≡◌, refl, sym, ap, subst, ◌∙◌, ◌≢◌,
  ◌↔◌, ◌⊎◌, inl, inr, Bool, true, false, not, ◌&&◌, ◌||◌, Option, none, some, List, [], ◌∷◌, ◌++◌,
  map, arith, eq_iff, eq_refl, ltb, leb, if◌then◌else◌, Comparable, ◌==◌, ◌!=◌, comparable_nat,
  comparable_text, comparable_list, list_beq_iff, ==_refl, Bool-cases, Option-cases, ltb→lt, leb→le,
  is_some, length, any, keep, count_if, All, In, trim_space, is_blank, codes, is_blank-empty,
  is_blank_nonempty,
}
use cluster_api_provider_tar.Base.Format.{concat}
use cluster_api_provider_tar.Base.Result.{Result, ok, err, ◌>>=◌, ◌>>◌, fail_if}
use cluster_api_provider_tar.Api.Meta.{
  Uuid, ClusterId, cluster_id_is_zero, StringMap, lookup_or_empty, is_true,
}
use cluster_api_provider_tar.Api.Secret.{Secret, UuidText, secret_type_opaque}
use cluster_api_provider_tar.ControlPlane.Rotation.{CertificateAndKey}

pub data RecoveryError : Type 0 where
  invalid_cluster_identity secret_invalid certificate_authority_missing : RecoveryError

abbrev pub cluster_id_label : String
cluster_id_label = "tart.cluster.x-k8s.io/cluster-id"

abbrev pub secret_type_label : String
secret_type_label = "tart.cluster.x-k8s.io/secret-type"

abbrev pub secret_type_recovery : String
secret_type_recovery = "talos-recovery"

abbrev pub ca_certificate_key : String
ca_certificate_key = "os-ca.crt"

abbrev pub ca_key_key : String
ca_key_key = "os-ca.key"

abbrev pub cluster_id_key : String
cluster_id_key = "clusterID"

abbrev pub secret_name_prefix : String
secret_name_prefix = "tart-talos-recovery-"

-- `Material`.
pub record Material : Type 0 where
  pub cluster_id : ClusterId
  pub certificate_authority : Option CertificateAndKey

-- `secrets.Bundle`, as far as it is read.
pub record TalosBundle : Type 0 where
  pub cluster_id : Option String
  pub os : Option CertificateAndKey

-- `ParseClusterID`.
abbrev not_nil : Option Uuid → Option ClusterId
not_nil none = none
not_nil (some u) = if u == 0 then none else some u

unfoldable pub parse_cluster_id : (String → Option Uuid) → String → Option ClusterId
parse_cluster_id parse value = not_nil (parse (trim_space value))

abbrev or_error : {A : Type 0} → Option A → RecoveryError → Result RecoveryError A
or_error none e = err e
or_error (some a) e = ok a

-- `CertificateAuthority == nil || len(Crt) == 0 || len(Key) == 0`, or the authority.
unfoldable pub complete_authority :
    Option CertificateAndKey → Result RecoveryError CertificateAndKey
complete_authority none = err certificate_authority_missing
complete_authority (some ca) =
    if ca.crt == "" || ca.key == "" then err certificate_authority_missing else ok ca

-- `IsRecoverySecret`.
unfoldable pub is_recovery_secret : Option Secret → Bool
is_recovery_secret none = false
is_recovery_secret (some secret) =
    lookup_or_empty secret.labels secret_type_label == secret_type_recovery

module _ (fingerprint : String → String) where
  -- `CertificateAuthorityFingerprint`.
  unfoldable pub certificate_authority_fingerprint :
      Option CertificateAndKey → Result RecoveryError String
  certificate_authority_fingerprint none = err certificate_authority_missing
  certificate_authority_fingerprint (some ca) =
      if is_blank ca.crt
      then err certificate_authority_missing
      else ok (fingerprint (trim_space ca.crt))

  module _ (is_dns1123_subdomain : String → Bool) (uuid : UuidText) where
    -- `SecretName`.
    unfoldable pub secret_name : ClusterId → Option CertificateAndKey → Result RecoveryError String
    secret_name cluster_id ca = do
      fail_if (cluster_id_is_zero cluster_id) invalid_cluster_identity
      print_of_ca ← certificate_authority_fingerprint ca
      let name = concat (secret_name_prefix ∷ uuid.print cluster_id ∷ "-" ∷ print_of_ca ∷ [])
      fail_if (not (is_dns1123_subdomain name)) invalid_cluster_identity
      ok name

    -- `MaterialFromBundle`.
    bundle_material : String → CertificateAndKey → Result RecoveryError Material
    bundle_material id ca = do
      cluster_id ← or_error (parse_cluster_id uuid.parse id) invalid_cluster_identity
      ok (record { cluster_id = cluster_id; certificate_authority = some ca })

    unfoldable pub material_from_bundle : Option TalosBundle → Result RecoveryError Material
    unfolding bundle_material
    material_from_bundle none = err invalid_cluster_identity
    material_from_bundle (some bundle) = do
      id ← or_error bundle.cluster_id invalid_cluster_identity
      fail_if (is_blank id) invalid_cluster_identity
      ca ← complete_authority bundle.os
      bundle_material id ca

    -- The Secret that `BuildSecret` returns.
    abbrev pub new_recovery_secret : String → String → ClusterId → CertificateAndKey → Secret
    new_recovery_secret name namespace cluster_id ca = record {
      name = name;
      namespace = namespace;
      labels =
          (cluster_id_label, uuid.print cluster_id)
          ∷ (secret_type_label, secret_type_recovery)
          ∷ [];
      owner_references = [];
      kind = secret_type_opaque;
      immutable = some true;
      data_entries =
          (cluster_id_key, uuid.print cluster_id)
          ∷ (ca_certificate_key, ca.crt)
          ∷ (ca_key_key, ca.key)
          ∷ [];
      creation_timestamp = none;
      deletion_timestamp = none;
    }

    -- `BuildSecret`.
    unfoldable pub build_secret : String → Material → Result RecoveryError Secret
    build_secret namespace material = do
      fail_if (is_blank namespace) secret_invalid
      ca ← complete_authority material.certificate_authority
      name ← secret_name material.cluster_id material.certificate_authority
      ok (new_recovery_secret name namespace material.cluster_id ca)

    -- The tests of `DecodeSecret` before the certificates: the cluster that the Secret names.
    decoded_cluster : Secret → ClusterId → Result RecoveryError ClusterId
    decoded_cluster secret expected = do
      fail_if (not (is_recovery_secret (some secret)) || secret.kind != secret_type_opaque)
          secret_invalid
      fail_if (not (is_true secret.immutable)) secret_invalid
      parsed ←
          or_error
            (parse_cluster_id uuid.parse
              (trim_space (lookup_or_empty secret.data_entries cluster_id_key)))
            secret_invalid
      fail_if (lookup_or_empty secret.labels cluster_id_label != uuid.print parsed) secret_invalid
      fail_if (not (cluster_id_is_zero expected) && expected != parsed) secret_invalid
      ok parsed

    -- The rest of it.
    decoded_material : Secret → ClusterId → Result RecoveryError Material
    decoded_material secret parsed = do
      let certificate = lookup_or_empty secret.data_entries ca_certificate_key
      let key = lookup_or_empty secret.data_entries ca_key_key
      fail_if (is_blank certificate || is_blank key) certificate_authority_missing
      let ca : CertificateAndKey = record { crt = certificate; key = key }
      expected_name ← secret_name parsed (some ca)
      fail_if (secret.name != expected_name) secret_invalid
      ok (record { cluster_id = parsed; certificate_authority = some ca })

    -- `DecodeSecret`.
    unfoldable pub decode_secret : Option Secret → ClusterId → Result RecoveryError Material
    unfolding decoded_cluster decoded_material
    decode_secret none expected = err secret_invalid
    decode_secret (some secret) expected =
        decoded_cluster secret expected >>= decoded_material secret
