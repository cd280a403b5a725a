-- ===== src/Recovery/RecoverySecret/Contract.antt =====
-- What a Secret that is read keeps, and that it can be built again.
use cluster_api_provider_tar.Base.{
  String, ◌≡◌, refl, sym, ap, ◌⊎◌, Bool, true, false, not, ◌&&◌, ◌||◌, some, arith, eq_iff, ◌!=◌,
  comparable_nat, comparable_text, comparable_list, trim_space, is_blank, is_blank_nonempty,
}
use cluster_api_provider_tar.Base.Result.{ok, >>=-eq-ok, ok-injective, fail_if, fail_if-false}
use cluster_api_provider_tar.Api.Meta.{ClusterId, cluster_id_is_zero, lookup_or_empty, is_true}
use cluster_api_provider_tar.Api.Secret.{Secret, UuidText, secret_type_opaque}
use cluster_api_provider_tar.ControlPlane.Rotation.{CertificateAndKey}
use cluster_api_provider_tar.Recovery.RecoverySecret.{
  RecoveryError, Material, parse_cluster_id, complete_authority, secret_name, build_secret,
  decode_secret, decoded_cluster, decoded_material, new_recovery_secret, is_recovery_secret,
  or_error, cluster_id_key, ca_certificate_key, ca_key_key, cluster_id_label, secret_invalid,
}

module _ (fingerprint : String → String) (is_dns1123_subdomain : String → Bool)
    (uuid : UuidText) where
  -- A Secret that keeps the contract for a material, which is its content.
  pub record KeepsContract (secret : Secret) (material : Material) : Type 0 where
    pub recovery : is_recovery_secret (some secret) ≡ true
    pub opaque : secret.kind ≡ secret_type_opaque
    pub immutable : is_true secret.immutable ≡ true
    pub labelled : lookup_or_empty secret.labels cluster_id_label ≡ uuid.print material.cluster_id
    pub ca : CertificateAndKey
    pub certificate : ca.crt ≡ lookup_or_empty secret.data_entries ca_certificate_key
    pub key : ca.key ≡ lookup_or_empty secret.data_entries ca_key_key
    pub has_certificate : is_blank ca.crt ≡ false
    pub has_key : is_blank ca.key ≡ false
    pub holds_ca : material.certificate_authority ≡ some ca
    pub named :
        secret_name fingerprint is_dns1123_subdomain uuid material.cluster_id (some ca)
        ≡ ok secret.name

  record IsClusterOf (secret : Secret) (c expected : ClusterId) : Type 0 where
    recovery : is_recovery_secret (some secret) ≡ true
    opaque : secret.kind ≡ secret_type_opaque
    immutable : is_true secret.immutable ≡ true
    labelled : lookup_or_empty secret.labels cluster_id_label ≡ uuid.print c
    expected_or_zero : (expected ≡ 0) ⊎ (expected ≡ c)

  decoded_cluster-IsClusterOf :
      (secret : Secret) (c expected : ClusterId)
      → decoded_cluster fingerprint is_dns1123_subdomain uuid secret expected ≡ ok c
      → IsClusterOf secret c expected
  unfolding decoded_cluster
  decoded_cluster-IsClusterOf secret c expected h =
      let (_, form, h₁) =
        >>=-eq-ok
          (fail_if (not (is_recovery_secret (some secret)) || secret.kind != secret_type_opaque)
            secret_invalid)
          _ h in
      let (_, fixed, h₂) =
        >>=-eq-ok (fail_if (not (is_true secret.immutable)) secret_invalid) _ h₁ in
      let (parsed, _, h₃) =
        >>=-eq-ok
          (or_error
            (parse_cluster_id uuid.parse
              (trim_space (lookup_or_empty secret.data_entries cluster_id_key)))
            secret_invalid)
          _ h₂ in
      let (_, label, h₄) =
        >>=-eq-ok
          (fail_if (lookup_or_empty secret.labels cluster_id_label != uuid.print parsed)
            secret_invalid)
          _ h₃ in
      let (_, wanted, h₅) =
        >>=-eq-ok (fail_if (not (cluster_id_is_zero expected) && expected != parsed) secret_invalid)
          _ h₄ in
      let same = ok-injective {E = RecoveryError} h₅ in
      record {
        recovery = ground arith;
        opaque = ground (arith, eq_iff secret.kind secret_type_opaque);
        immutable = ground arith;
        labelled = ground (
          arith,
          same,
          eq_iff (lookup_or_empty secret.labels cluster_id_label) (uuid.print parsed),
        );
        expected_or_zero = ground (arith, same);
      }

  record IsMaterialOf (secret : Secret) (c : ClusterId) (material : Material) : Type 0 where
    ca : CertificateAndKey
    certificate : ca.crt ≡ lookup_or_empty secret.data_entries ca_certificate_key
    key : ca.key ≡ lookup_or_empty secret.data_entries ca_key_key
    has_certificate : is_blank ca.crt ≡ false
    has_key : is_blank ca.key ≡ false
    is_material : material ≡ record { cluster_id = c; certificate_authority = some ca }
    named : secret_name fingerprint is_dns1123_subdomain uuid c (some ca) ≡ ok secret.name

  decoded_material-IsMaterialOf :
      (secret : Secret) (c : ClusterId) (material : Material)
      → decoded_material fingerprint is_dns1123_subdomain uuid secret c ≡ ok material
      → IsMaterialOf secret c material
  unfolding decoded_material
  decoded_material-IsMaterialOf secret c material h =
      let ca : CertificateAndKey = record {
        crt = lookup_or_empty secret.data_entries ca_certificate_key;
        key = lookup_or_empty secret.data_entries ca_key_key;
      } in
      let (u, there, h₁) = >>=-eq-ok (fail_if (is_blank ca.crt || is_blank ca.key) _) _ h in
      let present = fail_if-false (is_blank ca.crt || is_blank ca.key) _ u there in
      let (name, named, h₂) =
        >>=-eq-ok (secret_name fingerprint is_dns1123_subdomain uuid c (some ca)) _ h₁ in
      let (_, right, h₃) = >>=-eq-ok (fail_if (secret.name != name) secret_invalid) _ h₂ in
      let same : secret.name ≡ name = ground (arith, eq_iff secret.name name) in
      record {
        ca = ca;
        certificate = refl;
        key = refl;
        has_certificate = ground arith;
        has_key = ground arith;
        is_material = sym (ok-injective {E = RecoveryError} h₃);
        named = rw same named;
      }

  -- A Secret that is read is an immutable, opaque recovery Secret whose label and name agree with
  -- the material that is read, and the material is the certificate and the key that it holds; the
  -- cluster is the expected one, if one is expected.
  pub decode_secret-KeepsContract :
      (secret : Secret) (material : Material) (expected : ClusterId)
      → decode_secret fingerprint is_dns1123_subdomain uuid (some secret) expected ≡ ok material
      → KeepsContract secret material × ((expected ≡ 0) ⊎ (expected ≡ material.cluster_id))
  unfolding decode_secret
  decode_secret-KeepsContract secret material expected h =
      let (c, first, second) =
        >>=-eq-ok (decoded_cluster fingerprint is_dns1123_subdomain uuid secret expected) _ h in
      let k = decoded_cluster-IsClusterOf secret c expected first in
      let m = decoded_material-IsMaterialOf secret c material second in
      let is_c : material.cluster_id ≡ c = ap (λ x. x.cluster_id) m.is_material in
      (
        record {
          recovery = k.recovery;
          opaque = k.opaque;
          immutable = k.immutable;
          labelled = rw is_c k.labelled;
          ca = m.ca;
          certificate = m.certificate;
          key = m.key;
          has_certificate = m.has_certificate;
          has_key = m.has_key;
          holds_ca = ap (λ x. x.certificate_authority) m.is_material;
          named = rw is_c m.named;
        },
        rw is_c k.expected_or_zero,
      )

  complete_authority-some :
      (ca : CertificateAndKey)
      → is_blank ca.crt ≡ false
      → is_blank ca.key ≡ false
      → complete_authority (some ca) ≡ ok ca
  unfolding complete_authority
  complete_authority-some ca h k =
      ground (arith, is_blank_nonempty ca.crt h, is_blank_nonempty ca.key k)

  -- The material that is read of a Secret builds a Secret again in any namespace that is not blank:
  -- one with the same name, certificate, private key and label of the cluster.
  pub build-decode :
      (secret : Secret) (material : Material) (expected : ClusterId) (namespace : String)
      → decode_secret fingerprint is_dns1123_subdomain uuid (some secret) expected ≡ ok material
      → is_blank namespace ≡ false
      → (rebuilt : Secret) × (build_secret fingerprint is_dns1123_subdomain uuid namespace material
          ≡ ok rebuilt)
        × (rebuilt.name ≡ secret.name)
        × (lookup_or_empty rebuilt.data_entries ca_certificate_key
            ≡ lookup_or_empty secret.data_entries ca_certificate_key)
        × (lookup_or_empty rebuilt.data_entries ca_key_key
            ≡ lookup_or_empty secret.data_entries ca_key_key)
        × (lookup_or_empty rebuilt.labels cluster_id_label
            ≡ lookup_or_empty secret.labels cluster_id_label)
  unfolding build_secret lookup_or_empty
  build-decode secret material expected namespace h n =
      let k = (decode_secret-KeepsContract secret material expected h).0 in
      let complete = complete_authority-some k.ca k.has_certificate k.has_key in
      (
        new_recovery_secret fingerprint is_dns1123_subdomain uuid secret.name namespace
            material.cluster_id k.ca,
        rw (n, k.holds_ca, complete, k.named) refl,
        refl,
        k.certificate,
        k.key,
        sym k.labelled,
      )
