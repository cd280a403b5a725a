-- ===== src/Recovery/RecoverySecret/RoundTrip.antt =====
-- A recovery Secret is read back as the material that it was built from, and what is read
-- determines the Secret.
use cluster_api_provider_tar.Base.{
  String, ◌≡◌, refl, sym, ap, ◌≢◌, ◌⊎◌, Bool, false, Option, none, some, arith, comparable_nat,
  comparable_text, comparable_list, ==_refl, trim_space, is_blank,
}
use cluster_api_provider_tar.Base.Result.{ok, >>=-eq-ok, ok-injective, fail_if, fail_if-false}
use cluster_api_provider_tar.Api.Meta.{ClusterId, cluster_id_is_zero, lookup_or_empty}
use cluster_api_provider_tar.Api.Secret.{Secret, UuidText}
use cluster_api_provider_tar.ControlPlane.Rotation.{CertificateAndKey}
use cluster_api_provider_tar.Recovery.RecoverySecret.{
  RecoveryError, Material, parse_cluster_id, complete_authority, secret_name, build_secret,
  decode_secret, decoded_cluster, decoded_material, new_recovery_secret, is_recovery_secret,
  certificate_authority_fingerprint,
}

complete_authority-eq :
    (o : Option CertificateAndKey) (ca : CertificateAndKey)
    → complete_authority o ≡ ok ca
    → o ≡ some ca
unfolding complete_authority
complete_authority-eq none ca h = cc
complete_authority-eq (some x) ca h = ground arith

module _ (fingerprint : String → String) (is_dns1123_subdomain : String → Bool)
    (uuid : UuidText) where
  parse_cluster_id-print :
      (c : ClusterId) → c ≢ 0 → parse_cluster_id uuid.parse (trim_space (uuid.print c)) ≡ some c
  unfolding parse_cluster_id
  parse_cluster_id-print c h =
      rw (uuid.trim_space-print c, uuid.trim_space-print c, uuid.parse-print c) (ground arith)

  secret_name-nonzero :
      (c : ClusterId) (ca : Option CertificateAndKey) (name : String)
      → secret_name fingerprint is_dns1123_subdomain uuid c ca ≡ ok name
      → c ≢ 0
  unfolding secret_name
  secret_name-nonzero c ca name h =
      let (u, k, _) = >>=-eq-ok (fail_if (cluster_id_is_zero c) _) _ h in
      ground (arith, fail_if-false (cluster_id_is_zero c) _ u k)

  secret_name_blank :
      (c : ClusterId) (ca : CertificateAndKey) (name : String)
      → secret_name fingerprint is_dns1123_subdomain uuid c (some ca) ≡ ok name
      → is_blank ca.crt ≡ false
  unfolding secret_name certificate_authority_fingerprint
  secret_name_blank c ca name h = ground arith

  decoded_cluster-new :
      (name namespace : String) (c : ClusterId) (ca : CertificateAndKey) (expected : ClusterId)
      → c ≢ 0
      → (expected ≡ 0) ⊎ (expected ≡ c)
      → decoded_cluster fingerprint is_dns1123_subdomain uuid
          (new_recovery_secret fingerprint is_dns1123_subdomain uuid name namespace c ca)
          expected
        ≡ ok c
  unfolding decoded_cluster is_recovery_secret lookup_or_empty
  decoded_cluster-new name namespace c ca expected n o =
      rw (parse_cluster_id-print c n, ==_refl (uuid.print c)) (ground arith)

  decoded_material-new :
      (name namespace : String) (c : ClusterId) (ca : CertificateAndKey)
      → secret_name fingerprint is_dns1123_subdomain uuid c (some ca) ≡ ok name
      → is_blank ca.key ≡ false
      → decoded_material fingerprint is_dns1123_subdomain uuid
          (new_recovery_secret fingerprint is_dns1123_subdomain uuid name namespace c ca)
          c
        ≡ ok (record { cluster_id = c; certificate_authority = some ca })
  unfolding decoded_material lookup_or_empty
  decoded_material-new name namespace c ca h k =
      rw (secret_name_blank c ca name h, k, h, ==_refl name) refl

  -- A recovery Secret that is built is read back as the material it was built from, when the
  -- private key is not blank and the reader expects no cluster or the one of the material.
  pub decode-build :
      (namespace : String) (material : Material) (secret : Secret) (expected : ClusterId)
      → build_secret fingerprint is_dns1123_subdomain uuid namespace material ≡ ok secret
      → ((ca : CertificateAndKey)
          → material.certificate_authority ≡ some ca
          → is_blank ca.key ≡ false)
      → (expected ≡ 0) ⊎ (expected ≡ material.cluster_id)
      → decode_secret fingerprint is_dns1123_subdomain uuid (some secret) expected ≡ ok material
  unfolding build_secret decode_secret
  decode-build namespace material secret expected h key o =
      let (_, _, h₁) = >>=-eq-ok (fail_if (is_blank namespace) _) _ h in
      let (ca, complete, h₂) = >>=-eq-ok (complete_authority material.certificate_authority) _ h₁ in
      let (name, named, h₃) =
        >>=-eq-ok
          (secret_name fingerprint is_dns1123_subdomain uuid material.cluster_id
            material.certificate_authority)
          _ h₂ in
      let is_ca = complete_authority-eq material.certificate_authority ca complete in
      let named_ca : secret_name fingerprint is_dns1123_subdomain uuid material.cluster_id (some ca)
          ≡ ok name =
        cc in
      let n = secret_name-nonzero material.cluster_id (some ca) name named_ca in
      let built = ok-injective {E = RecoveryError} h₃ in
      let first = decoded_cluster-new name namespace material.cluster_id ca expected n o in
      let second =
        decoded_material-new name namespace material.cluster_id ca named_ca (key ca is_ca) in
      let same : ◌≡◌ {A = Material}
          (record { cluster_id = material.cluster_id; certificate_authority = some ca }) material =
        ground (arith, is_ca) in
      rw (sym built, first, second) (ap ok same)
