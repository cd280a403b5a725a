-- ===== src/ControlPlane/Bundle/Contract.antt =====
-- The contract of bundle Secrets and the Secrets that are built.
use cluster_api_provider_tar.Base.{
  ℕ, String, ◌+◌, ◌≤◌, ◌<◌, ◌≡◌, sym, ap, subst, ◌∙◌, ◌⊎◌, inl, inr, Bool, false, some, [], ◌∷◌,
  arith, eq_iff, ◌==◌, comparable_nat, comparable_text, comparable_list, ==_refl,
}
use cluster_api_provider_tar.Base.Int.{ℤ, pos, negsuc}
use cluster_api_provider_tar.Base.Format.{format_int}
use cluster_api_provider_tar.Base.Result.{ok, err, Result-cases, >>=-eq-ok, ok-injective}
use cluster_api_provider_tar.Api.Meta.{ClusterId, StringMap, OwnerReference, lookup_or_empty}
use cluster_api_provider_tar.Api.Secret.{Secret}
use cluster_api_provider_tar.ControlPlane.Bundle.{
  invalid_bundle_generation, max_int32, next_generation, clone_complete_entries,
  clone_complete_data, bundle_name, validate_owner, validate_bundle_secret,
  validate_bundle_secret_contract, build_bundle_secret, bundle_state_pending, bundle_state_active,
  infra_group_version, new_bundle_secret, check_buildable, check_form, check_labels, check_state,
  check_namespace,
}

-- The next generation of a 32-bit number that is not negative is one more, and there is none for the
-- largest one.
pub next_generation_lem :
    (current : ℕ)
    → current ≤ max_int32
    → ((current < max_int32) × (next_generation (pos current) ≡ ok (pos (current + 1))))
      ⊎ ((current ≡ max_int32) × (next_generation (pos current) ≡ err invalid_bundle_generation))
unfolding next_generation
next_generation_lem current h = ground arith

-- There is none for a negative number.
next_generation_negative : (n : ℕ) → next_generation (negsuc n) ≡ err invalid_bundle_generation
unfolding next_generation
next_generation_negative n = ground arith

-- A copy of complete entries is the entries themselves.
clone_complete_entries-eq :
    (entries copied : StringMap) → clone_complete_entries entries ≡ ok copied → copied ≡ entries
unfolding clone_complete_entries
clone_complete_entries-eq [] copied h = ground arith
clone_complete_entries-eq ((key, value) ∷ entries) copied h =
    elim (Result-cases (clone_complete_entries entries)) [
      | inl (rest, e) ↦ ground (arith, clone_complete_entries-eq entries rest e)
      | inr (x, e) ↦ absurd (ground arith)
    ]

pub clone_complete_data-eq :
    (entries copied : StringMap) → clone_complete_data entries ≡ ok copied → copied ≡ entries
unfolding clone_complete_data
clone_complete_data-eq [] copied h = absurd (ground arith)
clone_complete_data-eq (entry ∷ entries) copied h =
    clone_complete_entries-eq (entry ∷ entries) copied h

-- What the tests on the state and the owner let through.
record IsBuildable (namespace cluster_name state : String) (owner : OwnerReference) : Type 0 where
  has_state : (state ≡ bundle_state_pending) ⊎ (state ≡ bundle_state_active)
  in_namespace : (namespace == "") ≡ false
  owned : (owner.uid == "") ≡ false
  owner_version : owner.api_version ≡ infra_group_version
  owner_kind : owner.kind ≡ "TartCluster"
  owner_name : owner.name ≡ cluster_name

check_buildable-IsBuildable :
    (namespace cluster_name state : String) (owner : OwnerReference)
    → check_buildable namespace cluster_name state owner ≡ ok tt
    → IsBuildable namespace cluster_name state owner
unfolding check_buildable
check_buildable-IsBuildable namespace cluster_name state owner h = record {
  has_state = ground (arith, eq_iff state bundle_state_pending, eq_iff state bundle_state_active);
  in_namespace = ground arith;
  owned = ground arith;
  owner_version = ground (arith, eq_iff owner.api_version infra_group_version);
  owner_kind = ground (arith, eq_iff owner.kind "TartCluster");
  owner_name = ground (arith, eq_iff owner.name cluster_name);
}

module _ (is_dns1123_subdomain : String → Bool) (print : ClusterId → String) where
  -- What has to hold for a bundle to be built, and what is built.
  record IsBuilt (namespace cluster_name : String) (cluster_id : ClusterId) (generation : ℤ)
      (state : String) (owner : OwnerReference) (entries : StringMap) (secret : Secret)
      : Type 0 where
    name : String
    named : bundle_name is_dns1123_subdomain print cluster_name cluster_id generation ≡ ok name
    complete : clone_complete_data entries ≡ ok entries
    buildable : check_buildable namespace cluster_name state owner ≡ ok tt
    content :
        secret
        ≡ new_bundle_secret is_dns1123_subdomain print name namespace cluster_name cluster_id
            generation state owner entries

  build-IsBuilt :
      (namespace cluster_name : String) (cluster_id : ClusterId) (generation : ℤ) (state : String)
      (owner : OwnerReference) (entries : StringMap) (secret : Secret)
      → build_bundle_secret is_dns1123_subdomain print namespace cluster_name cluster_id generation
          state owner entries
        ≡ ok secret
      → IsBuilt namespace cluster_name cluster_id generation state owner entries secret
  unfolding build_bundle_secret
  build-IsBuilt namespace cluster_name cluster_id generation state owner entries secret h =
      let (name, named, h₁) =
        >>=-eq-ok (bundle_name is_dns1123_subdomain print cluster_name cluster_id generation) _ h in
      let (_, buildable, h₂) =
        >>=-eq-ok (check_buildable namespace cluster_name state owner) _ h₁ in
      let (copied, c, h₃) = >>=-eq-ok (clone_complete_data entries) _ h₂ in
      let same : copied ≡ entries = clone_complete_data-eq entries copied c in
      record {
        name = name;
        named = named;
        complete = c ∙ ap ok same;
        buildable = buildable;
        content =
            sym (ok-injective h₃)
            ∙ ap
                (λ x.
                  new_bundle_secret is_dns1123_subdomain print name namespace cluster_name
                    cluster_id generation state owner x)
                same;
      }

  -- The tests on a Secret, on the one that is built.
  check_namespace-new :
      (name namespace cluster_name : String) (cluster_id : ClusterId) (generation : ℤ)
      (state : String) (owner : OwnerReference) (entries : StringMap)
      → (namespace == "") ≡ false
      → check_namespace
          (new_bundle_secret is_dns1123_subdomain print name namespace cluster_name cluster_id
            generation state owner entries)
          namespace
        ≡ ok tt
  unfolding check_namespace
  check_namespace-new name namespace cluster_name cluster_id generation state owner entries h =
      ground (arith, ==_refl namespace)

  check_form-new :
      (name namespace cluster_name : String) (cluster_id : ClusterId) (generation : ℤ)
      (state : String) (owner : OwnerReference) (entries : StringMap)
      → check_form
          (new_bundle_secret is_dns1123_subdomain print name namespace cluster_name cluster_id
            generation state owner entries)
          name
        ≡ ok tt
  unfolding check_form
  check_form-new name namespace cluster_name cluster_id generation state owner entries =
      ground (arith, ==_refl name)

  check_labels-new :
      (name namespace cluster_name : String) (cluster_id : ClusterId) (generation : ℤ)
      (state : String) (owner : OwnerReference) (entries : StringMap)
      → check_labels is_dns1123_subdomain print
          (new_bundle_secret is_dns1123_subdomain print name namespace cluster_name cluster_id
            generation state owner entries)
          cluster_name
          cluster_id
          generation
          state
        ≡ ok tt
  unfolding check_labels lookup_or_empty
  check_labels-new name namespace cluster_name cluster_id generation state owner entries = ground (
    arith,
    ==_refl cluster_name,
    ==_refl (print cluster_id),
    ==_refl (format_int generation),
    ==_refl state,
  )

  check_state-buildable :
      (state : String)
      → (state ≡ bundle_state_pending) ⊎ (state ≡ bundle_state_active)
      → check_state state ≡ ok tt
  unfolding check_state
  check_state-buildable state h =
      ground (arith, eq_iff state bundle_state_pending, eq_iff state bundle_state_active)

  validate_owner-new :
      (name namespace cluster_name : String) (cluster_id : ClusterId) (generation : ℤ)
      (state : String) (owner : OwnerReference) (entries : StringMap) (owner_uid : String)
      → IsBuildable namespace cluster_name state owner
      → (owner_uid ≡ "") ⊎ (owner_uid ≡ owner.uid)
      → validate_owner is_dns1123_subdomain print
          (new_bundle_secret is_dns1123_subdomain print name namespace cluster_name cluster_id
            generation state owner entries).owner_references
          cluster_name
          owner_uid
        ≡ ok tt
  unfolding validate_owner
  validate_owner-new name namespace cluster_name cluster_id generation state owner entries owner_uid
        v o =
      ground (
        arith,
        v.owned,
        v.owner_version,
        v.owner_kind,
        v.owner_name,
        eq_iff owner.api_version infra_group_version,
        eq_iff owner.kind "TartCluster",
        eq_iff owner.name cluster_name,
        eq_iff owner_uid "",
        eq_iff owner.uid owner_uid,
      )

  validate-new :
      (name namespace cluster_name : String) (cluster_id : ClusterId) (generation : ℤ)
      (state : String) (owner : OwnerReference) (entries : StringMap) (owner_uid : String)
      → bundle_name is_dns1123_subdomain print cluster_name cluster_id generation ≡ ok name
      → clone_complete_data entries ≡ ok entries
      → IsBuildable namespace cluster_name state owner
      → (owner_uid ≡ "") ⊎ (owner_uid ≡ owner.uid)
      → validate_bundle_secret is_dns1123_subdomain print
          (new_bundle_secret is_dns1123_subdomain print name namespace cluster_name cluster_id
            generation state owner entries)
          namespace
          cluster_name
          cluster_id
          generation
          state
          owner_uid
        ≡ ok tt
  unfolding validate_bundle_secret
  validate-new name namespace cluster_name cluster_id generation state owner entries owner_uid named
        complete v o =
      rw
        (
          check_namespace-new name namespace cluster_name cluster_id generation state owner entries
              v.in_namespace,
          named,
          check_form-new name namespace cluster_name cluster_id generation state owner entries,
          check_labels-new name namespace cluster_name cluster_id generation state owner entries,
          check_state-buildable state v.has_state,
          complete,
        )
        (validate_owner-new name namespace cluster_name cluster_id generation state owner entries
          owner_uid v o)

  -- A bundle that is built as Pending or Active passes the contract for the same cluster,
  -- generation and state, whether or not its owner's identifier is asked for.
  pub validate-build :
      (namespace cluster_name : String) (cluster_id : ClusterId) (generation : ℤ) (state : String)
      (owner : OwnerReference) (entries : StringMap) (secret : Secret) (owner_uid : String)
      → build_bundle_secret is_dns1123_subdomain print namespace cluster_name cluster_id generation
          state owner entries
        ≡ ok secret
      → (owner_uid ≡ "") ⊎ (owner_uid ≡ owner.uid)
      → validate_bundle_secret_contract is_dns1123_subdomain print
          (some secret)
          namespace
          cluster_name
          cluster_id
          generation
          state
          owner_uid
        ≡ ok tt
  unfolding validate_bundle_secret_contract build_bundle_secret
  validate-build namespace cluster_name cluster_id generation state owner entries secret owner_uid h
        o =
      let b =
        build-IsBuilt namespace cluster_name cluster_id generation state owner entries secret h in
      let v = check_buildable-IsBuildable namespace cluster_name state owner b.buildable in
      subst
        (λ x.
          validate_bundle_secret_contract is_dns1123_subdomain print (some x) namespace cluster_name
            cluster_id generation state owner_uid
          ≡ ok tt)
        (sym b.content)
        (validate-new b.name namespace cluster_name cluster_id generation state owner entries
          owner_uid b.named b.complete v o)
