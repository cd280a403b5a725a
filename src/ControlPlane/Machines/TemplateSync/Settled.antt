-- ===== src/ControlPlane/Machines/TemplateSync/Settled.antt =====
-- controller/tartcontrolplane/machines.go: the synchronization with a template keeps what somebody
-- else changed, and is over after one patch.
use cluster_api_provider_tar.Base.{
  String, ◌≡◌, ◌≢◌, ◌⊎◌, List, [], ◌∷◌, arith, eq_iff, comparable_nat, comparable_text,
  comparable_list, ==_refl, In,
}
use cluster_api_provider_tar.Base.Result.{Result, ok}
use cluster_api_provider_tar.Base.Run.{just}
use cluster_api_provider_tar.Api.Meta.{StringMap, lookup_or_empty, put_key}
use cluster_api_provider_tar.Api.Maps.{lookup_or_empty-put_key, lookup_or_empty-put_key_other}
use cluster_api_provider_tar.Api.Machine.{TartMachine}
use cluster_api_provider_tar.ControlPlane.Etcd.Removal.{ControlPlaneError}
use cluster_api_provider_tar.ControlPlane.Machines.TemplateSync.{
  TartBootstrapConfig, machine_digest_key, bootstrap_digest_key, machine_image_digest,
  bootstrap_config_template_digest, sync_machine_template, sync_bootstrap_template,
}

-- What the object is after the patches that were sent, where they are all carried out.
abbrev pub stored : {A : Type 0} → A → List A → A
stored a [] = a
stored a (b ∷ bs) = stored b bs

-- Annotations that differ in one key only, which has that value.
pub record IsAnnotated (key value : String) (before after : StringMap) : Type 0 where
  pub has_value : lookup_or_empty after key ≡ value
  pub others : (k : String) → k ≢ key → lookup_or_empty after k ≡ lookup_or_empty before k

-- A patch of a TartMachine records the template's digest and changes nothing else of an object that
-- agrees with the template; of one that is as it was last written, it changes the image too.
abbrev pub IsMachineWrite :
    (List String → String) → TartMachine → TartMachine → TartMachine → Type 0
IsMachineWrite digest current expected sent =
    IsAnnotated machine_digest_key (machine_image_digest digest expected.spec.image)
      current.annotations sent.annotations
    × (((sent ≡ record current { annotations = sent.annotations })
          × (machine_image_digest digest current.spec.image
              ≡ machine_image_digest digest expected.spec.image))
        ⊎ ((lookup_or_empty current.annotations machine_digest_key
              ≡ machine_image_digest digest current.spec.image)
            × (sent ≡ record current {
              annotations = sent.annotations;
              spec = record current.spec { image = expected.spec.image };
            })))

-- The same for a TartBootstrapConfig, whose whole spec is replaced.
abbrev pub IsBootstrapWrite :
    (List String → String)
    → TartBootstrapConfig
    → TartBootstrapConfig
    → TartBootstrapConfig
    → Type 0
IsBootstrapWrite digest current expected sent =
    IsAnnotated bootstrap_digest_key (bootstrap_config_template_digest digest expected.spec)
      current.annotations sent.annotations
    × (((sent ≡ record current { annotations = sent.annotations })
          × (bootstrap_config_template_digest digest current.spec
              ≡ bootstrap_config_template_digest digest expected.spec))
        ⊎ ((lookup_or_empty current.annotations bootstrap_digest_key
              ≡ bootstrap_config_template_digest digest current.spec)
            × (sent ≡ record current { annotations = sent.annotations; spec = expected.spec })))

put_key-IsAnnotated : (m : StringMap) (k v : String) → IsAnnotated k v m (put_key m k v)
put_key-IsAnnotated m k v = record {
  has_value = lookup_or_empty-put_key m k v;
  others = λ j d. lookup_or_empty-put_key_other m j k v (ground (arith, d, eq_iff k j));
}

module _ (digest : List String → String) where
  -- Every patch that the synchronization of a TartMachine sends records the template's digest in
  -- its annotation; it changes nothing else but the image, and that only if the digest of the
  -- image in the object is the one that was applied last, so that an image which somebody else set
  -- stays.
  pub sync_machine_template-IsMachineWrite :
      (answer : TartMachine → Result ControlPlaneError (Unit {0}))
      (current expected sent : TartMachine)
      → In sent (sync_machine_template digest answer current expected).calls
      → IsMachineWrite digest current expected sent
  unfolding sync_machine_template
  sync_machine_template-IsMachineWrite answer current expected sent m = ground (
    arith,
    m,
    put_key-IsAnnotated current.annotations machine_digest_key
        (machine_image_digest digest expected.spec.image),
    eq_iff (lookup_or_empty current.annotations machine_digest_key) "",
    eq_iff (machine_image_digest digest current.spec.image)
        (machine_image_digest digest expected.spec.image),
    eq_iff (machine_image_digest digest current.spec.image)
        (lookup_or_empty current.annotations machine_digest_key),
  )

  -- After a synchronization without an error whose patch is carried out, with a template that has
  -- a digest, the next one sends nothing and has no error.
  pub sync_machine_template_settled :
      (answer : TartMachine → Result ControlPlaneError (Unit {0})) (current expected : TartMachine)
      → machine_image_digest digest expected.spec.image ≢ ""
      → (sync_machine_template digest answer current expected).result ≡ ok tt
      → sync_machine_template digest answer
          (stored current (sync_machine_template digest answer current expected).calls)
          expected
        ≡ just (ok tt)
  unfolding sync_machine_template
  sync_machine_template_settled answer current expected n h = ground (
    arith,
    n,
    h,
    lookup_or_empty-put_key current.annotations machine_digest_key
        (machine_image_digest digest expected.spec.image),
    eq_iff (lookup_or_empty current.annotations machine_digest_key) "",
    eq_iff (machine_image_digest digest expected.spec.image) "",
    eq_iff (machine_image_digest digest current.spec.image)
        (machine_image_digest digest expected.spec.image),
    eq_iff (machine_image_digest digest current.spec.image)
        (lookup_or_empty current.annotations machine_digest_key),
    ==_refl (machine_image_digest digest expected.spec.image),
  )

  -- Every patch that the synchronization of a TartBootstrapConfig sends records the template's
  -- digest in its annotation; it changes nothing else but the spec, and that only if the digest of the object's is the one that was applied
  -- last, so that a spec which somebody else set stays.
  pub sync_bootstrap_template-IsBootstrapWrite :
      (answer : TartBootstrapConfig → Result ControlPlaneError (Unit {0}))
      (current expected sent : TartBootstrapConfig)
      → In sent (sync_bootstrap_template digest answer current expected).calls
      → IsBootstrapWrite digest current expected sent
  unfolding sync_bootstrap_template
  sync_bootstrap_template-IsBootstrapWrite answer current expected sent m = ground (
    arith,
    m,
    put_key-IsAnnotated current.annotations bootstrap_digest_key
        (bootstrap_config_template_digest digest expected.spec),
    eq_iff (lookup_or_empty current.annotations bootstrap_digest_key) "",
    eq_iff (bootstrap_config_template_digest digest current.spec)
        (bootstrap_config_template_digest digest expected.spec),
    eq_iff (bootstrap_config_template_digest digest current.spec)
        (lookup_or_empty current.annotations bootstrap_digest_key),
  )

  -- After a synchronization without an error whose patch is carried out, with a template that has
  -- a digest, the next one sends nothing and has no error.
  pub sync_bootstrap_template_settled :
      (answer : TartBootstrapConfig → Result ControlPlaneError (Unit {0}))
      (current expected : TartBootstrapConfig)
      → bootstrap_config_template_digest digest expected.spec ≢ ""
      → (sync_bootstrap_template digest answer current expected).result ≡ ok tt
      → sync_bootstrap_template digest answer
          (stored current (sync_bootstrap_template digest answer current expected).calls)
          expected
        ≡ just (ok tt)
  unfolding sync_bootstrap_template
  sync_bootstrap_template_settled answer current expected n h = ground (
    arith,
    n,
    h,
    lookup_or_empty-put_key current.annotations bootstrap_digest_key
        (bootstrap_config_template_digest digest expected.spec),
    eq_iff (lookup_or_empty current.annotations bootstrap_digest_key) "",
    eq_iff (bootstrap_config_template_digest digest expected.spec) "",
    eq_iff (bootstrap_config_template_digest digest current.spec)
        (bootstrap_config_template_digest digest expected.spec),
    eq_iff (bootstrap_config_template_digest digest current.spec)
        (lookup_or_empty current.annotations bootstrap_digest_key),
    ==_refl (bootstrap_config_template_digest digest expected.spec),
  )
