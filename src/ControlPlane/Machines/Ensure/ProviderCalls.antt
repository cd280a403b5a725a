-- ===== src/ControlPlane/Machines/Ensure/ProviderCalls.antt =====
-- `ensureProviderResources` of controller/tartcontrolplane/machines.go: the calls that it makes.
use cluster_api_provider_tar.Base.{
  ℕ, String, ◌≡◌, refl, sym, ap, subst, inl, inr, Bool, true, false, Option, none, some, List, [],
  ◌∷◌, map, ◌==◌, comparable_nat, comparable_text, comparable_list, In, arith, eq_iff, not, ◌⊎◌,
}
use cluster_api_provider_tar.Base.Result.{Result, ok, err, or_fail, ok-injective, Result-cases}
use cluster_api_provider_tar.Base.Run.{Run}
use cluster_api_provider_tar.Api.Meta.{
  ApiError, not_found, conflict, already_exists, other_error, OwnerReference, is_true,
}
use cluster_api_provider_tar.Api.Machine.{CapiMachine, TartMachine}
use cluster_api_provider_tar.ControlPlane.Etcd.Removal.{ControlPlaneError, failure}
use cluster_api_provider_tar.ControlPlane.Machines.{
  LabelNames, TartControlPlane, bootstrap_config_name,
}
use cluster_api_provider_tar.ControlPlane.Machines.TemplateSync.{TartBootstrapConfig}
use cluster_api_provider_tar.ControlPlane.Machines.Providers.{
  TartMachineTemplate, TartBootstrapConfigTemplate, EnsureCall, capi_machine_created,
  capi_machine_patched, tart_machine_created, tart_machine_patched, bootstrap_config_created,
  bootstrap_config_patched, scaling, lift_calls, or_api_failure, or_exists, ProviderAnswers,
  ensure_provider_resources, ensure_tart_machine, ensure_bootstrap_config, get_or_create,
  new_tart_machine, new_bootstrap_config, owned_or_failure, machine_owner, same_selector,
}
use cluster_api_provider_tar.Base.Calls.{
  Calls, both, after, none_just, after_result, after_stop, weaken, one_call,
}
use cluster_api_provider_tar.Controller.Ownership.{
  Owner, validate_provider_owner, validate_provider_owner_iff,
}
use cluster_api_provider_tar.ControlPlane.Machines.TemplateSync.Settled.{
  IsMachineWrite, IsBootstrapWrite, sync_machine_template-IsMachineWrite,
  sync_bootstrap_template-IsBootstrapWrite,
}

pub In-map :
    {C : Type 0} (f : C → EnsureCall) (xs : List C) (c : EnsureCall)
    → In c (map f xs)
    → (x : C) × In x xs × (c ≡ f x)
In-map f [] c i = absurd i
In-map f (x ∷ xs) c (inl e) = (x, inl refl, e)
In-map f (x ∷ xs) c (inr i) = let (y, j, e) = In-map f xs c i in (y, inr j, e)

pub or_fail-some : {E A : Type 0} (o : Option A) (e : E) {a : A} → or_fail o e ≡ ok a → o ≡ some a
or_fail-some none e h = absurd cc
or_fail-some (some b) e h = ap some (ok-injective h)

get_or_create-Calls :
    {A : Type 0} {P : EnsureCall → Type 0} (created : A → EnsureCall) (expected : A)
    (first : Result ApiError A) (answer : Result ApiError (Unit {0})) (again : Result ApiError A)
    → P (created expected)
    → Calls P (get_or_create created expected first answer again)
unfolding get_or_create
get_or_create-Calls created expected (ok a) answer again p = none_just (ok a)
get_or_create-Calls created expected (err not_found) answer again p =
    both (one_call (created expected) (or_exists answer) p)
      (λ a e. none_just (or_api_failure again))
get_or_create-Calls created expected (err conflict) answer again p = none_just _
get_or_create-Calls created expected (err already_exists) answer again p = none_just _
get_or_create-Calls created expected (err (other_error e)) answer again p = none_just _

-- What the server answered for an object, at once or after its creation.
abbrev pub IsFetched : {A : Type 0} → Result ApiError A → Result ApiError A → A → Type 0
IsFetched first again a = (first ≡ ok a) ⊎ ((first ≡ err not_found) × (again ≡ ok a))

pub or_api_failure-ok :
    {A : Type 0} (r : Result ApiError A) (a : A) → or_api_failure r ≡ ok a → r ≡ ok a
or_api_failure-ok (ok x) a h = ap ok (ok-injective h)
or_api_failure-ok (err e) a h = absurd cc

get_or_create-IsFetched :
    {A : Type 0} (created : A → EnsureCall) (expected : A) (first : Result ApiError A)
    (answer : Result ApiError (Unit {0})) (again : Result ApiError A) (a : A)
    → (get_or_create created expected first answer again).result ≡ ok a
    → IsFetched first again a
unfolding get_or_create
get_or_create-IsFetched created expected (ok x) answer again a h = inl (ap ok (ok-injective h))
get_or_create-IsFetched created expected (err not_found) answer again a h =
    elim (Result-cases (or_exists answer)) [
      | inl (u, e) ↦ inr (refl, or_api_failure-ok again a (ground (arith, e, h)))
      | inr (x, e) ↦ absurd (ground (arith, e, h))
    ]
get_or_create-IsFetched created expected (err conflict) answer again a h = absurd cc
get_or_create-IsFetched created expected (err already_exists) answer again a h = absurd cc
get_or_create-IsFetched created expected (err (other_error e)) answer again a h = absurd cc

-- The owner is the only one that is referred to, and as the controller.
abbrev pub IsOnlyOwner : Owner → List OwnerReference → Type 0
IsOnlyOwner owner references =
    (r : OwnerReference) × (references ≡ r ∷ [])
    × (r.api_version ≡ owner.api_version)
    × (r.kind ≡ owner.kind)
    × (r.name ≡ owner.name)
    × (r.uid ≡ owner.uid)
    × (is_true r.controller ≡ true)

owned-IsOnlyOwner :
    (references : List OwnerReference) (owner : Owner)
    → owned_or_failure (validate_provider_owner references owner) ≡ ok tt
    → IsOnlyOwner owner references
owned-IsOnlyOwner references owner h =
    elim (Result-cases (validate_provider_owner references owner)) [
      | inr (x, e) ↦ absurd (ground (arith, e, h))
      | inl (tt, e) ↦
          let (r, p, q) = (validate_provider_owner_iff references owner).0 e in
          (
            r,
            p,
            ground (arith, q, eq_iff r.api_version owner.api_version),
            ground (arith, q, eq_iff r.kind owner.kind),
            ground (arith, q, eq_iff r.name owner.name),
            ground (arith, q, eq_iff r.uid owner.uid),
            ground (arith, q),
          )
    ]

pub lift_calls-Calls :
    {C A : Type 0} {P : EnsureCall → Type 0} (f : C → EnsureCall) (r : Run C ControlPlaneError A)
    → ((c : C) → In c r.calls → P (f c))
    → Calls P (lift_calls f r)
lift_calls-Calls {P = P} f r p = record {
  all = λ c i. let (x, j, e) = In-map f r.calls c i in subst P (sym e) (p x j);
}

module _ (names : LabelNames) (digest : List String → String) (cp : TartControlPlane)
    (cluster_name : String) (is_dns1123_subdomain : String → Bool) (providers : ProviderAnswers)
    (machine_template : TartMachineTemplate)
    (bootstrap_template : TartBootstrapConfigTemplate) where
  -- A call of a round on the objects of the provider.
  abbrev pub IsProviderCall : ℕ → CapiMachine → EnsureCall → Type 0
  IsProviderCall i m (tart_machine_created t) =
      t ≡ new_tart_machine names digest cp cluster_name i m machine_template
  IsProviderCall i m (bootstrap_config_created b) =
      (name : String) × (bootstrap_config_name is_dns1123_subdomain cp.name i ≡ some name)
      × (b ≡ new_bootstrap_config names digest cp cluster_name i m name bootstrap_template)
  IsProviderCall i m (tart_machine_patched t) =
      (current : TartMachine) × IsFetched (providers.get_machine m.name)
        (providers.get_created_machine m.name) current
      × IsOnlyOwner (machine_owner names m) current.owner_references
      × (same_selector current.spec.host_selector machine_template.host_selector ≡ true)
      × IsMachineWrite digest current
          (new_tart_machine names digest cp cluster_name i m machine_template) t
  IsProviderCall i m (bootstrap_config_patched b) =
      (name : String) × (current : TartBootstrapConfig) × (bootstrap_config_name
          is_dns1123_subdomain cp.name i
        ≡ some name)
      × IsFetched (providers.get_config name) (providers.get_created_config name) current
      × IsOnlyOwner (machine_owner names m) current.owner_references
      × IsBootstrapWrite digest current
          (new_bootstrap_config names digest cp cluster_name i m name bootstrap_template) b
  IsProviderCall i m (capi_machine_created x) = ⊥
  IsProviderCall i m (capi_machine_patched x) = ⊥
  IsProviderCall i m (scaling c) = ⊥

  ensure_tart_machine-Calls :
      (i : ℕ) (m : CapiMachine)
      → Calls (IsProviderCall i m) (
          ensure_tart_machine names digest cp cluster_name is_dns1123_subdomain providers i m
            machine_template)
  unfolding ensure_tart_machine new_tart_machine
  ensure_tart_machine-Calls i m = both (get_or_create-Calls _ _ _ _ _ refl) (λ current e.
      after_result
        (owned_or_failure
          (validate_provider_owner current.owner_references (machine_owner names m)))
        _
        (λ u f.
          after_stop (not (same_selector current.spec.host_selector machine_template.host_selector))
            _ _
            (λ g. lift_calls-Calls tart_machine_patched _ (λ t j. (
              current,
              get_or_create-IsFetched tart_machine_created _ _ _ _ current e,
              owned-IsOnlyOwner current.owner_references (machine_owner names m) f,
              ground (arith, g),
              sync_machine_template-IsMachineWrite digest providers.patch_machine current _ t j,
            )))))

  created_config-Calls :
      (i : ℕ) (m : CapiMachine) (e : ControlPlaneError) (name : String)
      (first again : Result ApiError TartBootstrapConfig) (answer : Result ApiError (Unit {0}))
      → or_fail (bootstrap_config_name is_dns1123_subdomain cp.name i) e ≡ ok name
      → Calls (IsProviderCall i m) (
          get_or_create bootstrap_config_created
            (new_bootstrap_config names digest cp cluster_name i m name bootstrap_template)
            first
            answer
            again)
  created_config-Calls i m e name first again answer h =
      get_or_create-Calls bootstrap_config_created _ first answer again
        (name, or_fail-some (bootstrap_config_name is_dns1123_subdomain cp.name i) e h, refl)

  ensure_bootstrap_config-Calls :
      (i : ℕ) (m : CapiMachine)
      → Calls (IsProviderCall i m) (
          ensure_bootstrap_config names digest cp cluster_name is_dns1123_subdomain providers i m
            bootstrap_template)
  unfolding ensure_bootstrap_config
  ensure_bootstrap_config-Calls i m =
      after_result
        (or_fail (bootstrap_config_name is_dns1123_subdomain cp.name i)
          (failure "MachineNameInvalid"))
        _
        (λ name n.
          both
            (created_config-Calls i m (failure "MachineNameInvalid") name
              (providers.get_config name) (providers.get_created_config name)
              (providers.create_config
                (new_bootstrap_config names digest cp cluster_name i m name bootstrap_template))
              n)
            (λ current e.
              after_result
                (owned_or_failure
                  (validate_provider_owner current.owner_references (machine_owner names m)))
                _
                (λ u f. lift_calls-Calls bootstrap_config_patched _ (λ t j. (
                  name,
                  current,
                  or_fail-some _ _ n,
                  get_or_create-IsFetched bootstrap_config_created _ _ _ _ current e,
                  owned-IsOnlyOwner current.owner_references (machine_owner names m) f,
                  sync_bootstrap_template-IsBootstrapWrite digest providers.patch_config current _ t
                      j,
                )))))

  pub ensure_provider_resources-Calls :
      (i : ℕ) (m : CapiMachine)
      → Calls
          (λ c. ((m.uid == "") ≡ false) × IsProviderCall i m c)
          (ensure_provider_resources names digest cp cluster_name is_dns1123_subdomain providers i m
            machine_template bootstrap_template)
  unfolding ensure_provider_resources
  ensure_provider_resources-Calls i m = after_stop (m.uid == "") _ _ (λ h.
      weaken (λ c p. (h, p))
        (after (ensure_tart_machine-Calls i m) (λ e. ensure_bootstrap_config-Calls i m)))
