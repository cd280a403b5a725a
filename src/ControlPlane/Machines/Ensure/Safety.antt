-- ===== src/ControlPlane/Machines/Ensure/Safety.antt =====
-- `ensureMachines` of controller/tartcontrolplane/machines.go: it makes only calls that are allowed.
use cluster_api_provider_tar.Base.{
  ℕ, zero, suc, String, ◌+◌, ◌≤◌, ◌<◌, ◌≡◌, refl, sym, ap, subst, Bool, false, not, ◌&&◌, Option,
  none, some, List, arith, ltb, ◌==◌, ◌!=◌, comparable_nat, comparable_text, comparable_list,
  is_some, length, In, ◌≢◌, ◌⊎◌, ◌∙◌, ltb→lt, inl, inr,
}
use cluster_api_provider_tar.Base.Result.{ok, or_fail, ok-injective, Result-cases}
use cluster_api_provider_tar.Api.Machine.{CapiMachine}
use cluster_api_provider_tar.Host.FailureDomains.{FailureDomain}
use cluster_api_provider_tar.ControlPlane.Etcd.{EtcdNames, EtcdAnswers}
use cluster_api_provider_tar.ControlPlane.Etcd.Removal.{failure}
use cluster_api_provider_tar.ControlPlane.Machines.{
  LabelNames, TartControlPlane, control_plane_failure_domain, contains_control_plane_failure_domain,
  validate_control_plane_machine_owners, validate_machine_reference, new_machine,
  control_plane_child_name, bootstrap_config_name,
}
use cluster_api_provider_tar.ControlPlane.Machines.Providers.{
  TartMachineTemplate, TartBootstrapConfigTemplate, EnsureCall, capi_machine_created,
  capi_machine_patched, tart_machine_created, tart_machine_patched, bootstrap_config_created,
  bootstrap_config_patched, scaling, or_api_failure, ProviderAnswers, or_exists,
}
use cluster_api_provider_tar.ControlPlane.Machines.Ensure.{
  MachineAnswers, named, or_empty, with_template_fields, ensure_machine_template_fields,
  create_machine, found_or_created, check_machine, ensure_machine, ensure_from, scale_down,
  ensure_machines,
}
use cluster_api_provider_tar.Base.Calls.{
  Calls, both, after, none_just, after_result, after_stop, if_either, weaken, one_call,
}
use cluster_api_provider_tar.ControlPlane.Machines.Ensure.ProviderCalls.{
  In-map, or_fail-some, or_api_failure-ok, IsProviderCall, ensure_provider_resources-Calls,
}
use cluster_api_provider_tar.ControlPlane.Machines.References.{validate_machine_reference_iff}
use cluster_api_provider_tar.ControlPlane.Machines.Ensure.Allowed.{
  AreOwned, IsServed, IsWanted, IsAllowed,
}
use cluster_api_provider_tar.ControlPlane.Machines.Ensure.Checks.{
  named_uid, named-In, named-none, owners-AreOwned, placed-ServesNamed, given_domain,
}

module _ (names : LabelNames) (digest : List String → String) (cp : TartControlPlane)
    (cluster_name : String) (is_dns1123_subdomain : String → Bool) (providers : ProviderAnswers)
    (machine_template : TartMachineTemplate)
    (bootstrap_template : TartBootstrapConfigTemplate) where
  module _ (etcd_names : EtcdNames) (etcd_answers : EtcdAnswers) (answers : MachineAnswers)
      (domains : List FailureDomain) where
    abbrev Served : List CapiMachine → ℕ → ℕ → CapiMachine → Type 0
    Served by_name desired i m =
        IsServed names digest cp cluster_name is_dns1123_subdomain providers machine_template
          bootstrap_template etcd_names etcd_answers answers domains by_name desired i m

    abbrev Allowed : List CapiMachine → ℕ → EnsureCall → Type 0
    Allowed by_name desired c =
        IsAllowed names digest cp cluster_name is_dns1123_subdomain providers machine_template
          bootstrap_template etcd_names etcd_answers answers domains by_name desired c

    call_for_machine :
        (by_name : List CapiMachine) (desired i : ℕ) (m : CapiMachine)
        → Served by_name desired i m
        → (c : EnsureCall)
        → ((m.uid == "") ≡ false)
          × IsProviderCall names digest cp cluster_name is_dns1123_subdomain providers
              machine_template bootstrap_template i m c
        → Allowed by_name desired c
    call_for_machine by_name desired i m s (tart_machine_created x) p =
        (i, m, s, named_uid m.uid p.0, p.1)
    call_for_machine by_name desired i m s (tart_machine_patched x) p =
        (i, m, s, named_uid m.uid p.0, p.1)
    call_for_machine by_name desired i m s (bootstrap_config_created x) p =
        (i, m, s, named_uid m.uid p.0, p.1)
    call_for_machine by_name desired i m s (bootstrap_config_patched x) p =
        (i, m, s, named_uid m.uid p.0, p.1)
    call_for_machine by_name desired i m s (capi_machine_created x) p = absurd p.1
    call_for_machine by_name desired i m s (capi_machine_patched x) p = absurd p.1
    call_for_machine by_name desired i m s (scaling x) p = absurd p.1

    fields-Calls :
        (by_name : List CapiMachine) (desired i : ℕ) (m : CapiMachine)
        → Served by_name desired i m
        → Calls (Allowed by_name desired) (
            ensure_machine_template_fields names digest is_dns1123_subdomain etcd_names etcd_answers
              providers answers cp cluster_name m)
    unfolding ensure_machine_template_fields
    fields-Calls by_name desired i m s =
        if_either (is_some m.deletion_timestamp) _ _ (λ e. none_just (ok tt))
          (λ e.
            if_either _ _ _ (λ f. none_just (ok tt))
              (λ f.
                one_call (capi_machine_patched (with_template_fields cp m))
                  (answers.patch (with_template_fields cp m)) (i, m, s, e, refl)))

    check_machine-Calls :
        (by_name : List CapiMachine) (desired i : ℕ) (name : String) (m : CapiMachine)
        → i < desired
        → control_plane_child_name is_dns1123_subdomain cp.name i "" ≡ some name
        → (In m by_name × (m.name ≡ name))
          ⊎ (((x : CapiMachine) → In x by_name → x.name ≢ name) × (answers.get name ≡ ok m))
        → Calls (Allowed by_name desired) (
            check_machine names digest is_dns1123_subdomain etcd_names etcd_answers providers
              answers cp cluster_name domains machine_template bootstrap_template i name m)
    unfolding check_machine
    check_machine-Calls by_name desired i name m h k origin =
        after_result
          (or_fail (bootstrap_config_name is_dns1123_subdomain cp.name i)
            (failure "MachineNameInvalid"))
          _
          (λ config e.
            after_result (validate_machine_reference m cp cluster_name name config) _ (λ u f.
              after_stop
                (m.failure_domain != ""
                  && not (contains_control_plane_failure_domain domains m.failure_domain))
                _ _
                (λ g.
                  let s : Served by_name desired i m = record {
                    below = h;
                    machine_name = name;
                    config_name = config;
                    is_named = k;
                    origin = origin;
                    config_named = or_fail-some _ _ e;
                    accepted = (validate_machine_reference_iff m cp cluster_name name config).0 f;
                    placed = placed-ServesNamed domains m.failure_domain g;
                  } in
                  after (fields-Calls by_name desired i m s) (λ w.
                    weaken (call_for_machine by_name desired i m s) (
                      ensure_provider_resources-Calls names digest cp cluster_name
                        is_dns1123_subdomain providers machine_template bootstrap_template i m)))))

    found_or_created-Calls :
        (by_name : List CapiMachine) (desired i : ℕ) (name : String)
        → i < desired
        → control_plane_child_name is_dns1123_subdomain cp.name i "" ≡ some name
        → (ltb 0 (length domains) && not (is_some (control_plane_failure_domain domains i))) ≡ false
        → (o : Option CapiMachine) → named by_name name ≡ o
        → Calls (Allowed by_name desired) (
            found_or_created names digest is_dns1123_subdomain etcd_names etcd_answers providers
              answers cp cluster_name domains machine_template bootstrap_template i
              (or_empty (control_plane_failure_domain domains i))
              name
              o)
    unfolding found_or_created create_machine
    found_or_created-Calls by_name desired i name h k d (some m) u = none_just (ok m)
    found_or_created-Calls by_name desired i name h k d none u =
        after_result
          (or_fail (bootstrap_config_name is_dns1123_subdomain cp.name i)
            (failure "MachineNameInvalid"))
          _
          (λ config e.
            let w : IsWanted names digest cp cluster_name is_dns1123_subdomain providers
                machine_template bootstrap_template etcd_names etcd_answers answers domains by_name
                desired
                (new_machine names cp cluster_name i
                  (or_empty (control_plane_failure_domain domains i)) name config) =
              record {
                i = i;
                below = h;
                machine_name = name;
                config_name = config;
                is_named = k;
                config_named = or_fail-some _ _ e;
                unknown = named-none by_name name u;
                domain = or_empty (control_plane_failure_domain domains i);
                has_domain = given_domain domains i d;
                made = refl;
              } in
            after (one_call (capi_machine_created _) _ w) (λ f. none_just _))

    created-read :
        (i : ℕ) (failure_domain name : String) (m : CapiMachine)
        → (create_machine names digest is_dns1123_subdomain etcd_names etcd_answers providers
            answers cp cluster_name i failure_domain name).result
          ≡ ok m
        → answers.get name ≡ ok m
    unfolding create_machine
    created-read i failure_domain name m h =
        elim (Result-cases (
          or_fail (bootstrap_config_name is_dns1123_subdomain cp.name i)
            (failure "MachineNameInvalid"))) [
              | inr (x, e) ↦ absurd (ground (arith, e, h))
              | inl (config, e) ↦
                  elim (Result-cases (
                    or_exists (
                      answers.create
                        (new_machine names cp cluster_name i failure_domain name config)))) [
                          | inr (x, f) ↦ absurd (ground (arith, e, f, h))
                          | inl (u, f) ↦
                              or_api_failure-ok (answers.get name) m (ground (arith, e, f, h))
                        ]
            ]

    -- Where the machine of a round comes from.
    found-origin :
        (by_name : List CapiMachine) (i : ℕ) (failure_domain name : String) (m : CapiMachine)
        (o : Option CapiMachine)
        → named by_name name ≡ o
        → (found_or_created names digest is_dns1123_subdomain etcd_names etcd_answers providers
            answers cp cluster_name domains machine_template bootstrap_template i failure_domain
            name o).result
          ≡ ok m
        → (In m by_name × (m.name ≡ name))
          ⊎ (((x : CapiMachine) → In x by_name → x.name ≢ name) × (answers.get name ≡ ok m))
    unfolding found_or_created
    found-origin by_name i failure_domain name m (some x) u h =
        inl (named-In by_name name m (u ∙ ap some (ok-injective h)))
    found-origin by_name i failure_domain name m none u h =
        inr (named-none by_name name u, created-read i failure_domain name m h)

    ensure_machine-Calls :
        (by_name : List CapiMachine) (desired i : ℕ)
        → i < desired
        → Calls (Allowed by_name desired) (
            ensure_machine names digest is_dns1123_subdomain etcd_names etcd_answers providers
              answers cp cluster_name domains machine_template bootstrap_template by_name i)
    unfolding ensure_machine
    ensure_machine-Calls by_name desired i h =
        after_stop
          (ltb 0 (length domains) && not (is_some (control_plane_failure_domain domains i))) _ _
          (λ d.
            after_result
              (or_fail (control_plane_child_name is_dns1123_subdomain cp.name i "")
                (failure "MachineNameInvalid"))
              _
              (λ name e.
                both
                  (found_or_created-Calls by_name desired i name h (or_fail-some _ _ e) d
                    (named by_name name) refl)
                  (λ m f. check_machine-Calls by_name desired i name m h (or_fail-some _ _ e) (
                    found-origin by_name i (or_empty (control_plane_failure_domain domains i)) name
                      m (named by_name name) refl f))))

    ensure_from-Calls :
        (by_name : List CapiMachine) (desired m n : ℕ)
        → m + n ≤ desired
        → Calls (Allowed by_name desired) (
            ensure_from names digest is_dns1123_subdomain etcd_names etcd_answers providers answers
              cp cluster_name domains machine_template bootstrap_template by_name m n)
    unfolding ensure_from
    ensure_from-Calls by_name desired m zero h = none_just (ok tt)
    ensure_from-Calls by_name desired m (suc n) h =
        after (ensure_machine-Calls by_name desired m (omega arith))
          (λ e. ensure_from-Calls by_name desired (suc m) n (omega arith))

    scale_down-Calls :
        (by_name : List CapiMachine) (desired : ℕ) (machines : List CapiMachine)
        → answers.list_again ≡ ok machines
        → validate_control_plane_machine_owners machines cp ≡ ok tt
        → Calls (Allowed by_name desired) (
            scale_down names digest is_dns1123_subdomain etcd_names etcd_answers providers answers
              cp cluster_name domains machine_template bootstrap_template desired machines)
    unfolding scale_down
    scale_down-Calls by_name desired machines l v =
        if_either (not (ltb desired (length machines))) _ _ (λ e. none_just _)
          (λ e. record {
            all = λ c j.
                let (x, k, q) = In-map scaling _ c j in
                subst (Allowed by_name desired) (sym q) (
                  machines,
                  l,
                  owners-AreOwned machines cp v,
                  ltb→lt desired (length machines) (ground (arith, e)),
                  k,
                );
          })

    -- Whatever the API server and the nodes answer, a reconciliation that changes something has
    -- listed machines that the control plane owns. It only creates machines of an ordinal that is
    -- wanted whose name was not listed, with a failure domain if there are any; it only writes the
    -- template's fields to a checked machine that is not being deleted, where a checked machine is
    -- one that was listed under the name of its ordinal, or was read after its creation, and has
    -- the owner and the references that it should, and no failure domain or one that serves the
    -- control plane; it only makes the provider objects of a checked machine with a UID, from the templates, and only patches those that were
    -- read and of which that machine is the only owner, as the synchronization with a template
    -- allows; and it only takes steps of a scale-down of machines that it owns and of which more
    -- are listed than are wanted.
    pub ensure_machines-IsAllowed :
        (desired : ℕ) (c : EnsureCall)
        → In c
            (ensure_machines names digest is_dns1123_subdomain etcd_names etcd_answers providers
              answers cp cluster_name domains machine_template bootstrap_template desired).calls
        → (listed : List CapiMachine) × (answers.list ≡ ok listed)
          × AreOwned cp listed
          × IsAllowed names digest cp cluster_name is_dns1123_subdomain providers machine_template
              bootstrap_template etcd_names etcd_answers answers domains listed desired c
    unfolding ensure_machines
    ensure_machines-IsAllowed desired c i = allowed.all c i
      where
        allowed :
            Calls
              (λ d.
                (listed : List CapiMachine) × (answers.list ≡ ok listed)
                × AreOwned cp listed
                × Allowed listed desired d)
              (ensure_machines names digest is_dns1123_subdomain etcd_names etcd_answers providers
                answers cp cluster_name domains machine_template bootstrap_template desired)
        allowed = after_result (or_api_failure answers.list) _ (λ xs e.
            after_result (validate_control_plane_machine_owners xs cp) _ (λ u f.
              weaken (λ d p. (xs, or_api_failure-ok answers.list xs e, owners-AreOwned xs cp f, p))
                (after (ensure_from-Calls xs desired 0 desired (omega arith)) (λ g.
                  after_result (or_api_failure answers.list_again) _ (λ ys h.
                    after_result (validate_control_plane_machine_owners ys cp) _ (λ v k.
                      scale_down-Calls xs desired ys (or_api_failure-ok answers.list_again ys h)
                        k))))))
