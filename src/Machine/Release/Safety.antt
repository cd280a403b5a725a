-- ===== src/Machine/Release/Safety.antt =====
-- When the deletion of a machine may end.
use cluster_api_provider_tar.Repository.TartHostRepository.{retain_host}
use cluster_api_provider_tar.Machine.Release.Lookup.{find_allocated_host-In}
use cluster_api_provider_tar.Repository.TartHostRepository.Retention.{Retained, retain_host_safe}
use cluster_api_provider_tar.Repository.Server.{ApiServer}
use cluster_api_provider_tar.Base.{
  ℕ, ◌+◌, ◌≤◌, String, ◌≡◌, refl, sym, ap, ◌∙◌, inl, inr, true, not, Option, none, some, List,
  arith, ◌==◌, comparable_nat, comparable_text, comparable_list, any, In,
}
use cluster_api_provider_tar.Base.Result.{
  Result, ok, err, >>=-eq-ok, ok-injective, fail_if, Result-cases, fail_if-false,
}
use cluster_api_provider_tar.Api.Host.{TartHost, PreviousConsumerRef}
use cluster_api_provider_tar.Api.Meta.{cluster_id_is_zero, Condition, find_status_condition}
use cluster_api_provider_tar.Api.Machine.{TartMachine, CapiMachine}
use cluster_api_provider_tar.Machine.Deletion.{
  CapiNames, deletion_drain_complete, has_shutdown_request, shutdown_request_settled,
  ready_condition, shutdown_requested_reason,
}
use cluster_api_provider_tar.Machine.Deletion.Stages.{
  IsDrained, deletion_drain_complete_iff, shutdown_request_settled_iff,
}
use cluster_api_provider_tar.Machine.Stop.{observe_host_stopped}
use cluster_api_provider_tar.Machine.Release.{
  configuration_text, machine_finalizer, Readings, previous_consumer_ref, cluster_id_by,
  release_record, drained_host, find_allocated_host, shutdown_confirmation_delay, or_report,
  Reconciled, releasing, retained_then, finalizer_removed, consumer_of, Early, reconcile_deletion,
  after_drain,
}

or_report-eq :
    {E A : Type 0} (r : Result E A) (reason : String) (a : A) → or_report r reason ≡ ok a → r ≡ ok a
or_report-eq (ok x) reason a h = ap ok (ok-injective {E = Early} h)
or_report-eq (err e) reason a h = cc

-- A host that may be released: its shutdown is on record in the Ready condition of the machine, the
-- last transition of which lies the wait back, and it was observed to be stopped.
pub record IsReleasable (readings : Readings) (machine : TartMachine) (selected : TartHost)
    (previous : PreviousConsumerRef) : Type 0 where
  pub configuration : String
  pub requested : has_shutdown_request (some machine) ≡ true
  pub settled :
      shutdown_request_settled (some machine) shutdown_confirmation_delay readings.now ≡ true
  pub on_record :
      (c : Condition) × (t : ℕ) × (find_status_condition machine.status.conditions ready_condition
        ≡ some c)
      × (c.reason ≡ shutdown_requested_reason)
      × (c.last_transition_time ≡ some t)
      × (t + shutdown_confirmation_delay ≤ readings.now)
  pub stopped : observe_host_stopped readings.probe selected machine configuration ≡ ok true
  pub recorded : previous.uid ≡ machine.uid

previous_consumer_ref-uid :
    (readings : Readings) (machine : TartMachine) (previous : PreviousConsumerRef)
    → previous_consumer_ref readings machine ≡ ok previous
    → previous.uid ≡ machine.uid
unfolding previous_consumer_ref
previous_consumer_ref-uid readings machine previous h =
    let (c, _, h₁) = >>=-eq-ok readings.capi_machine_of_consumer _ h in
    let (cluster, _, h₂) = >>=-eq-ok readings.cluster _ h₁ in
    let (cluster_id, _, h₃) =
      >>=-eq-ok (cluster_id_by cluster.infrastructure_ref readings.tart_cluster_id) _ h₂ in
    let (_, _, h₄) =
      >>=-eq-ok (fail_if (cluster_id_is_zero cluster_id) "ClusterID is empty") _ h₃ in
    sym (ap (λ p. p.uid) (ok-injective {E = String} h₄))

release_record-IsReleasable :
    (names : CapiNames) (readings : Readings) (machine : TartMachine) (selected : TartHost)
    (previous : PreviousConsumerRef)
    → release_record names readings machine selected ≡ ok previous
    → IsReleasable readings machine selected previous
unfolding release_record
release_record-IsReleasable names readings machine selected previous h =
    let (configuration, _, h₁) = >>=-eq-ok (configuration_text readings.configuration) _ h in
    let (u, asked_for, h₂) =
      >>=-eq-ok (fail_if (not (has_shutdown_request (some machine))) _) _ h₁ in
    let (v, had_time, h₃) =
      >>=-eq-ok
        (fail_if
          (not (shutdown_request_settled (some machine) shutdown_confirmation_delay readings.now))
          _)
        _ h₂ in
    let (stopped, seen, h₄) =
      >>=-eq-ok (or_report (observe_host_stopped readings.probe selected machine configuration) _) _
        h₃ in
    let (w, off, h₅) = >>=-eq-ok (fail_if (not stopped) _) _ h₄ in
    let is_off : stopped ≡ true = ground (arith, fail_if-false (not stopped) _ w off) in
    let had_wait : shutdown_request_settled (some machine) shutdown_confirmation_delay readings.now
        ≡ true =
      ground (
        arith,
        fail_if-false
            (not (shutdown_request_settled (some machine) shutdown_confirmation_delay readings.now))
            _ v had_time,
      ) in
    record {
      configuration = configuration;
      requested =
          ground (arith, fail_if-false (not (has_shutdown_request (some machine))) _ u asked_for);
      settled = had_wait;
      on_record =
          (shutdown_request_settled_iff machine shutdown_confirmation_delay readings.now).0
            had_wait;
      stopped =
          or_report-eq (observe_host_stopped readings.probe selected machine configuration) _
            stopped seen
          ∙ ap ok is_off;
      recorded =
          previous_consumer_ref-uid readings machine previous
            (or_report-eq (previous_consumer_ref readings machine) _ previous h₅);
    }

-- The machine's drain is over, and the search for its host has answered.
pub record IsPastDrain (names : CapiNames) (readings : Readings) (machine : TartMachine)
    (held : Option TartHost) : Type 0 where
  pub capi_machine : CapiMachine
  pub read : readings.capi_machine ≡ ok capi_machine
  pub drained : IsDrained names capi_machine
  pub searched : find_allocated_host readings.hosts machine ≡ ok held

drained_host-IsPastDrain :
    (names : CapiNames) (readings : Readings) (machine : TartMachine) (held : Option TartHost)
    → drained_host names readings machine ≡ ok held
    → IsPastDrain names readings machine held
unfolding drained_host
drained_host-IsPastDrain names readings machine held h =
    let (_, _, h₁) =
      >>=-eq-ok (fail_if (not (any (λ f. f == machine_finalizer) machine.finalizers)) _) _ h in
    let (capi, read, h₂) = >>=-eq-ok (or_report readings.capi_machine _) _ h₁ in
    let (u, drained, h₃) =
      >>=-eq-ok (fail_if (not (deletion_drain_complete names (some capi))) _) _ h₂ in
    record {
      capi_machine = capi;
      read = or_report-eq readings.capi_machine _ capi read;
      drained = (deletion_drain_complete_iff names capi).0 (
          ground
            (arith, fail_if-false (not (deletion_drain_complete names (some capi))) _ u drained));
      searched = or_report-eq (find_allocated_host readings.hosts machine) _ held h₃;
    }

module _ (names : CapiNames) (server : ApiServer) where
  -- Why the finalizer could go.
  pub data Finished (s : server.State) (readings : Readings) (machine : TartMachine)
      (r : Reconciled names server) : Type 0 where
    nothing_held :
        IsPastDrain names readings machine none → r.state ≡ s → Finished s readings machine r
    released :
        (selected : TartHost) (previous : PreviousConsumerRef)
        → IsPastDrain names readings machine (some selected)
        → IsReleasable readings machine selected previous
        → Retained server s
            (consumer_of machine)
            previous
            (retain_host server s selected (consumer_of machine) previous)
        → r.state ≡ (retain_host server s selected (consumer_of machine) previous).state
        → Finished s readings machine r

  listed_In :
      (s : server.State) (hosts : Result String (List TartHost)) (machine : TartMachine)
      (h : TartHost)
      → ((xs : List TartHost) → hosts ≡ ok xs → (g : TartHost) → In g xs → server.Seen s g)
      → find_allocated_host hosts machine ≡ ok (some h)
      → server.Seen s h
  unfolding find_allocated_host
  listed_In s (ok xs) machine h seen e = seen xs refl h (find_allocated_host-In xs machine h e)
  listed_In s (err x) machine h seen e = cc

  releasing-Finished :
      (s : server.State) (readings : Readings) (machine : TartMachine) (selected : TartHost)
      → server.Seen s selected
      → IsPastDrain names readings machine (some selected)
      → (releasing names server s readings machine selected
          (release_record names readings machine selected)).step
        ≡ finalizer_removed
      → Finished s readings machine (
          releasing names server s readings machine selected
            (release_record names readings machine selected))
  unfolding releasing retained_then
  releasing-Finished s readings machine selected seen d h =
      elim (Result-cases (release_record names readings machine selected)) [
        | inr (x, e) ↦ absurd (ground (arith, e, h))
        | inl (previous, e) ↦
            elim (Result-cases
              (retain_host server s selected (consumer_of machine) previous).result) [
                | inr (x, k) ↦ absurd (ground (arith, e, k, h))
                | inl (u, k) ↦ rw e (
                    rw k (
                      released selected previous d
                        (release_record-IsReleasable names readings machine selected previous e)
                        (retain_host_safe server s selected (consumer_of machine) previous seen k)
                        refl))
              ]
      ]

  -- The finalizer of a machine is removed only when its Cluster API machine is past the drain, and
  -- either the search for its host has found none, or the host that it found was observed to be
  -- stopped, while the machine's Ready condition had a shutdown request as its reason and its last
  -- transition (which may be older than the request) lay the wait back, and has been released with
  -- the machine on record; nothing else has been written to a host. The hosts that were listed are
  -- ones that the server has stored.
  pub reconcile_deletion_safe :
      (s : server.State) (readings : Readings) (machine : TartMachine)
      → ((xs : List TartHost) → readings.hosts ≡ ok xs → (g : TartHost) → In g xs → server.Seen s g)
      → (reconcile_deletion names server s readings machine).step ≡ finalizer_removed
      → Finished s readings machine (reconcile_deletion names server s readings machine)
  unfolding reconcile_deletion after_drain
  reconcile_deletion_safe s readings machine seen h =
      elim (Result-cases (drained_host names readings machine)) [
        | inr (x, e) ↦ absurd (ground (arith, e, h))
        | inl (none, e) ↦
            rw e (nothing_held (drained_host-IsPastDrain names readings machine none e) refl)
        | inl (some selected, e) ↦
            let d = drained_host-IsPastDrain names readings machine (some selected) e in
            rw e (
              releasing-Finished s readings machine selected
                (listed_In s readings.hosts machine selected seen d.searched) d
                (ground (arith, e, h)))
      ]
