-- ===== src/Machine/Release/Scenarios.antt =====
-- A machine with a manually powered host is deleted: the operator has confirmed the stop.
use cluster_api_provider_tar.Api.Machine.{TartMachine}
use cluster_api_provider_tar.Machine.Release.Lookup.{LookedUp, find_allocated_host_lem}
use cluster_api_provider_tar.Base.{
  ℕ, ◌≤◌, ◌≡◌, refl, sym, ap, ◌∙◌, ◌≢◌, ◌⊎◌, inl, inr, true, false, some, List, [], ◌∷◌, arith,
  eq_iff, comparable_nat, comparable_text, comparable_list, In, is_blank,
}
use cluster_api_provider_tar.Api.Meta.{Condition, condition_false}
use cluster_api_provider_tar.Controller.SampleConditions.{replacing}
use cluster_api_provider_tar.Machine.Deletion.{shutdown_requested_reason}
use cluster_api_provider_tar.Machine.Deletion.Stages.{IsDrained}
use cluster_api_provider_tar.Machine.Stop.{request_host_shutdown}
use cluster_api_provider_tar.Machine.Release.{shutdown_confirmation_delay}
use cluster_api_provider_tar.Machine.Release.Reporting.{
  report, machine_after, shutdown_wait_skipped,
}
use cluster_api_provider_tar.Machine.Release.Progress.{
  IsReadable, IsFinishing, reconcile_deletion_finishes,
}
use cluster_api_provider_tar.Base.Result.{ok, err}
use cluster_api_provider_tar.Api.Host.{
  TartHost, TartHostSpec, redfish, intel_manageability, PreviousConsumerRef,
}
use cluster_api_provider_tar.Api.Samples.{sample_host, sample_spec, sample_consumer}
use cluster_api_provider_tar.Api.Meta.{find_status_condition, reference_beq}
use cluster_api_provider_tar.Host.ClaimDecision.{decide_retention}
use cluster_api_provider_tar.Repository.Loop.{update_loop}
use cluster_api_provider_tar.Repository.TartHostRepository.{retain_host, retained_host}
use cluster_api_provider_tar.Repository.SmallServer.{fresh, small_server, SeenIn}
use cluster_api_provider_tar.Machine.Samples.{names, capi_machine, machine}
use cluster_api_provider_tar.Machine.Binding.{
  find_claimed_host, find_claimed_host_name, is_bound_to,
}
use cluster_api_provider_tar.Machine.Deletion.{
  deletion_drain_complete, has_shutdown_request, shutdown_request_settled,
}
use cluster_api_provider_tar.Machine.Stop.{
  is_shutdown_confirmation_required, shutdown_confirmed, Probe, power_off, observe_host_stopped,
  host_talos_endpoint,
}
use cluster_api_provider_tar.Machine.Stop.Evidence.{IsSilent, observe_host_stopped_evidence}
use cluster_api_provider_tar.Machine.Release.{
  after_drain, releasing, retained_then, Readings, finalizer_removed, reconcile_deletion,
  drained_host, find_allocated_host, release_record, previous_consumer_ref, infra_group,
}
use cluster_api_provider_tar.Machine.Release.Safety.{Finished, reconcile_deletion_safe}

abbrev claimed_spec : TartHostSpec
claimed_spec = record sample_spec {
  consumer_ref = some sample_consumer;
  shutdown_confirmation = some (record { consumer_uid = "uid-a"; host_id = 17; boot_id = "" });
}

abbrev held : TartHost
held = record sample_host { spec = claimed_spec }

abbrev silent : Probe
silent = record {
  redfish_state = err "none";
  intel_manageability_state = err "none";
  dial_authenticated = err "unreachable";
  version = err "unreachable";
  authenticated_shutdown = err "unreachable";
  dial_maintenance = err "unreachable";
  inventory = err "unreachable";
  maintenance_shutdown = err "unreachable";
  power_off_host = err "none";
}

abbrev readings : Readings
readings = record {
  capi_machine = ok capi_machine;
  hosts = ok (held ∷ []);
  configuration = ok "machine: {}";
  probe = silent;
  now = 90;
  capi_machine_of_consumer = ok capi_machine;
  cluster = ok (record {
    infrastructure_ref = record { api_group = infra_group; kind = "TartCluster"; name = "c" };
  });
  tart_cluster_id = ok 5;
  finalizer_patch = ok tt;
}

abbrev previous : PreviousConsumerRef
previous = record { namespace = "default"; name = "machine-a"; uid = "uid-a"; cluster_id = 5 }

stops : observe_host_stopped silent held machine "machine: {}" ≡ ok true
unfolding observe_host_stopped host_talos_endpoint is_blank is_shutdown_confirmation_required
    shutdown_confirmed
stops = refl

observe_host_stopped_evidence_example :
    ((held.spec.power.backend ≡ redfish) × (silent.redfish_state ≡ ok power_off))
    ⊎ ((held.spec.power.backend ≡ intel_manageability)
        × (silent.intel_manageability_state ≡ ok power_off))
    ⊎ IsSilent silent held machine "machine: {}"
observe_host_stopped_evidence_example =
    observe_host_stopped_evidence silent held machine "machine: {}" stops

holds : drained_host names readings machine ≡ ok (some held)
unfolding drained_host deletion_drain_complete find_status_condition find_allocated_host
    find_claimed_host find_claimed_host_name is_bound_to
holds = refl

may_go : release_record names readings machine held ≡ ok previous
unfolding release_record previous_consumer_ref has_shutdown_request shutdown_request_settled
    find_status_condition observe_host_stopped host_talos_endpoint is_blank
    is_shutdown_confirmation_required shutdown_confirmed
may_go = refl

removes :
    (reconcile_deletion names (small_server claimed_spec) fresh readings machine).step
    ≡ finalizer_removed
unfolding reconcile_deletion after_drain releasing retained_then retain_host update_loop
    retained_host decide_retention reference_beq
removes = rw (holds, may_go) refl

listed_seen :
    (xs : List TartHost)
    → readings.hosts ≡ ok xs
    → (g : TartHost) → In g xs
    → SeenIn claimed_spec fresh g
listed_seen xs e g m = ground (arith, e, m)

reconcile_deletion_safe_example :
    Finished names
      (small_server claimed_spec)
      fresh
      readings
      machine
      (reconcile_deletion names (small_server claimed_spec) fresh readings machine)
reconcile_deletion_safe_example =
    reconcile_deletion_safe names (small_server claimed_spec) fresh readings machine listed_seen
      removes

named : (g : TartHost) → In g (held ∷ []) → g.name ≢ ""
named g (inl q) = ground (arith, ap (λ h. h.name) q, eq_iff "host-a" "")
named g (inr m) = absurd m

unique : (a b : TartHost) → In a (held ∷ []) → In b (held ∷ []) → a.name ≡ b.name → a ≡ b
unique a b (inl p) (inl q) e = p ∙ sym q
unique a b (inl p) (inr m) e = absurd m
unique a b (inr m) n e = absurd m

found : find_allocated_host (ok (held ∷ [])) machine ≡ ok (some held)
unfolding find_allocated_host find_claimed_host find_claimed_host_name is_bound_to
found = refl

find_allocated_host_lem_example : LookedUp (held ∷ []) machine (some held)
find_allocated_host_lem_example =
    find_allocated_host_lem (held ∷ []) machine named unique (some held) found

-- A machine whose shutdown was not asked for yet, and the readings of two reconciliations.
abbrev unasked : TartMachine
unasked = record machine { status = record machine.status { conditions = [] } }

abbrev asked_at_60 : TartMachine
asked_at_60 = report replacing 60 unasked shutdown_requested_reason

abbrev first_readings : Readings
first_readings = record readings {
  probe = record silent {
    dial_authenticated = ok tt;
    version = ok tt;
    authenticated_shutdown = ok tt;
  };
  now = 60;
}

IsDrained-sample : IsDrained names capi_machine
unfolding find_status_condition
IsDrained-sample = record {
  deleted_at = 5;
  deleting = refl;
  condition = _;
  found = refl;
  holds = refl;
  past_drain = inr (inr (inl refl));
}

first-IsReadable : IsReadable names first_readings unasked held "machine: {}"
unfolding find_allocated_host find_claimed_host find_claimed_host_name is_bound_to
first-IsReadable = record {
  finalizer = refl;
  capi_machine = capi_machine;
  read = refl;
  drained = IsDrained-sample;
  found = refl;
  configured = refl;
}

second-IsReadable : IsReadable names readings asked_at_60 held "machine: {}"
unfolding report find_allocated_host find_claimed_host find_claimed_host_name is_bound_to
second-IsReadable = record {
  finalizer = refl;
  capi_machine = capi_machine;
  read = refl;
  drained = IsDrained-sample;
  found = refl;
  configured = refl;
}

second-IsFinishing :
    IsFinishing names
      (small_server claimed_spec)
      replacing
      fresh
      readings
      asked_at_60
      held
      "machine: {}"
unfolding observe_host_stopped host_talos_endpoint is_blank is_shutdown_confirmation_required
    shutdown_confirmed report previous_consumer_ref retain_host update_loop decide_retention
    reference_beq retained_host
second-IsFinishing = record {
  stopped = refl;
  previous = previous;
  recorded = refl;
  retained = refl;
  patch = refl;
}

sends : request_host_shutdown first_readings.probe held "machine: {}" ≡ ok true
unfolding request_host_shutdown host_talos_endpoint is_blank
sends = refl

not_asked : has_shutdown_request (some unasked) ≡ false
unfolding has_shutdown_request find_status_condition
not_asked = refl

no_ready :
    (old : Condition)
    → find_status_condition unasked.status.conditions "Ready" ≡ some old
    → (n : ℕ) × (old.last_transition_time ≡ some n) × (n ≤ 60)
unfolding find_status_condition
no_ready old e = absurd (ground (arith, e))

reconcile_deletion_finishes_example :
    (reconcile_deletion names (small_server claimed_spec) fresh readings (
      machine_after replacing 60 unasked
        (reconcile_deletion names
          (small_server claimed_spec)
          fresh
          first_readings
          unasked).step)).step
    ≡ finalizer_removed
reconcile_deletion_finishes_example =
    reconcile_deletion_finishes names (small_server claimed_spec) replacing fresh fresh
      first_readings readings unasked held held "machine: {}" "machine: {}" first-IsReadable
      not_asked sends no_ready (omega arith) second-IsReadable second-IsFinishing

-- Not ready since 10, the shutdown is asked for at 60 and counts as settled at once.
abbrev not_ready : Condition
not_ready = record {
  kind = "Ready";
  status = condition_false;
  reason = "ShutdownUnconfirmed";
  last_transition_time = some 10;
}

abbrev unready : TartMachine
unready = record machine { status = record machine.status { conditions = not_ready ∷ [] } }

unready_found : find_status_condition unready.status.conditions "Ready" ≡ some not_ready
unfolding find_status_condition
unready_found = refl

shutdown_wait_skipped_example :
    shutdown_request_settled
      (some (report replacing 60 unready shutdown_requested_reason))
      shutdown_confirmation_delay
      60
    ≡ true
shutdown_wait_skipped_example =
    shutdown_wait_skipped replacing 60 10 unready not_ready unready_found refl refl (omega arith)
