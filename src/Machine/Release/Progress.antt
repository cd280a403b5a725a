-- ===== src/Machine/Release/Progress.antt =====
-- The deletion of a machine comes to its end.
use cluster_api_provider_tar.Base.{
  ℕ, String, ◌+◌, ◌≤◌, ◌≡◌, refl, true, false, Option, some, arith, eq_iff, ◌==◌, comparable_nat,
  comparable_text, comparable_list, any,
}
use cluster_api_provider_tar.Base.Result.{ok}
use cluster_api_provider_tar.Api.Meta.{Condition, find_status_condition}
use cluster_api_provider_tar.Api.Host.{TartHost, PreviousConsumerRef}
use cluster_api_provider_tar.Api.Machine.{TartMachine, CapiMachine}
use cluster_api_provider_tar.Controller.Conditions.{ConditionSetter}
use cluster_api_provider_tar.Repository.Server.{ApiServer}
use cluster_api_provider_tar.Repository.TartHostRepository.{retain_host}
use cluster_api_provider_tar.Machine.Deletion.{
  CapiNames, has_shutdown_request, is_shutdown_requested, shutdown_requested_reason,
  ready_condition,
}
use cluster_api_provider_tar.Machine.Deletion.Stages.{
  IsDrained, deletion_drain_complete_iff, shutdown_request_settled_iff,
}
use cluster_api_provider_tar.Machine.Stop.{observe_host_stopped, request_host_shutdown}
use cluster_api_provider_tar.Machine.Release.{
  Readings, early, reported, finalizer_removed, machine_finalizer, configuration_text,
  shutdown_confirmation_delay, find_allocated_host, consumer_of, previous_consumer_ref,
  release_record, drained_host, reconcile_deletion, after_drain, releasing, retained_then,
}
use cluster_api_provider_tar.Machine.Release.Reporting.{
  HasReady, IsRequestedSince, report, machine_after, report-IsRequestedSince,
}

module _ (names : CapiNames) where
  -- What is read lets the deletion get to the host that the machine holds.
  pub record IsReadable (readings : Readings) (machine : TartMachine) (selected : TartHost)
      (text : String) : Type 0 where
    pub finalizer : any (λ f. f == machine_finalizer) machine.finalizers ≡ true
    pub capi_machine : CapiMachine
    pub read : readings.capi_machine ≡ ok capi_machine
    pub drained : IsDrained names capi_machine
    pub found : find_allocated_host readings.hosts machine ≡ ok (some selected)
    pub configured : configuration_text readings.configuration ≡ ok text

  drained_host-IsReadable :
      (readings : Readings) (machine : TartMachine) (selected : TartHost) (text : String)
      → IsReadable readings machine selected text
      → drained_host names readings machine ≡ ok (some selected)
  unfolding drained_host
  drained_host-IsReadable readings machine selected text r =
      let drained = (deletion_drain_complete_iff names r.capi_machine).1 r.drained in
      rw (r.finalizer, r.read, drained, r.found) refl

  requested :
      (setter : ConditionSetter) (machine : TartMachine) (time : Option ℕ)
      → HasReady setter machine shutdown_requested_reason time
      → has_shutdown_request (some machine) ≡ true
  unfolding has_shutdown_request is_shutdown_requested
  requested setter machine time r =
      rw r.found (ground (arith, r.for_reason, eq_iff r.condition.reason shutdown_requested_reason))

  module _ (server : ApiServer) (setter : ConditionSetter) where
    -- What the last reconciliation reads and is answered.
    pub record IsFinishing (s : server.State) (readings : Readings) (machine : TartMachine)
        (selected : TartHost) (text : String) : Type 0 where
      pub stopped : observe_host_stopped readings.probe selected machine text ≡ ok true
      pub previous : PreviousConsumerRef
      pub recorded : previous_consumer_ref readings machine ≡ ok previous
      pub retained : (retain_host server s selected (consumer_of machine) previous).result ≡ ok tt
      pub patch : readings.finalizer_patch ≡ ok tt

    asks :
        (s : server.State) (readings : Readings) (machine : TartMachine) (selected : TartHost)
        (text : String)
        → IsReadable readings machine selected text
        → has_shutdown_request (some machine) ≡ false
        → request_host_shutdown readings.probe selected text ≡ ok true
        → (reconcile_deletion names server s readings machine).step
          ≡ early (reported shutdown_requested_reason)
    unfolding reconcile_deletion after_drain releasing release_record
    asks s readings machine selected text r n a =
        rw (drained_host-IsReadable readings machine selected text r, r.configured, n, a) refl

    finishes :
        (s : server.State) (readings : Readings) (machine : TartMachine) (selected : TartHost)
        (text : String) (now : ℕ)
        → IsReadable readings machine selected text
        → IsRequestedSince setter machine now
        → now + shutdown_confirmation_delay ≤ readings.now
        → IsFinishing s readings machine selected text
        → (reconcile_deletion names server s readings machine).step ≡ finalizer_removed
    unfolding reconcile_deletion after_drain releasing release_record retained_then
    finishes s readings machine selected text now r q d f =
        let settled =
          (shutdown_request_settled_iff machine shutdown_confirmation_delay readings.now).1 (
            q.ready.condition,
            q.since,
            q.ready.found,
            q.ready.for_reason,
            q.ready.at_time,
            omega (arith, d, q.not_later),
          ) in
        rw
          (
            drained_host-IsReadable readings machine selected text r,
            r.configured,
            requested setter machine (some q.since) q.ready,
            settled,
            f.stopped,
            f.recorded,
            f.retained,
            f.patch,
          )
          refl

    -- The deletion of a drained machine ends with the second of two reconciliations: when the first
    -- asks for the shutdown and it is sent, and the second comes half a minute later or after that,
    -- reads what it needs, finds the host stopped, and its two writes succeed.
    pub reconcile_deletion_finishes :
        (s t : server.State) (first second : Readings) (machine : TartMachine)
        (selected again : TartHost) (text other_text : String)
        → IsReadable first machine selected text
        → has_shutdown_request (some machine) ≡ false
        → request_host_shutdown first.probe selected text ≡ ok true
        → ((old : Condition)
            → find_status_condition machine.status.conditions ready_condition ≡ some old
            → (n : ℕ) × (old.last_transition_time ≡ some n) × (n ≤ first.now))
        → first.now + shutdown_confirmation_delay ≤ second.now
        → IsReadable second
            (report setter first.now machine shutdown_requested_reason)
            again
            other_text
        → IsFinishing t second
            (report setter first.now machine shutdown_requested_reason)
            again
            other_text
        → (reconcile_deletion names server t second (
            machine_after setter first.now machine
              (reconcile_deletion names server s first machine).step)).step
          ≡ finalizer_removed
    unfolding machine_after
    reconcile_deletion_finishes s t first second machine selected again text other_text r n a past d
          q f =
        rw (asks s first machine selected text r n a) (
          finishes t second (report setter first.now machine shutdown_requested_reason) again
            other_text first.now q (report-IsRequestedSince setter first.now machine past) d f)
