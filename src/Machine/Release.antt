-- ===== src/Machine/Release.antt =====
-- controller/tartmachine/deletion.go, `reconcileDeletion`: one reconciliation of a machine that is
-- being deleted. What it reads is an argument, and its only write to a host is `RetainHost`. An
-- early return is an error of the chain of tests.
pub mod Lookup
pub mod Safety
pub mod Reporting
pub mod Progress
pub mod Scenarios
use cluster_api_provider_tar.Base.{
  ℕ, zero, suc, String, ◌+◌, ◌-◌, ◌*◌, ◌/◌, ◌%◌, ◌^◌, ◌≤◌, ◌<◌, ◌≡◌, refl, sym, ap, subst, ◌∙◌, ◌≢◌,
  ◌↔◌, ◌⊎◌, inl, inr, Bool, true, false, not, ◌&&◌, ◌||◌, Option, none, some, List, [], ◌∷◌, ◌++◌,
  map, arith, eq_iff, eq_refl, ltb, leb, if◌then◌else◌, Comparable, ◌==◌, ◌!=◌, comparable_nat,
  comparable_text, comparable_list, list_beq_iff, ==_refl, Bool-cases, Option-cases, ltb→lt, leb→le,
  is_some, length, any, keep, count_if, All, In, trim_space, is_blank, codes, is_blank-empty,
  is_blank_nonempty,
}
use cluster_api_provider_tar.Base.Result.{Result, ok, err, ◌>>=◌, ◌>>◌, fail_if}
use cluster_api_provider_tar.Api.Meta.{ObjectReference, ClusterId, cluster_id_is_zero}
use cluster_api_provider_tar.Api.Host.{TartHost, TartHostSpec, PreviousConsumerRef}
use cluster_api_provider_tar.Api.Machine.{TartMachine, CapiMachine, ContractReference}
use cluster_api_provider_tar.Repository.Server.{ApiServer}
use cluster_api_provider_tar.Repository.Loop.{Outcome}
use cluster_api_provider_tar.Repository.TartHostRepository.{retain_host}
use cluster_api_provider_tar.Machine.Binding.{consumer_uid_of, find_claimed_host}
use cluster_api_provider_tar.Machine.Deletion.{
  CapiNames, deletion_drain_complete, has_shutdown_request, shutdown_request_settled,
  shutdown_requested_reason,
}
use cluster_api_provider_tar.Machine.Stop.{
  Probe, StopError, observe_host_stopped, request_host_shutdown,
}

abbrev pub machine_finalizer : String
machine_finalizer = "tart.cluster.x-k8s.io/machine-lifecycle"

abbrev pub shutdown_unconfirmed : String
shutdown_unconfirmed = "ShutdownUnconfirmed"

abbrev pub infra_group : String
infra_group = "infrastructure.cluster.x-k8s.io"

-- `30 * time.Second`, in seconds.
abbrev pub shutdown_confirmation_delay : ℕ
shutdown_confirmation_delay = 30

-- How a reconciliation ends early: a condition that is reported before another try, or an error.
pub data Early : Type 0 where
  no_finalizer : Early
  reported failed : String → Early

-- How it ends.
pub data Step : Type 0 where
  early : Early → Step
  finalizer_removed : Step

pub data LookupError : Type 0 where
  hosts_not_listed host_not_found binding_lost claim_ambiguous : LookupError

-- `BootstrapConfiguration`'s errors: `ErrBootstrapDataUnavailable` and others.
pub data ConfigurationError : Type 0 where
  bootstrap_data_unavailable : ConfigurationError
  configuration_failed : String → ConfigurationError

-- The Cluster of Cluster API, as far as it is read.
pub record Cluster : Type 0 where
  pub infrastructure_ref : ContractReference

-- What one reconciliation reads, in the order of the reads.
pub record Readings : Type 0 where
  pub capi_machine : Result String CapiMachine
  pub hosts : Result String (List TartHost)
  pub configuration : Result ConfigurationError String
  pub probe : Probe
  pub now : ℕ
  pub capi_machine_of_consumer : Result String CapiMachine
  pub cluster : Result String Cluster
  pub tart_cluster_id : Result String ClusterId
  pub finalizer_patch : Result String (Unit {0})

-- `reportAndRequeue` on any error.
abbrev or_report : {E A : Type 0} → Result E A → String → Result Early A
or_report (ok a) reason = ok a
or_report (err e) reason = err (reported reason)

abbrev pub holds_uid : TartHost → TartMachine → Bool
holds_uid host machine =
    is_some host.spec.consumer_ref && consumer_uid_of host.spec.consumer_ref == machine.uid

abbrev previous_uid_is : Option PreviousConsumerRef → String → Bool
previous_uid_is none uid = false
previous_uid_is (some previous) uid = previous.uid == uid

abbrev by_name : List TartHost → String → Option TartHost
by_name [] name = none
by_name (host ∷ hosts) name =
    let rest = by_name hosts name in if host.name == name then some host else rest

abbrev as_lookup : {E : Type 0} → Result E (Option TartHost) → Result LookupError (Option TartHost)
as_lookup (ok found) = ok found
as_lookup (err e) = err claim_ambiguous

claimed_in : List TartHost → TartMachine → Result LookupError (Option TartHost)
claimed_in hosts machine = as_lookup (find_claimed_host hosts machine.uid)

abbrev or_status_host : Option TartHost → TartHost → Option TartHost
or_status_host none status_host = some status_host
or_status_host (some host) status_host = some host

-- With the host that the status of the machine names.
with_status_host :
    List TartHost → TartMachine → Option TartHost → Result LookupError (Option TartHost)
unfolding claimed_in
with_status_host hosts machine none = err host_not_found
with_status_host hosts machine (some status_host) =
    let found = claimed_in hosts machine in
    if not (holds_uid status_host machine)
    then (if previous_uid_is status_host.spec.previous_consumer_ref machine.uid
        then ok none
        else err binding_lost)
    else (found >>= λ claimed. ok (or_status_host claimed status_host))

look_up : List TartHost → TartMachine → Option String → Result LookupError (Option TartHost)
unfolding with_status_host
look_up hosts machine none = claimed_in hosts machine
look_up hosts machine (some name) = with_status_host hosts machine (by_name hosts name)

-- `findClaimedHost`.
pub find_allocated_host :
    Result String (List TartHost) → TartMachine → Result LookupError (Option TartHost)
unfolding look_up
find_allocated_host (err e) machine = err hosts_not_listed
find_allocated_host (ok hosts) machine = look_up hosts machine machine.status.host_ref

-- The consumer reference of a machine.
abbrev pub consumer_of : TartMachine → ObjectReference
consumer_of machine = record {
  api_version = "infrastructure.cluster.x-k8s.io/v1alpha1";
  kind = "TartMachine";
  namespace = machine.namespace;
  name = machine.name;
  uid = machine.uid;
  resource_version = "";
  field_path = "";
}

cluster_id_by : ContractReference → Result String ClusterId → Result String ClusterId
cluster_id_by reference tart_cluster_id =
    if reference.api_group == infra_group && reference.kind == "TartCluster" && reference.name != ""
    then tart_cluster_id
    else err "ClusterID is empty"

-- `previousConsumerRef`.
pub previous_consumer_ref : Readings → TartMachine → Result String PreviousConsumerRef
unfolding cluster_id_by
previous_consumer_ref readings machine = do
  _ ← readings.capi_machine_of_consumer
  cluster ← readings.cluster
  cluster_id ← cluster_id_by cluster.infrastructure_ref readings.tart_cluster_id
  fail_if (cluster_id_is_zero cluster_id) "ClusterID is empty"
  ok (record {
    namespace = machine.namespace;
    name = machine.name;
    uid = machine.uid;
    cluster_id = cluster_id;
  })

abbrev configuration_text : Result ConfigurationError String → Result Early String
configuration_text (ok text) = ok text
configuration_text (err bootstrap_data_unavailable) = ok ""
configuration_text (err (configuration_failed e)) = err (failed e)

abbrev asked : Result StopError Bool → Early
asked (ok true) = reported shutdown_requested_reason
asked _ = reported shutdown_unconfirmed

module _ (names : CapiNames) where
  -- The tests on a host that the machine holds: the record of its release, if it may be released.
  release_record : Readings → TartMachine → TartHost → Result Early PreviousConsumerRef
  release_record readings machine selected = do
    configuration ← configuration_text readings.configuration
    fail_if (not (has_shutdown_request (some machine)))
        (asked (request_host_shutdown readings.probe selected configuration))
    fail_if (not (shutdown_request_settled (some machine) shutdown_confirmation_delay readings.now))
        (reported shutdown_requested_reason)
    stopped ←
        or_report (observe_host_stopped readings.probe selected machine configuration)
          shutdown_requested_reason
    fail_if (not stopped) (reported shutdown_requested_reason)
    or_report (previous_consumer_ref readings machine) shutdown_unconfirmed

  -- The tests before that: the host that the machine holds, once its drain is over.
  drained_host : Readings → TartMachine → Result Early (Option TartHost)
  drained_host readings machine = do
    fail_if (not (any (λ f. f == machine_finalizer) machine.finalizers)) no_finalizer
    capi_machine ← or_report readings.capi_machine shutdown_unconfirmed
    fail_if (not (deletion_drain_complete names (some capi_machine)))
        (reported shutdown_unconfirmed)
    or_report (find_allocated_host readings.hosts machine) shutdown_unconfirmed

abbrev patched : Result String (Unit {0}) → Step
patched (ok _) = finalizer_removed
patched (err e) = early (failed e)

module _ (names : CapiNames) (server : ApiServer) where
  open server use {State}

  pub record Reconciled : Type 0 where
    pub state : State
    pub step : Step

  retained_then : Readings → Outcome server → Result Early (Unit {0}) → Reconciled
  retained_then readings o (ok _) = record {
    state = o.state;
    step = patched readings.finalizer_patch;
  }
  retained_then readings o (err e) = record { state = o.state; step = early e }

  releasing :
      State → Readings → TartMachine → TartHost → Result Early PreviousConsumerRef → Reconciled
  unfolding retained_then
  releasing s readings machine selected (err e) = record { state = s; step = early e }
  releasing s readings machine selected (ok previous) =
      let o = retain_host server s selected (consumer_of machine) previous in
      retained_then readings o (or_report o.result shutdown_unconfirmed)

  after_drain : State → Readings → TartMachine → Result Early (Option TartHost) → Reconciled
  unfolding releasing
  after_drain s readings machine (err e) = record { state = s; step = early e }
  after_drain s readings machine (ok none) = record {
    state = s;
    step = patched readings.finalizer_patch;
  }
  after_drain s readings machine (ok (some selected)) =
      releasing s readings machine selected (release_record names readings machine selected)

  -- `reconcileDeletion`.
  pub reconcile_deletion : State → Readings → TartMachine → Reconciled
  unfolding after_drain
  reconcile_deletion s readings machine =
      after_drain s readings machine (drained_host names readings machine)
