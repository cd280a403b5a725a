-- ===== src/ControlPlane/Etcd.antt =====
-- controller/tartcontrolplane/etcd.go: what is observed of the etcd members. The answers of the
-- API server and of the Talos nodes in one reconciliation are an argument.
pub mod Removal
pub mod ScaleDown
pub mod Scenarios
use cluster_api_provider_tar.Base.{
  ℕ, String, Bool, false, not, ◌&&◌, ◌||◌, Option, none, some, List, [], ◌∷◌, if◌then◌else◌, ◌==◌,
  ◌!=◌, comparable_nat, comparable_text, comparable_list, is_some, length, any,
}
use cluster_api_provider_tar.Base.Result.{Result, ok, err, ◌>>=◌, ◌>>◌, fail_if}
use cluster_api_provider_tar.Api.Meta.{Condition, StringMap, ApiError, find_status_condition}
use cluster_api_provider_tar.Api.Host.{TartHost}
use cluster_api_provider_tar.Api.Machine.{CapiMachine, TartMachine}
use cluster_api_provider_tar.Controller.Ownership.{validate_provider_owner, OwnershipFailure}
use cluster_api_provider_tar.Machine.Deletion.{status_is_true}
use cluster_api_provider_tar.Machine.Stop.{host_talos_endpoint}
use cluster_api_provider_tar.Machine.Release.{infra_group, holds_uid}

-- The constants of Cluster API that the program compares with.
pub record EtcdNames : Type 0 where
  pub capi_group_version : String
  pub machine_deleting_condition : String
  pub waiting_for_pre_terminate_hook : String
  pub delete_hook : String

abbrev pub etcd_member_id_annotation : String
etcd_member_id_annotation = "tart.cluster.x-k8s.io/etcd-member-id"

abbrev pub ordinal_label : String
ordinal_label = "tart.cluster.x-k8s.io/control-plane-index"

abbrev pub delete_hook_value : String
delete_hook_value = "true"

-- `talos.EtcdStatus` and `talos.EtcdMember`.
pub record EtcdStatus : Type 0 where
  pub member_id : ℕ
  pub leader : ℕ
  pub errors : List String

pub record EtcdMember : Type 0 where
  pub id : ℕ
  pub learner : Bool

-- A client of a node's Talos API, with its answers.
pub record EtcdClient : Type 0 where
  pub status : Result String EtcdStatus
  pub members : Result String (List EtcdMember)
  pub remove_member : ℕ → Result String (Unit {0})
  pub close : Result String (Unit {0})

-- What a reconciliation is answered.
pub record EtcdAnswers : Type 0 where
  pub tart_machine : String → String → Result ApiError TartMachine
  pub tart_host : String → Result ApiError TartHost
  pub configuration : TartMachine → Result String String
  pub dial_authenticated : String → String → Result String EtcdClient
  pub patch_annotations : CapiMachine → StringMap → Result String (Unit {0})
  pub delete_machine : CapiMachine → Result ApiError (Unit {0})

pub data ObservationError : Type 0 where
  reference_invalid not_owned host_reference_unavailable : ObservationError
  binding_mismatch endpoint_unavailable : ObservationError
  unread : ApiError → ObservationError
  talos_error : String → ObservationError

abbrev read_from : {A : Type 0} → Result ApiError A → Result ObservationError A
read_from (ok a) = ok a
read_from (err e) = err (unread e)

abbrev talos_answer : {A : Type 0} → Result String A → Result ObservationError A
talos_answer (ok a) = ok a
talos_answer (err e) = err (talos_error e)

abbrev owned_or : Result OwnershipFailure (Unit {0}) → Result ObservationError (Unit {0})
owned_or (ok u) = ok u
owned_or (err e) = err not_owned

abbrev named_host : Option String → Result ObservationError String
named_host none = err host_reference_unavailable
named_host (some name) = if name == "" then err host_reference_unavailable else ok name

-- An answer counts only if the client closes well.
abbrev pub closed_after :
    {A : Type 0} → Result String A → Result String (Unit {0}) → Result String A
closed_after (err e) close = err e
closed_after (ok a) (err e) = err e
closed_after (ok a) (ok u) = ok a

-- `etcdStatusHealthy`.
unfoldable pub etcd_status_healthy : EtcdStatus → Bool
etcd_status_healthy status =
    status.member_id != 0 && status.leader != 0 && length status.errors == 0

-- `containsEtcdMember`.
unfoldable pub contains_etcd_member : List EtcdMember → ℕ → Bool
contains_etcd_member members member_id = any (λ m. m.id == member_id) members

-- `allEtcdMembersAreVoting`.
unfoldable pub all_etcd_members_are_voting : List EtcdMember → Bool
all_etcd_members_are_voting members = not (any (λ m. m.learner) members)

pub record EtcdObservation : Type 0 where
  pub machine : CapiMachine
  pub host : TartHost
  pub configuration : String
  pub status : EtcdStatus

module _ (names : EtcdNames) where
  waiting_at : Option Condition → Bool
  waiting_at none = false
  waiting_at (some condition) =
      status_is_true condition.status && condition.reason == names.waiting_for_pre_terminate_hook

  -- `machineWaitingForPreTerminateHook` for a machine that is there.
  unfoldable pub machine_waiting_for_hook : CapiMachine → Bool
  unfolding waiting_at
  machine_waiting_for_hook machine =
      is_some machine.deletion_timestamp
      && waiting_at (find_status_condition machine.conditions names.machine_deleting_condition)

  module _ (answers : EtcdAnswers) where
    -- `observeMachineIdentity` for a machine that is there.
    unfoldable pub observe_machine_identity :
        CapiMachine → Result ObservationError (TartHost × String)
    observe_machine_identity machine = do
      fail_if
          (machine.infrastructure_ref.api_group != infra_group
            || machine.infrastructure_ref.kind != "TartMachine"
            || machine.infrastructure_ref.name == "")
          reference_invalid
      provider ← read_from (answers.tart_machine machine.namespace machine.infrastructure_ref.name)
      owned_or (
          validate_provider_owner provider.owner_references (record {
            api_version = names.capi_group_version;
            kind = "Machine";
            name = machine.name;
            uid = machine.uid;
          }))
      host_name ← named_host provider.status.host_ref
      host ← read_from (answers.tart_host host_name)
      fail_if (not (holds_uid host provider)) binding_mismatch
      fail_if (host_talos_endpoint host == "") endpoint_unavailable
      configuration ← talos_answer (answers.configuration provider)
      ok (host, configuration)

    -- `dialAuthenticated`.
    abbrev pub dial_authenticated : TartHost → String → Result String EtcdClient
    dial_authenticated host configuration =
        answers.dial_authenticated (host_talos_endpoint host) configuration

    -- `observeEtcdStatus`.
    observe_etcd_status : TartHost → String → Result String EtcdStatus
    observe_etcd_status host configuration = do
      client ← dial_authenticated host configuration
      closed_after client.status client.close

    -- `observeEtcdMembersFromConfiguration`.
    unfoldable pub observe_etcd_members_from_configuration :
        TartHost → String → Result String (List EtcdMember)
    observe_etcd_members_from_configuration host configuration = do
      client ← dial_authenticated host configuration
      closed_after client.members client.close

    -- `observeEtcdMembers`.
    unfoldable pub observe_etcd_members : CapiMachine → Result ObservationError (List EtcdMember)
    unfolding observe_etcd_members_from_configuration
    observe_etcd_members machine = do
      (host, configuration) ← observe_machine_identity machine
      talos_answer (observe_etcd_members_from_configuration host configuration)

    -- One round of `observeEtcdMachineObservations`.
    unfoldable pub observe_etcd_machine : CapiMachine → Result ObservationError EtcdObservation
    unfolding observe_etcd_status
    observe_etcd_machine machine = do
      (host, configuration) ← observe_machine_identity machine
      status ← talos_answer (observe_etcd_status host configuration)
      fail_if (status.member_id == 0) (talos_error "no member ID")
      ok (record { machine = machine; host = host; configuration = configuration; status = status })

    -- `observeEtcdMachineObservations`.
    unfoldable pub observe_etcd_machines :
        List CapiMachine → Result ObservationError (List EtcdObservation)
    observe_etcd_machines [] = ok []
    observe_etcd_machines (machine ∷ machines) = do
      observation ← observe_etcd_machine machine
      observations ← observe_etcd_machines machines
      ok (observation ∷ observations)
