-- ===== src/Machine/Deletion.antt =====
-- domain/machine/deletion.go and shutdown.go, and the rest of usecase/machine/binding.go: when the
-- drain of a machine is over, and when a requested shutdown had its time. Times are numbers, and
-- the zero time is `none`.
pub mod Stages
use cluster_api_provider_tar.Base.{
  ℕ, zero, suc, String, ◌+◌, ◌-◌, ◌*◌, ◌/◌, ◌%◌, ◌^◌, ◌≤◌, ◌<◌, ◌≡◌, refl, sym, ap, subst, ◌∙◌, ◌≢◌,
  ◌↔◌, ◌⊎◌, inl, inr, Bool, true, false, not, ◌&&◌, ◌||◌, Option, none, some, List, [], ◌∷◌, ◌++◌,
  map, arith, eq_iff, eq_refl, ltb, leb, if◌then◌else◌, Comparable, ◌==◌, ◌!=◌, comparable_nat,
  comparable_text, comparable_list, list_beq_iff, ==_refl, Bool-cases, Option-cases, ltb→lt, leb→le,
  is_some, length, any, keep, count_if, All, In, trim_space, is_blank, codes, is_blank-empty,
  is_blank_nonempty,
}
use cluster_api_provider_tar.Api.Meta.{
  Condition, ConditionStatus, condition_true, find_status_condition, is_true,
}
use cluster_api_provider_tar.Api.Machine.{CapiMachine, TartMachine}

-- The constants of Cluster API that the program compares with.
pub record CapiNames : Type 0 where
  pub machine_deleting_condition : String
  pub waiting_for_infrastructure_deletion : String
  pub waiting_for_bootstrap_deletion : String
  pub deleting_node : String
  pub deletion_completed : String

-- `DrainComplete`.
unfoldable pub drain_complete : Bool → Bool → String → List String → Bool
drain_complete has_deletion_timestamp deleting_condition_true reason completion_reasons =
    if not has_deletion_timestamp || not deleting_condition_true
    then false
    else any (λ r. r == reason) completion_reasons

abbrev pub shutdown_requested_reason : String
shutdown_requested_reason = "ShutdownRequested"

abbrev pub ready_condition : String
ready_condition = "Ready"

-- `IsShutdownRequested`.
unfoldable pub is_shutdown_requested : String → Bool
is_shutdown_requested reason = reason == shutdown_requested_reason

abbrev delay_over : Option ℕ → ℕ → ℕ → Bool
delay_over none now delay = false
delay_over (some transitioned_at) now delay = leb (transitioned_at + delay) now

-- `IsShutdownSettled`.
unfoldable pub is_shutdown_settled : String → Option ℕ → ℕ → ℕ → Bool
unfolding is_shutdown_requested
is_shutdown_settled reason transitioned_at now delay =
    if not (is_shutdown_requested reason) then false else delay_over transitioned_at now delay

-- `deletionDrainCompletionReasons`.
abbrev pub completion_reasons : CapiNames → List String
completion_reasons names =
    names.waiting_for_infrastructure_deletion ∷ names.waiting_for_bootstrap_deletion
    ∷ names.deleting_node ∷ names.deletion_completed ∷ []

abbrev pub status_is_true : ConditionStatus → Bool
status_is_true condition_true = true
status_is_true _ = false

drained_at : CapiNames → Bool → Option Condition → Bool
unfolding drain_complete
drained_at names has_timestamp none =
    drain_complete has_timestamp false "" (completion_reasons names)
drained_at names has_timestamp (some condition) =
    drain_complete has_timestamp (status_is_true condition.status) condition.reason
      (completion_reasons names)

-- `DeletionDrainComplete`; the pointer to the machine may be nil.
unfoldable pub deletion_drain_complete : CapiNames → Option CapiMachine → Bool
unfolding drained_at
deletion_drain_complete names none = false
deletion_drain_complete names (some machine) =
    drained_at names (is_some machine.deletion_timestamp)
      (find_status_condition machine.conditions names.machine_deleting_condition)

-- `IsProvisioned`.
unfoldable pub is_provisioned : Option TartMachine → Bool
is_provisioned none = false
is_provisioned (some machine) = is_true machine.status.provisioned

requested_at : Option Condition → Bool
unfolding is_shutdown_requested
requested_at none = false
requested_at (some condition) = is_shutdown_requested condition.reason

-- `HasShutdownRequest`.
unfoldable pub has_shutdown_request : Option TartMachine → Bool
unfolding requested_at
has_shutdown_request none = false
has_shutdown_request (some machine) =
    requested_at (find_status_condition machine.status.conditions ready_condition)

settled_at : Option Condition → ℕ → ℕ → Bool
unfolding is_shutdown_settled
settled_at none delay now = false
settled_at (some condition) delay now =
    is_shutdown_settled condition.reason condition.last_transition_time now delay

-- `ShutdownRequestSettled`, at the time `now`.
unfoldable pub shutdown_request_settled : Option TartMachine → ℕ → ℕ → Bool
unfolding settled_at
shutdown_request_settled none delay now = false
shutdown_request_settled (some machine) delay now =
    settled_at (find_status_condition machine.status.conditions ready_condition) delay now
