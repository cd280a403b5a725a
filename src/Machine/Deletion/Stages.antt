-- ===== src/Machine/Deletion/Stages.antt =====
-- What the tests on a deletion establish.
use cluster_api_provider_tar.Base.{
  ℕ, String, ◌+◌, ◌≤◌, ◌≡◌, refl, ◌↔◌, true, Option, none, some, List, [], ◌∷◌, arith, eq_iff, ◌==◌,
  comparable_nat, comparable_text, comparable_list, any, In,
}
use cluster_api_provider_tar.Api.Meta.{Condition, condition_true, find_status_condition}
use cluster_api_provider_tar.Api.Machine.{CapiMachine, TartMachine}
use cluster_api_provider_tar.Machine.Deletion.{
  CapiNames, completion_reasons, drain_complete, drained_at, deletion_drain_complete,
  ready_condition, shutdown_requested_reason, shutdown_request_settled, settled_at,
  is_shutdown_settled, is_shutdown_requested,
}

any-In : (reasons : List String) (r : String) → (any (λ x. x == r) reasons ≡ true) ↔ In r reasons
any-In [] r = (λ h. cc, λ m. absurd m)
any-In (x ∷ reasons) r = ground (arith, eq_iff x r, eq_iff r x, any-In reasons r)

-- The machine is being deleted, and its condition says that the drain is behind it.
pub record IsDrained (names : CapiNames) (machine : CapiMachine) : Type 0 where
  pub deleted_at : ℕ
  pub deleting : machine.deletion_timestamp ≡ some deleted_at
  pub condition : Condition
  pub found :
      find_status_condition machine.conditions names.machine_deleting_condition ≡ some condition
  pub holds : condition.status ≡ condition_true
  pub past_drain : In condition.reason (completion_reasons names)

-- The drain counts as complete exactly when the machine is being deleted and its Deleting
-- condition is true for one of the reasons that come after the drain.
pub deletion_drain_complete_iff :
    (names : CapiNames) (machine : CapiMachine)
    → (deletion_drain_complete names (some machine) ≡ true) ↔ IsDrained names machine
unfolding deletion_drain_complete drained_at drain_complete
deletion_drain_complete_iff names machine =
    go machine.deletion_timestamp
      (find_status_condition machine.conditions names.machine_deleting_condition) refl refl
  where
    go :
        (t : Option ℕ) (c : Option Condition)
        → machine.deletion_timestamp ≡ t
        → find_status_condition machine.conditions names.machine_deleting_condition ≡ c
        → (deletion_drain_complete names (some machine) ≡ true) ↔ IsDrained names machine
    go none c et ec = ground (arith, et)
    go (some t) none et ec = ground (arith, et, ec)
    go (some t) (some c) et ec = ground (arith, et, ec, any-In (completion_reasons names) c.reason)

-- A shutdown is settled exactly when it was requested and the delay has passed since.
pub shutdown_request_settled_iff :
    (machine : TartMachine) (delay now : ℕ)
    → (shutdown_request_settled (some machine) delay now ≡ true) ↔ (
        (c : Condition) × (t : ℕ) × (find_status_condition machine.status.conditions ready_condition
          ≡ some c)
        × (c.reason ≡ shutdown_requested_reason)
        × (c.last_transition_time ≡ some t)
        × (t + delay ≤ now))
unfolding shutdown_request_settled settled_at is_shutdown_settled is_shutdown_requested
shutdown_request_settled_iff machine delay now =
    go (find_status_condition machine.status.conditions ready_condition) refl
  where
    go :
        (c : Option Condition)
        → find_status_condition machine.status.conditions ready_condition ≡ c
        → (shutdown_request_settled (some machine) delay now ≡ true) ↔ (
            (c : Condition) × (t : ℕ) × (find_status_condition machine.status.conditions
                ready_condition
              ≡ some c)
            × (c.reason ≡ shutdown_requested_reason)
            × (c.last_transition_time ≡ some t)
            × (t + delay ≤ now))
    go none e = ground (arith, e)
    go (some c) e = ground (arith, e, eq_iff c.reason shutdown_requested_reason)
