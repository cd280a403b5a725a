-- ===== src/Controller/Conditions.antt =====
-- controller/conditions.go. `meta.SetStatusCondition` of apimachinery is a parameter with its
-- documented behaviour: the time of the last transition moves only when the status changes.
use cluster_api_provider_tar.Base.{
  ℕ, String, ◌≡◌, ◌≢◌, Bool, true, false, some, List, comparable_nat, comparable_text,
  comparable_list,
}
use cluster_api_provider_tar.Api.Meta.{
  Condition, ConditionStatus, condition_true, condition_false, find_status_condition,
}

-- `meta.SetStatusCondition`, at a time.
pub record ConditionSetter : Type 0 where
  pub set : List Condition → ℕ → String → ConditionStatus → String → List Condition
  pub same_status :
      (cs : List Condition) (now : ℕ) (kind : String) (status : ConditionStatus) (reason : String)
      (old : Condition)
      → find_status_condition cs kind ≡ some old
      → old.status ≡ status
      → find_status_condition (set cs now kind status reason) kind
        ≡ some (record {
          kind = kind;
          status = status;
          reason = reason;
          last_transition_time = old.last_transition_time;
        })
  pub new_status :
      (cs : List Condition) (now : ℕ) (kind : String) (status : ConditionStatus) (reason : String)
      → ((old : Condition) → find_status_condition cs kind ≡ some old → old.status ≢ status)
      → find_status_condition (set cs now kind status reason) kind
        ≡ some (record {
          kind = kind;
          status = status;
          reason = reason;
          last_transition_time = some now;
        })

-- `SetCondition`; the message and the generation are not kept.
abbrev pub set_condition :
    ConditionSetter → List Condition → ℕ → String → ConditionStatus → String → List Condition
set_condition setter conditions now kind status reason =
    setter.set conditions now kind status reason

-- `SetPausedCondition`.
abbrev pub set_paused_condition : ConditionSetter → List Condition → ℕ → Bool → List Condition
set_paused_condition setter conditions now true =
    set_condition setter conditions now "Paused" condition_true "Paused"
set_paused_condition setter conditions now false =
    set_condition setter conditions now "Paused" condition_false "NotPaused"
