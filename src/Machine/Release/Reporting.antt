-- ===== src/Machine/Release/Reporting.antt =====
-- controller/tartmachine/reconciler.go, `report`: what a reconciliation that ends early leaves on
-- the machine, and when the wait after a shutdown request is over.
use cluster_api_provider_tar.Base.{
  ℕ, String, ◌+◌, ◌≤◌, ◌≡◌, refl, subst, ◌≢◌, true, Option, none, some, arith, comparable_nat,
  comparable_text, comparable_list,
}
use cluster_api_provider_tar.Api.Meta.{
  Condition, ConditionStatus, condition_true, condition_false, condition_unknown,
  find_status_condition,
}
use cluster_api_provider_tar.Api.Machine.{TartMachine}
use cluster_api_provider_tar.Controller.Conditions.{ConditionSetter, set_condition}
use cluster_api_provider_tar.Machine.Deletion.{
  ready_condition, shutdown_requested_reason, shutdown_request_settled,
}
use cluster_api_provider_tar.Machine.Deletion.Stages.{shutdown_request_settled_iff}
use cluster_api_provider_tar.Machine.Release.{
  Step, early, finalizer_removed, reported, failed, no_finalizer, shutdown_confirmation_delay,
}

module _ (setter : ConditionSetter) where
  -- `report`, when its patch succeeds.
  unfoldable pub report : ℕ → TartMachine → String → TartMachine
  report now machine reason = record machine {
    status = record machine.status {
      conditions =
          set_condition setter machine.status.conditions now ready_condition condition_false reason;
      observed_generation = machine.generation;
    };
  }

  -- The machine after a reconciliation.
  unfoldable pub machine_after : ℕ → TartMachine → Step → TartMachine
  machine_after now machine (early (reported reason)) = report now machine reason
  machine_after now machine (early (failed e)) = machine
  machine_after now machine (early no_finalizer) = machine
  machine_after now machine finalizer_removed = machine

  -- The Ready condition that a report leaves, with the time of its last transition.
  pub record HasReady (machine : TartMachine) (reason : String) (time : Option ℕ) : Type 0 where
    pub condition : Condition
    pub found : find_status_condition machine.status.conditions ready_condition ≡ some condition
    pub for_reason : condition.reason ≡ reason
    pub at_time : condition.last_transition_time ≡ time

  report-keeps_time :
      (now : ℕ) (machine : TartMachine) (reason : String) (old : Condition)
      → find_status_condition machine.status.conditions ready_condition ≡ some old
      → old.status ≡ condition_false
      → HasReady (report now machine reason) reason old.last_transition_time
  unfolding report
  report-keeps_time now machine reason old h e = record {
    condition = record {
      kind = ready_condition;
      status = condition_false;
      reason = reason;
      last_transition_time = old.last_transition_time;
    };
    found =
        setter.same_status machine.status.conditions now ready_condition condition_false reason old
          h e;
    for_reason = refl;
    at_time = refl;
  }

  report-sets_time :
      (now : ℕ) (machine : TartMachine) (reason : String)
      → ((old : Condition)
          → find_status_condition machine.status.conditions ready_condition ≡ some old
          → old.status ≢ condition_false)
      → HasReady (report now machine reason) reason (some now)
  unfolding report
  report-sets_time now machine reason n = record {
    condition = record {
      kind = ready_condition;
      status = condition_false;
      reason = reason;
      last_transition_time = some now;
    };
    found =
        setter.new_status machine.status.conditions now ready_condition condition_false reason n;
    for_reason = refl;
    at_time = refl;
  }

  settled :
      (machine : TartMachine) (since now : ℕ)
      → HasReady machine shutdown_requested_reason (some since)
      → since + shutdown_confirmation_delay ≤ now
      → shutdown_request_settled (some machine) shutdown_confirmation_delay now ≡ true
  settled machine since now r h =
      (shutdown_request_settled_iff machine shutdown_confirmation_delay now).1
        (r.condition, since, r.found, r.for_reason, r.at_time, h)

  -- The wait after a shutdown request is over at once, when the machine was not ready for as long
  -- before: the time of the transition to not ready counts, and the request does not move it.
  pub shutdown_wait_skipped :
      (now since : ℕ) (machine : TartMachine) (old : Condition)
      → find_status_condition machine.status.conditions ready_condition ≡ some old
      → old.status ≡ condition_false
      → old.last_transition_time ≡ some since
      → since + shutdown_confirmation_delay ≤ now
      → shutdown_request_settled
          (some (report now machine shutdown_requested_reason))
          shutdown_confirmation_delay
          now
        ≡ true
  shutdown_wait_skipped now since machine old h f t d =
      settled (report now machine shutdown_requested_reason) since now
        (subst
          (λ x. HasReady (report now machine shutdown_requested_reason) shutdown_requested_reason x)
          t (report-keeps_time now machine shutdown_requested_reason old h f))
        d

  -- A request that is reported counts from a time that is not after the report.
  pub record IsRequestedSince (machine : TartMachine) (now : ℕ) : Type 0 where
    pub since : ℕ
    pub not_later : since ≤ now
    pub ready : HasReady machine shutdown_requested_reason (some since)

  pub report-IsRequestedSince :
      (now : ℕ) (machine : TartMachine)
      → ((old : Condition)
          → find_status_condition machine.status.conditions ready_condition ≡ some old
          → (t : ℕ) × (old.last_transition_time ≡ some t) × (t ≤ now))
      → IsRequestedSince (report now machine shutdown_requested_reason) now
  report-IsRequestedSince now machine past =
      go (find_status_condition machine.status.conditions ready_condition) refl
    where
      moved :
          ((old : Condition)
            → find_status_condition machine.status.conditions ready_condition ≡ some old
            → old.status ≢ condition_false)
          → IsRequestedSince (report now machine shutdown_requested_reason) now
      moved n = record {
        since = now;
        not_later = omega arith;
        ready = report-sets_time now machine shutdown_requested_reason n;
      }

      by_status :
          (old : Condition) (s : ConditionStatus)
          → find_status_condition machine.status.conditions ready_condition ≡ some old
          → old.status ≡ s
          → IsRequestedSince (report now machine shutdown_requested_reason) now
      by_status old condition_false e k =
          let (t, at, le) = past old e in
          record {
            since = t;
            not_later = le;
            ready =
                subst
                  (λ x.
                    HasReady (report now machine shutdown_requested_reason)
                      shutdown_requested_reason x)
                  at (report-keeps_time now machine shutdown_requested_reason old e k);
          }
      by_status old condition_true e k = moved (λ o f. ground (arith, e, f, k))
      by_status old condition_unknown e k = moved (λ o f. ground (arith, e, f, k))

      go :
          (o : Option Condition)
          → find_status_condition machine.status.conditions ready_condition ≡ o
          → IsRequestedSince (report now machine shutdown_requested_reason) now
      go none e = moved (λ o f. ground (arith, e, f))
      go (some old) e = by_status old old.status e refl
