-- ===== src/Update/Scenarios.antt =====
-- A change that can be applied in place.
use cluster_api_provider_tar.Base.{
  String, ◌≡◌, refl, comparable_nat, comparable_text, comparable_list,
}
use cluster_api_provider_tar.Base.Result.{ok}
use cluster_api_provider_tar.Update.{
  ChangeClass, change_updatable, staged_reboot, strategy_unset, Decision, resolve_apply_mode,
  decide, Classifier, evaluate,
}
use cluster_api_provider_tar.Update.Modes.{IsDecision, evaluate-IsDecision}

abbrev updatable : Classifier
updatable active desired = ok (change_updatable, "sysctls")

abbrev decision : Decision
decision = record { class = change_updatable; apply_mode = staged_reboot; reason = "sysctls" }

evaluated : evaluate updatable strategy_unset "a" "b" ≡ ok decision
unfolding evaluate decide resolve_apply_mode
evaluated = refl

evaluate-IsDecision_example :
    (class : ChangeClass) × (reason : String) × (updatable "a" "b" ≡ ok (class, reason))
    × IsDecision class strategy_unset decision
evaluate-IsDecision_example =
    evaluate-IsDecision updatable strategy_unset "a" "b" decision evaluated
