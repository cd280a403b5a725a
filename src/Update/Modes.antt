-- ===== src/Update/Modes.antt =====
-- Which changes are applied, and how.
use cluster_api_provider_tar.Base.{
  String, ◌≡◌, ◌⊎◌, inl, inr, arith, comparable_nat, comparable_text, comparable_list,
}
use cluster_api_provider_tar.Base.Result.{ok, Result-cases}
use cluster_api_provider_tar.Update.{
  ChangeClass, change_none, change_updatable, change_control_plane_endpoint,
  change_reprovision_required, change_invariant_conflict, other_class, no_mode, apply_only,
  staged_reboot, ApplyMode, ApplyStrategy, strategy_unset, strategy_apply_only,
  strategy_staged_reboot, other_strategy, Decision, resolve_apply_mode, in_place, decide,
  Classifier, evaluate,
}

-- The changes that keep the data and the identity of a machine.
abbrev pub IsInPlace : ChangeClass → Type 0
IsInPlace c = (c ≡ change_updatable) ⊎ (c ≡ change_control_plane_endpoint)

-- The mode that a strategy stands for, as the API documents it.
abbrev pub IsModeOf : ApplyStrategy → ApplyMode → Type 0
IsModeOf strategy mode =
    ((strategy ≡ strategy_apply_only) × (mode ≡ apply_only))
    ⊎ (((strategy ≡ strategy_staged_reboot) ⊎ (strategy ≡ strategy_unset)) × (mode ≡ staged_reboot))

-- What a decision on a change of that class says.
pub record IsDecision (class : ChangeClass) (strategy : ApplyStrategy) (d : Decision) : Type 0 where
  pub same_class : d.class ≡ class
  pub mode :
      (IsInPlace class × IsModeOf strategy d.apply_mode)
      ⊎ ((IsInPlace class → ⊥) × (d.apply_mode ≡ no_mode))

resolve_apply_mode-IsModeOf :
    (strategy : ApplyStrategy) (mode : ApplyMode)
    → resolve_apply_mode strategy ≡ ok mode
    → IsModeOf strategy mode
unfolding resolve_apply_mode
resolve_apply_mode-IsModeOf strategy_unset mode h = ground (arith, h)
resolve_apply_mode-IsModeOf strategy_apply_only mode h = ground (arith, h)
resolve_apply_mode-IsModeOf strategy_staged_reboot mode h = ground (arith, h)
resolve_apply_mode-IsModeOf (other_strategy s) mode h = absurd cc

decide-IsDecision :
    (class : ChangeClass) (reason : String) (strategy : ApplyStrategy) (d : Decision)
    → decide class reason strategy ≡ ok d
    → IsDecision class strategy d
unfolding decide in_place
decide-IsDecision change_none reason strategy d h = ground (arith, h)
decide-IsDecision change_invariant_conflict reason strategy d h = ground (arith, h)
decide-IsDecision change_reprovision_required reason strategy d h = ground (arith, h)
decide-IsDecision change_updatable reason strategy d h =
    ground (arith, h, resolve_apply_mode-IsModeOf strategy d.apply_mode)
decide-IsDecision change_control_plane_endpoint reason strategy d h =
    ground (arith, h, resolve_apply_mode-IsModeOf strategy d.apply_mode)
decide-IsDecision (other_class c) reason strategy d h = cc

-- A decision carries the class that the classifier found; a change that keeps data and identity
-- is applied only where the strategy says so, at once for ApplyOnly, staged with a reboot for
-- StagedReboot or where none is set, and for no other strategy; any other change has no mode.
pub evaluate-IsDecision :
    (classifier : Classifier) (strategy : ApplyStrategy) (active desired : String) (d : Decision)
    → evaluate classifier strategy active desired ≡ ok d
    → (class : ChangeClass) × (reason : String) × (classifier active desired ≡ ok (class, reason))
      × IsDecision class strategy d
unfolding evaluate
evaluate-IsDecision classifier strategy active desired d h =
    elim (Result-cases (classifier active desired)) [
      | inl ((class, reason), e) ↦
          (class, reason, e, decide-IsDecision class reason strategy d (ground (arith, e, h)))
      | inr (x, e) ↦ absurd (ground (arith, e, h))
    ]
