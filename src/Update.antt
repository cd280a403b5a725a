-- ===== src/Update.antt =====
-- domain/update and usecase/update/evaluate.go: whether and how a change of the configuration is
-- applied in place. The classifier of changes is a parameter.
pub mod Modes
pub mod Scenarios
use cluster_api_provider_tar.Base.{
  ℕ, zero, suc, String, ◌+◌, ◌-◌, ◌*◌, ◌/◌, ◌%◌, ◌^◌, ◌≤◌, ◌<◌, ◌≡◌, refl, sym, ap, subst, ◌∙◌, ◌≢◌,
  ◌↔◌, ◌⊎◌, inl, inr, Bool, true, false, not, ◌&&◌, ◌||◌, Option, none, some, List, [], ◌∷◌, ◌++◌,
  map, arith, eq_iff, eq_refl, ltb, leb, if◌then◌else◌, Comparable, ◌==◌, ◌!=◌, comparable_nat,
  comparable_text, comparable_list, list_beq_iff, ==_refl, Bool-cases, Option-cases, ltb→lt, leb→le,
  is_some, length, any, keep, count_if, All, In, trim_space, is_blank, codes, is_blank-empty,
  is_blank_nonempty,
}
use cluster_api_provider_tar.Base.Result.{Result, ok, err, ◌>>=◌}

-- `ChangeClass`.
pub data ChangeClass : Type 0 where
  change_none change_updatable change_control_plane_endpoint : ChangeClass
  change_reprovision_required change_invariant_conflict : ChangeClass
  other_class : String → ChangeClass

-- `ApplyMode`; `no_mode` is the empty text.
pub data ApplyMode : Type 0 where
  no_mode apply_only staged_reboot : ApplyMode

-- `ConfigurationApplyStrategy` of api/bootstrap; an unset one is the empty text.
pub data ApplyStrategy : Type 0 where
  strategy_unset strategy_apply_only strategy_staged_reboot : ApplyStrategy
  other_strategy : String → ApplyStrategy

-- `Decision`.
pub record Decision : Type 0 where
  pub class : ChangeClass
  pub apply_mode : ApplyMode
  pub reason : String

pub data UpdateError : Type 0 where
  policy_unknown unrecognized_class : UpdateError
  classifier_failed : String → UpdateError

-- `ResolveApplyMode`.
unfoldable pub resolve_apply_mode : ApplyStrategy → Result UpdateError ApplyMode
resolve_apply_mode strategy_staged_reboot = ok staged_reboot
resolve_apply_mode strategy_unset = ok staged_reboot
resolve_apply_mode strategy_apply_only = ok apply_only
resolve_apply_mode (other_strategy s) = err policy_unknown

in_place : ChangeClass → String → ApplyStrategy → Result UpdateError Decision
in_place class reason strategy = do
  mode ← resolve_apply_mode strategy
  ok (record { class = class; apply_mode = mode; reason = reason })

-- `Decide`.
unfoldable pub decide : ChangeClass → String → ApplyStrategy → Result UpdateError Decision
unfolding in_place
decide change_none reason strategy =
    ok (record { class = change_none; apply_mode = no_mode; reason = "" })
decide change_invariant_conflict reason strategy =
    ok (record { class = change_invariant_conflict; apply_mode = no_mode; reason = reason })
decide change_reprovision_required reason strategy =
    ok (record { class = change_reprovision_required; apply_mode = no_mode; reason = reason })
decide change_updatable reason strategy = in_place change_updatable reason strategy
decide change_control_plane_endpoint reason strategy =
    in_place change_control_plane_endpoint reason strategy
decide (other_class c) reason strategy = err unrecognized_class

abbrev pub Classifier : Type 0
Classifier = String → String → Result String (ChangeClass × String)

abbrev with_class :
    Result String (ChangeClass × String) → ApplyStrategy → Result UpdateError Decision
with_class (err e) strategy = err (classifier_failed e)
with_class (ok (class, reason)) strategy = decide class reason strategy

-- `Evaluate`.
unfoldable pub evaluate : Classifier → ApplyStrategy → String → String → Result UpdateError Decision
evaluate classifier strategy active desired = with_class (classifier active desired) strategy
