-- ===== src/ControlPlane/Etcd/ScaleDown.antt =====
-- controller/tartcontrolplane/etcd.go: which machine goes when there are too many. Sorting is
-- `slices.SortFunc`, by insertion: the names of machines differ, so that no two compare equal.
pub mod Order
pub mod Hooked
pub mod Safety
use cluster_api_provider_tar.Base.{
  Bool, true, false, not, Option, none, some, List, [], ◌∷◌, if◌then◌else◌, ◌==◌, comparable_nat,
  comparable_text, comparable_list, is_some, length, keep, codes,
}
use cluster_api_provider_tar.Base.Int.{ℤ, pos, ◌<?◌, same_ℤ}
use cluster_api_provider_tar.Base.Order.{lt_bytes}
use cluster_api_provider_tar.Base.Sort.{sort}
use cluster_api_provider_tar.Base.Parse.{parse_int32}
use cluster_api_provider_tar.Base.Result.{Result, ok, err}
use cluster_api_provider_tar.Base.Run.{just, call, ◌>>=◌, ◌>>◌}
use cluster_api_provider_tar.Api.Meta.{
  lookup_or_empty, put_key, ApiError, not_found, conflict, already_exists, other_error,
}
use cluster_api_provider_tar.Api.Machine.{CapiMachine}
use cluster_api_provider_tar.ControlPlane.Etcd.{
  EtcdNames, EtcdAnswers, ordinal_label, delete_hook_value,
}
use cluster_api_provider_tar.ControlPlane.Etcd.Removal.{
  EtcdRun, machine_deleted, ControlPlaneError, passed_on, patch_annotations,
  reconcile_etcd_member_removal,
}

-- `strings.Compare(right.Name, left.Name) < 0`.
unfoldable pub name_after : CapiMachine → CapiMachine → Bool
name_after left right = lt_bytes (codes right.name) (codes left.name)

abbrev pub ordinal_of : CapiMachine → Option ℤ
ordinal_of machine = parse_int32 (lookup_or_empty machine.labels ordinal_label)

unfoldable pub before_by : Option ℤ → Option ℤ → Bool → Bool
before_by (some left) (some right) by_name = if same_ℤ left right then by_name else right <? left
before_by _ _ by_name = by_name

-- `compareControlPlaneMachineOrder(left, right) < 0`.
unfoldable pub machine_before : CapiMachine → CapiMachine → Bool
unfolding before_by
machine_before left right = before_by (ordinal_of left) (ordinal_of right) (name_after left right)

abbrev pub is_deleting : CapiMachine → Bool
is_deleting machine = is_some machine.deletion_timestamp

abbrev pub first_machine : List CapiMachine → Option CapiMachine
first_machine [] = none
first_machine (m ∷ ms) = some m

-- The machine that goes first.
unfoldable pub target_of : List CapiMachine → Option CapiMachine
target_of machines = first_machine (sort machine_before machines)

abbrev or_gone : Result ApiError (Unit {0}) → Result ControlPlaneError (Unit {0})
or_gone (ok u) = ok u
or_gone (err not_found) = ok tt
or_gone (err conflict) = err (passed_on "conflict")
or_gone (err already_exists) = err (passed_on "already exists")
or_gone (err (other_error e)) = err (passed_on e)

module _ (names : EtcdNames) (answers : EtcdAnswers) where
  abbrev pub has_hook : CapiMachine → Bool
  has_hook machine = lookup_or_empty machine.annotations names.delete_hook == delete_hook_value

  -- `ensureEtcdDeleteHook`, with the machine as it is changed.
  unfoldable pub ensure_etcd_delete_hook : CapiMachine → EtcdRun CapiMachine
  ensure_etcd_delete_hook machine =
      let annotations = put_key machine.annotations names.delete_hook delete_hook_value in
      if has_hook machine
      then just (ok machine)
      else (patch_annotations names answers machine annotations
          >> just (ok (record machine { annotations = annotations })))

  pub delete_candidate : Option CapiMachine → EtcdRun Bool
  unfolding ensure_etcd_delete_hook
  delete_candidate none = just (ok false)
  delete_candidate (some target) = do
    hooked ← ensure_etcd_delete_hook target
    call (machine_deleted hooked) (or_gone (answers.delete_machine hooked))
    just (ok true)

  go_on_deleting : List CapiMachine → CapiMachine → EtcdRun Bool
  unfolding ensure_etcd_delete_hook
  go_on_deleting machines target =
      if has_hook target
      then reconcile_etcd_member_removal names answers target machines
      else (ensure_etcd_delete_hook target >>= λ hooked. just (ok true))

  one_at_a_time : List CapiMachine → Option CapiMachine → EtcdRun Bool
  unfolding delete_candidate go_on_deleting
  one_at_a_time machines none =
      delete_candidate (target_of (keep (λ m. not (is_deleting m)) machines))
  one_at_a_time machines (some target) = go_on_deleting machines target

  -- `reconcileScaleDown`: whether it is pending.
  unfoldable pub reconcile_scale_down : List CapiMachine → ℤ → EtcdRun Bool
  unfolding one_at_a_time
  reconcile_scale_down machines desired =
      if not (desired <? pos (length machines))
      then just (ok false)
      else one_at_a_time machines (target_of (keep is_deleting machines))
