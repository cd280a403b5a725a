-- ===== src/ControlPlane/Etcd/Removal.antt =====
-- controller/tartcontrolplane/etcd.go: the removal of the etcd member of a machine that is being
-- deleted, one reconciliation of it.
pub mod Membership
pub mod Calls
pub mod Safety
pub mod Hook
use cluster_api_provider_tar.Base.{
  ℕ, suc, String, Bool, true, false, not, ◌&&◌, ◌||◌, Option, none, some, List, [], ◌∷◌,
  if◌then◌else◌, ◌==◌, ◌!=◌, comparable_nat, comparable_text, comparable_list, is_some, length, any,
}
use cluster_api_provider_tar.Base.Int.{pos}
use cluster_api_provider_tar.Base.Format.{format_nat}
use cluster_api_provider_tar.Base.Parse.{parse_uint64}
use cluster_api_provider_tar.Base.Result.{Result, ok, err}
use cluster_api_provider_tar.Base.Run.{Run, just, call, ◌>>=◌, ◌>>◌}
use cluster_api_provider_tar.Api.Meta.{StringMap, find_key, put_key, without_key}
use cluster_api_provider_tar.Api.Host.{TartHost}
use cluster_api_provider_tar.Api.Machine.{CapiMachine}
use cluster_api_provider_tar.ControlPlane.Quorum.{can_remove_member}
use cluster_api_provider_tar.ControlPlane.Etcd.{
  EtcdNames, EtcdAnswers, EtcdMember, EtcdObservation, ObservationError, etcd_member_id_annotation,
  etcd_status_healthy, contains_etcd_member, all_etcd_members_are_voting, machine_waiting_for_hook,
  observe_etcd_members, observe_etcd_members_from_configuration, observe_etcd_machines,
  dial_authenticated,
}

-- `controlPlaneFailure` and `scaleDownPendingError` by their reasons, and an error passed on.
pub data ControlPlaneError : Type 0 where
  failure pending passed_on : String → ControlPlaneError

-- The calls that change something.
pub data EtcdCall : Type 0 where
  annotations_patched : CapiMachine → StringMap → EtcdCall
  machine_deleted : CapiMachine → EtcdCall
  member_removed : TartHost → ℕ → EtcdCall

abbrev pub EtcdRun : Type 0 → Type 0
EtcdRun A = Run EtcdCall ControlPlaneError A

abbrev pub or_pass_on : {A : Type 0} → Result String A → Result ControlPlaneError A
or_pass_on (ok a) = ok a
or_pass_on (err e) = err (passed_on e)

abbrev pub or_pending : {E A : Type 0} → Result E A → String → Result ControlPlaneError A
or_pending (ok a) reason = ok a
or_pending (err e) reason = err (pending reason)

-- `firstControlPlaneSurvivor`.
unfoldable pub first_control_plane_survivor : List CapiMachine → String → Option CapiMachine
first_control_plane_survivor [] uid = none
first_control_plane_survivor (m ∷ ms) uid =
    let rest = first_control_plane_survivor ms uid in
    if m.uid != uid && not (is_some m.deletion_timestamp) then some m else rest

-- `firstEtcdObservation`.
unfoldable pub first_etcd_observation : List EtcdObservation → String → Option EtcdObservation
first_etcd_observation [] uid = none
first_etcd_observation (o ∷ os) uid =
    let rest = first_etcd_observation os uid in if o.machine.uid != uid then some o else rest

-- What `summarizeEtcdObservations` returns.
pub record Summary : Type 0 where
  pub target : Option EtcdObservation
  pub healthy_members : ℕ
  pub unique : Bool

-- Its loop: the IDs so far, the target and the number of healthy members so far.
unfoldable pub summarize_from :
    List ℕ → Option EtcdObservation → ℕ → List EtcdObservation → String → Summary
summarize_from seen target healthy [] uid = record {
  target = target;
  healthy_members = healthy;
  unique = true;
}
summarize_from seen target healthy (o ∷ os) uid =
    let rest =
      summarize_from (o.status.member_id ∷ seen) (if o.machine.uid == uid then some o else target)
        (if etcd_status_healthy o.status then suc healthy else healthy) os uid in
    if any (λ i. i == o.status.member_id) seen
    then record { target = none; healthy_members = 0; unique = false }
    else rest

-- `summarizeEtcdObservations`.
unfoldable pub summarize_etcd_observations : List EtcdObservation → String → Summary
unfolding summarize_from
summarize_etcd_observations observations uid = summarize_from [] none 0 observations uid

-- `canRemoveObservedEtcdMember`.
unfoldable pub can_remove_observed_etcd_member :
    List EtcdMember → List EtcdObservation → ℕ → ℕ → EtcdObservation → Bool
can_remove_observed_etcd_member members observations member_id healthy target =
    if length members != length observations
      || not (contains_etcd_member members member_id)
      || not (all_etcd_members_are_voting members)
    then false
    else if any (λ o. not (contains_etcd_member members o.status.member_id)) observations
    then false
    else can_remove_member (record {
      member_count = pos (length members);
      healthy_member_count = pos healthy;
      target_healthy = etcd_status_healthy target.status;
      target_health_observed = true;
    })

module _ (names : EtcdNames) (answers : EtcdAnswers) where
  abbrev pub patch_annotations : CapiMachine → StringMap → EtcdRun (Unit {0})
  patch_annotations machine annotations =
      call (annotations_patched machine annotations)
        (or_pass_on (answers.patch_annotations machine annotations))

  -- `annotateEtcdMemberID`.
  annotate_etcd_member_id : CapiMachine → ℕ → EtcdRun (Unit {0})
  annotate_etcd_member_id machine member_id =
      patch_annotations machine
        (put_key machine.annotations etcd_member_id_annotation (format_nat member_id))

  -- `removeEtcdDeleteHook`: false, for a removal that is over.
  remove_etcd_delete_hook : CapiMachine → EtcdRun Bool
  remove_etcd_delete_hook machine =
      patch_annotations machine
        (without_key (without_key machine.annotations names.delete_hook) etcd_member_id_annotation)
      >> just (ok false)

  abbrev after_removal :
      Result String (Unit {0}) → Result String (Unit {0}) → Result ControlPlaneError Bool
  after_removal (err e) close = err (pending "EtcdMemberRemovalFailed")
  after_removal (ok u) (err e) = err (passed_on e)
  after_removal (ok u) (ok v) = ok true

  -- `removeObservedEtcdMember`.
  pub remove_observed_etcd_member : EtcdObservation → ℕ → EtcdRun Bool
  remove_observed_etcd_member survivor member_id = do
    client ← just (
        or_pending (dial_authenticated names answers survivor.host survivor.configuration)
          "EtcdSurvivorUnavailable")
    call (member_removed survivor.host member_id)
        (after_removal (client.remove_member member_id) client.close)

  -- The rest of `reconcileAnnotatedEtcdMember` once a survivor's members are known.
  annotated_among : CapiMachine → ℕ → List EtcdMember → EtcdRun (Option Bool)
  unfolding remove_etcd_delete_hook
  annotated_among target member_id members =
      if contains_etcd_member members member_id
      then just (ok (some false))
      else (remove_etcd_delete_hook target >>= λ handled. just (ok (some handled)))

  annotated_by : CapiMachine → ℕ → Option CapiMachine → EtcdRun (Option Bool)
  unfolding annotated_among
  annotated_by target member_id none = just (ok (some true))
  annotated_by target member_id (some survivor) = do
    members ←
        just (or_pending (observe_etcd_members names answers survivor) "EtcdObservationTransient")
    annotated_among target member_id members

  annotated_with : CapiMachine → List CapiMachine → Option ℕ → EtcdRun (Option Bool)
  unfolding annotated_by
  annotated_with target machines none = just (err (failure "EtcdMemberIdentityInvalid"))
  annotated_with target machines (some member_id) =
      if member_id == 0
      then just (err (failure "EtcdMemberIdentityInvalid"))
      else annotated_by target member_id (first_control_plane_survivor machines target.uid)

  annotated_text : CapiMachine → List CapiMachine → Option String → EtcdRun (Option Bool)
  unfolding annotated_with
  annotated_text target machines none = just (ok none)
  annotated_text target machines (some text) = annotated_with target machines (parse_uint64 text)

  -- `reconcileAnnotatedEtcdMember`: whether it handled the removal, if there is an annotation.
  pub reconcile_annotated_etcd_member : CapiMachine → List CapiMachine → EtcdRun (Option Bool)
  unfolding annotated_text
  reconcile_annotated_etcd_member target machines =
      annotated_text target machines (find_key target.annotations etcd_member_id_annotation)

  -- The rest of `reconcileEtcdMemberRemoval` once the target is annotated and a survivor is chosen.
  remove_through :
      List EtcdObservation → Summary → EtcdObservation → Option EtcdObservation → EtcdRun Bool
  unfolding remove_observed_etcd_member
  remove_through observations summary target none = just (ok true)
  remove_through observations summary target (some survivor) = do
    members ← just (
        or_pending
          (observe_etcd_members_from_configuration names answers survivor.host
            survivor.configuration)
          "EtcdSurvivorUnavailable")
    let removable =
        can_remove_observed_etcd_member members observations target.status.member_id
          summary.healthy_members target
    if removable
        then remove_observed_etcd_member survivor target.status.member_id
        else just (ok true)

  remove_summarized :
      CapiMachine → List EtcdObservation → Summary → Option EtcdObservation → EtcdRun Bool
  unfolding annotate_etcd_member_id remove_through
  remove_summarized target observations summary none = just (ok true)
  remove_summarized target observations summary (some observed) = do
    annotate_etcd_member_id target observed.status.member_id
    remove_through observations summary observed (first_etcd_observation observations target.uid)

  remove_observed : CapiMachine → Result ObservationError (List EtcdObservation) → EtcdRun Bool
  unfolding remove_summarized
  remove_observed target (err e) = just (ok true)
  remove_observed target (ok observations) =
      let summary = summarize_etcd_observations observations target.uid in
      if not summary.unique
      then just (ok true)
      else remove_summarized target observations summary summary.target

  unless_annotated : CapiMachine → List CapiMachine → Option Bool → EtcdRun Bool
  unfolding remove_observed
  unless_annotated target machines (some handled) = just (ok handled)
  unless_annotated target machines none =
      remove_observed target (observe_etcd_machines names answers machines)

  -- `reconcileEtcdMemberRemoval`: whether the removal is pending. After an annotation was read, the
  -- source does not come to its second use of it.
  unfoldable pub reconcile_etcd_member_removal : CapiMachine → List CapiMachine → EtcdRun Bool
  unfolding reconcile_annotated_etcd_member unless_annotated
  reconcile_etcd_member_removal target machines =
      if not (machine_waiting_for_hook names target)
      then just (ok true)
      else (reconcile_annotated_etcd_member target machines >>= unless_annotated target machines)
