-- ===== src/ControlPlane/Etcd/Removal/Calls.antt =====
-- Which calls the removal of an etcd member makes.
use cluster_api_provider_tar.Base.{
  ℕ, String, ◌≡◌, sym, ap, subst, inl, inr, true, false, Option, none, some, List, arith,
  if◌then◌else◌, ◌==◌, comparable_nat, comparable_text, comparable_list, Bool-cases, In,
}
use cluster_api_provider_tar.Base.Result.{Result, ok, err, ok-injective}
use cluster_api_provider_tar.Base.Run.{just, call, >>=-calls, just-calls}
use cluster_api_provider_tar.Base.Format.{format_nat}
use cluster_api_provider_tar.Base.Parse.{parse_uint64}
use cluster_api_provider_tar.Api.Meta.{StringMap, find_key, put_key, without_key}
use cluster_api_provider_tar.Api.Host.{TartHost}
use cluster_api_provider_tar.Api.Machine.{CapiMachine}
use cluster_api_provider_tar.ControlPlane.Etcd.{
  EtcdNames, EtcdAnswers, EtcdMember, EtcdObservation, ObservationError, etcd_member_id_annotation,
  contains_etcd_member, machine_waiting_for_hook, observe_etcd_machines,
  observe_etcd_members_from_configuration, observe_etcd_members, dial_authenticated,
}
use cluster_api_provider_tar.ControlPlane.Etcd.Removal.{
  EtcdCall, annotations_patched, member_removed, Summary, summarize_etcd_observations,
  first_etcd_observation, can_remove_observed_etcd_member, remove_observed_etcd_member,
  annotate_etcd_member_id, annotated_among, annotated_by, annotated_with, annotated_text,
  reconcile_annotated_etcd_member, remove_through, remove_summarized, remove_observed,
  unless_annotated, reconcile_etcd_member_removal, or_pending, patch_annotations,
  remove_etcd_delete_hook, after_removal, ControlPlaneError, first_control_plane_survivor,
}

pub or_pending-ok :
    {E A : Type 0} (r : Result E A) (reason : String) (a : A)
    → or_pending r reason ≡ ok a
    → r ≡ ok a
or_pending-ok (ok x) reason a e = ap ok (ok-injective {E = ControlPlaneError} e)
or_pending-ok (err x) reason a e = cc

module _ (names : EtcdNames) (answers : EtcdAnswers) where
  -- The removal through a survivor asks for one thing.
  pub remove_observed-calls :
      (s : EtcdObservation) (n : ℕ) (c : EtcdCall)
      → In c (remove_observed_etcd_member names answers s n).calls
      → c ≡ member_removed s.host n
  unfolding remove_observed_etcd_member
  remove_observed-calls s n c i =
      let (client, e, x) =
        just-calls
          (or_pending (dial_authenticated names answers s.host s.configuration)
            "EtcdSurvivorUnavailable")
          (λ client.
            call (member_removed s.host n)
              (after_removal names answers (client.remove_member n) client.close))
          c i in
      elim x [ inl k ↦ k | inr k ↦ absurd k ]

  module _ (P : EtcdCall → Type 0) (t : CapiMachine)
      (patched : (a : StringMap) → P (annotations_patched t a)) where
    patch-calls :
        (a : StringMap) (c : EtcdCall) → In c (patch_annotations names answers t a).calls → P c
    patch-calls a c (inl e) = subst P (sym e) (patched a)
    patch-calls a c (inr x) = absurd x

    hook-calls : (c : EtcdCall) → In c (remove_etcd_delete_hook names answers t).calls → P c
    unfolding remove_etcd_delete_hook
    hook-calls c i =
        let a =
          without_key (without_key t.annotations names.delete_hook) etcd_member_id_annotation in
        elim (>>=-calls (patch_annotations names answers t a) (λ u. just (ok false)) c i) [
          | inl x ↦ patch-calls a c x
          | inr (u, e, x) ↦ absurd x
        ]

    annotated_among-calls :
        (n : ℕ) (ms : List EtcdMember) (c : EtcdCall)
        → In c (annotated_among names answers t n ms).calls
        → P c
    unfolding annotated_among
    annotated_among-calls n ms c i = elim (Bool-cases (contains_etcd_member ms n)) [
      | inl b ↦ absurd (ground (arith, b, i))
      | inr b ↦
          elim (>>=-calls (remove_etcd_delete_hook names answers t)
            (λ handled. just (ok (some handled))) c (ground (arith, b, i))) [
              | inl x ↦ hook-calls c x
              | inr (u, e, x) ↦ absurd x
            ]
    ]

    annotated_by-calls :
        (n : ℕ) (o : Option CapiMachine) (c : EtcdCall)
        → In c (annotated_by names answers t n o).calls
        → P c
    unfolding annotated_by
    annotated_by-calls n none c i = absurd i
    annotated_by-calls n (some s) c i =
        let (ms, e, x) =
          just-calls (or_pending (observe_etcd_members names answers s) "EtcdObservationTransient")
            (annotated_among names answers t n) c i in
        annotated_among-calls n ms c x

    annotated_with-calls :
        (machines : List CapiMachine) (o : Option ℕ) (c : EtcdCall)
        → In c (annotated_with names answers t machines o).calls
        → P c
    unfolding annotated_with
    annotated_with-calls machines none c i = absurd i
    annotated_with-calls machines (some n) c i = elim (Bool-cases (n == 0)) [
      | inl b ↦ absurd (ground (arith, b, i))
      | inr b ↦
          annotated_by-calls n (first_control_plane_survivor machines t.uid) c
            (ground (arith, b, i))
    ]

    annotated_text-calls :
        (machines : List CapiMachine) (o : Option String) (c : EtcdCall)
        → In c (annotated_text names answers t machines o).calls
        → P c
    unfolding annotated_text
    annotated_text-calls machines none c i = absurd i
    annotated_text-calls machines (some text) c i =
        annotated_with-calls machines (parse_uint64 text) c i

    -- With an annotation, the target's annotations are all that may change.
    pub annotated-calls :
        (machines : List CapiMachine) (c : EtcdCall)
        → In c (reconcile_annotated_etcd_member names answers t machines).calls
        → P c
    unfolding reconcile_annotated_etcd_member
    annotated-calls machines c i =
        annotated_text-calls machines (find_key t.annotations etcd_member_id_annotation) c i

    module _ (removed : (h : TartHost) (n : ℕ) → P (member_removed h n)) where
      through-calls :
          (os : List EtcdObservation) (s : Summary) (x : EtcdObservation)
          (o : Option EtcdObservation) (c : EtcdCall)
          → In c (remove_through names answers os s x o).calls
          → P c
      unfolding remove_through
      through-calls os s x none c i = absurd i
      through-calls os s x (some v) c i =
          let (ms, e, y) =
            just-calls
              (or_pending
                (observe_etcd_members_from_configuration names answers v.host v.configuration)
                "EtcdSurvivorUnavailable")
              (λ ms.
                (if can_remove_observed_etcd_member ms os x.status.member_id s.healthy_members x
                  then remove_observed_etcd_member names answers v x.status.member_id
                  else just (ok true)))
              c i in
          elim (Bool-cases
            (can_remove_observed_etcd_member ms os x.status.member_id s.healthy_members x)) [
              | inr b ↦ absurd (ground (arith, b, y))
              | inl b ↦
                  subst P
                    (sym (remove_observed-calls v x.status.member_id c (ground (arith, b, y))))
                    (removed v.host x.status.member_id)
            ]

      summarized-calls :
          (os : List EtcdObservation) (s : Summary) (o : Option EtcdObservation) (c : EtcdCall)
          → In c (remove_summarized names answers t os s o).calls
          → P c
      unfolding remove_summarized annotate_etcd_member_id
      summarized-calls os s none c i = absurd i
      summarized-calls os s (some x) c i =
          let a = put_key t.annotations etcd_member_id_annotation (format_nat x.status.member_id) in
          elim (>>=-calls (patch_annotations names answers t a)
            (λ u. remove_through names answers os s x (first_etcd_observation os t.uid)) c i) [
              | inl y ↦ patch-calls a c y
              | inr (u, e, y) ↦ through-calls os s x (first_etcd_observation os t.uid) c y
            ]

      observed-calls :
          (o : Result ObservationError (List EtcdObservation)) (c : EtcdCall)
          → In c (remove_observed names answers t o).calls
          → P c
      unfolding remove_observed
      observed-calls (err e) c i = absurd i
      observed-calls (ok os) c i =
          let s = summarize_etcd_observations os t.uid in
          elim (Bool-cases s.unique) [
            | inr b ↦ absurd (ground (arith, b, i))
            | inl b ↦ summarized-calls os s s.target c (ground (arith, b, i))
          ]

      -- A property of the changes of the target's annotations and of the removals of members is
      -- one of every call.
      pub reconcile-calls :
          (machines : List CapiMachine) (c : EtcdCall)
          → In c (reconcile_etcd_member_removal names answers t machines).calls
          → P c
      unfolding reconcile_etcd_member_removal unless_annotated
      reconcile-calls machines c i = elim (Bool-cases (machine_waiting_for_hook names t)) [
        | inr b ↦ absurd (ground (arith, b, i))
        | inl b ↦
            elim (>>=-calls (reconcile_annotated_etcd_member names answers t machines)
              (unless_annotated names answers t machines) c (ground (arith, b, i))) [
                | inl x ↦ annotated-calls machines c x
                | inr (some handled, e, x) ↦ absurd x
                | inr (none, e, x) ↦
                    observed-calls (observe_etcd_machines names answers machines) c x
              ]
      ]
