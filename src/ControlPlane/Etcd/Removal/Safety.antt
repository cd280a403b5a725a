-- ===== src/ControlPlane/Etcd/Removal/Safety.antt =====
-- When an etcd member is removed.
use cluster_api_provider_tar.Base.{
  ℕ, ◌≡◌, refl, sym, subst, ◌≢◌, inl, inr, true, Option, none, some, List, arith, if◌then◌else◌,
  comparable_nat, comparable_text, comparable_list, Bool-cases, length, In,
}
use cluster_api_provider_tar.Base.Result.{Result, ok, err}
use cluster_api_provider_tar.Base.Run.{just, >>=-calls, just-calls}
use cluster_api_provider_tar.Api.Host.{TartHost}
use cluster_api_provider_tar.Api.Machine.{CapiMachine}
use cluster_api_provider_tar.ControlPlane.Quorum.Majority.{IsRemovable, can_remove_member_iff}
use cluster_api_provider_tar.ControlPlane.Etcd.{
  EtcdNames, EtcdAnswers, EtcdMember, EtcdObservation, ObservationError, etcd_status_healthy,
  machine_waiting_for_hook, observe_etcd_machines, observe_etcd_members_from_configuration,
}
use cluster_api_provider_tar.ControlPlane.Etcd.Removal.{
  EtcdCall, annotations_patched, member_removed, machine_deleted, Summary,
  summarize_etcd_observations, first_etcd_observation, can_remove_observed_etcd_member,
  remove_observed_etcd_member, annotate_etcd_member_id, reconcile_annotated_etcd_member,
  remove_through, remove_summarized, remove_observed, unless_annotated,
  reconcile_etcd_member_removal, or_pending, patch_annotations,
}
use cluster_api_provider_tar.ControlPlane.Etcd.Removal.Calls.{
  or_pending-ok, remove_observed-calls, annotated-calls,
}
use cluster_api_provider_tar.ControlPlane.Etcd.Removal.Membership.{
  IsWholeCluster, whole_cluster_lem, summarize_etcd_observations_lem, first_etcd_observation_lem,
  healthy_count, ids, Distinct,
}

-- The members allow the removal of the target.
pub record AllowsRemoval (members : List EtcdMember) (os : List EtcdObservation)
    (target : EtcdObservation) : Type 0 where
  pub whole : IsWholeCluster members os
  pub removable :
      IsRemovable (length members) (healthy_count os) (etcd_status_healthy target.status)

allows_removal :
    (members : List EtcdMember) (os : List EtcdObservation) (healthy : ℕ) (target : EtcdObservation)
    → Distinct (ids os)
    → healthy ≡ healthy_count os
    → can_remove_observed_etcd_member members os target.status.member_id healthy target ≡ true
    → AllowsRemoval members os target
unfolding can_remove_observed_etcd_member
allows_removal members os healthy target d e h = record {
  whole =
      whole_cluster_lem members os d (ground (arith, h)) (ground (arith, h)) (ground (arith, h));
  removable =
      subst (λ n. IsRemovable (length members) n (etcd_status_healthy target.status)) e
        ((can_remove_member_iff (length members) healthy (etcd_status_healthy target.status) true).0
          (ground (arith, h))).1;
}

module _ (names : EtcdNames) (answers : EtcdAnswers) where
  -- The removal of a member, through a host, that keeps the cluster going.
  pub record IsSafeRemoval (target : CapiMachine) (machines : List CapiMachine) (host : TartHost)
      (member_id : ℕ) : Type 0 where
    pub waiting : machine_waiting_for_hook names target ≡ true
    pub observations : List EtcdObservation
    pub observed : observe_etcd_machines names answers machines ≡ ok observations
    pub observed_target : EtcdObservation
    pub is_target : observed_target.machine.uid ≡ target.uid
    pub target_In : In observed_target observations
    pub is_member : observed_target.status.member_id ≡ member_id
    pub survivor : EtcdObservation
    pub survivor_In : In survivor observations
    pub is_other : survivor.machine.uid ≢ target.uid
    pub through : survivor.host ≡ host
    pub members : List EtcdMember
    pub listed :
        observe_etcd_members_from_configuration names answers survivor.host survivor.configuration
        ≡ ok members
    pub allowed : AllowsRemoval members observations observed_target

  abbrev NoRemoval : EtcdCall → Type 0
  NoRemoval (member_removed h i) = ⊥
  NoRemoval (annotations_patched m a) = Unit
  NoRemoval (machine_deleted m) = Unit

  -- A removal through a survivor, with the members that it listed.
  record IsRemovalThrough (os : List EtcdObservation) (healthy : ℕ) (t : EtcdObservation)
      (survivor : Option EtcdObservation) (h : TartHost) (i : ℕ) : Type 0 where
    s : EtcdObservation
    is_survivor : survivor ≡ some s
    at_host : h ≡ s.host
    of_target : i ≡ t.status.member_id
    members : List EtcdMember
    listed :
        observe_etcd_members_from_configuration names answers s.host s.configuration ≡ ok members
    can : can_remove_observed_etcd_member members os t.status.member_id healthy t ≡ true

  remove_through-IsRemovalThrough :
      (os : List EtcdObservation) (m : Summary) (t : EtcdObservation) (o : Option EtcdObservation)
      (h : TartHost) (i : ℕ)
      → In (member_removed h i) (remove_through names answers os m t o).calls
      → IsRemovalThrough os m.healthy_members t o h i
  unfolding remove_through
  remove_through-IsRemovalThrough os m t none h i c = absurd c
  remove_through-IsRemovalThrough os m t (some s) h i c =
      let (ms, e, x) =
        just-calls
          (or_pending (observe_etcd_members_from_configuration names answers s.host s.configuration)
            "EtcdSurvivorUnavailable")
          (λ ms.
            (if can_remove_observed_etcd_member ms os t.status.member_id m.healthy_members t
              then remove_observed_etcd_member names answers s t.status.member_id
              else just (ok true)))
          (member_removed h i) c in
      elim (Bool-cases
        (can_remove_observed_etcd_member ms os t.status.member_id m.healthy_members t)) [
          | inr n ↦ absurd (ground (arith, n, x))
          | inl y ↦
              let same =
                remove_observed-calls names answers s t.status.member_id (member_removed h i)
                  (ground (arith, y, x)) in
              record {
                s = s;
                is_survivor = refl;
                at_host = ground (arith, same);
                of_target = ground (arith, same);
                members = ms;
                listed =
                    or_pending-ok
                      (observe_etcd_members_from_configuration names answers s.host s.configuration)
                      _ ms e;
                can = y;
              }
        ]

  record IsObservedRemoval (target : CapiMachine) (os : List EtcdObservation) (m : Summary)
      (h : TartHost) (i : ℕ) : Type 0 where
    t : EtcdObservation
    summarized : m.target ≡ some t
    through : IsRemovalThrough os m.healthy_members t (first_etcd_observation os target.uid) h i

  remove_summarized-IsObservedRemoval :
      (target : CapiMachine) (os : List EtcdObservation) (m : Summary) (h : TartHost) (i : ℕ)
      (o : Option EtcdObservation)
      → m.target ≡ o
      → In (member_removed h i) (remove_summarized names answers target os m o).calls
      → IsObservedRemoval target os m h i
  unfolding remove_summarized annotate_etcd_member_id
  remove_summarized-IsObservedRemoval target os m h i none e c = absurd c
  remove_summarized-IsObservedRemoval target os m h i (some t) e c =
      elim (>>=-calls (patch_annotations names answers target _)
        (λ u. remove_through names answers os m t (first_etcd_observation os target.uid))
        (member_removed h i) c) [
          | inl (inl x) ↦ cc
          | inl (inr x) ↦ absurd x
          | inr (u, k, x) ↦ record {
            t = t;
            summarized = e;
            through =
                remove_through-IsRemovalThrough os m t (first_etcd_observation os target.uid) h i x;
          }
        ]

  observed-IsSafeRemoval :
      (target : CapiMachine) (machines : List CapiMachine) (h : TartHost) (i : ℕ)
      (os : List EtcdObservation)
      → machine_waiting_for_hook names target ≡ true
      → observe_etcd_machines names answers machines ≡ ok os
      → (summarize_etcd_observations os target.uid).unique ≡ true
      → IsObservedRemoval target os (summarize_etcd_observations os target.uid) h i
      → IsSafeRemoval target machines h i
  observed-IsSafeRemoval target machines h i os w e u r =
      let (distinct, counted, t_In, t_uid) =
        summarize_etcd_observations_lem os target.uid r.t u r.summarized in
      let (s_In, s_uid) =
        first_etcd_observation_lem os target.uid r.through.s r.through.is_survivor in
      record {
        waiting = w;
        observations = os;
        observed = e;
        observed_target = r.t;
        is_target = t_uid;
        target_In = t_In;
        is_member = sym r.through.of_target;
        survivor = r.through.s;
        survivor_In = s_In;
        is_other = s_uid;
        through = sym r.through.at_host;
        members = r.through.members;
        listed = r.through.listed;
        allowed =
            allows_removal r.through.members os
              (summarize_etcd_observations os target.uid).healthy_members r.t distinct counted
              r.through.can;
      }

  remove_observed-IsSafeRemoval :
      (target : CapiMachine) (machines : List CapiMachine) (h : TartHost) (i : ℕ)
      (o : Result ObservationError (List EtcdObservation))
      → machine_waiting_for_hook names target ≡ true
      → observe_etcd_machines names answers machines ≡ o
      → In (member_removed h i) (remove_observed names answers target o).calls
      → IsSafeRemoval target machines h i
  unfolding remove_observed
  remove_observed-IsSafeRemoval target machines h i (err x) w e c = absurd c
  remove_observed-IsSafeRemoval target machines h i (ok os) w e c =
      elim (Bool-cases (summarize_etcd_observations os target.uid).unique) [
        | inr n ↦ absurd (ground (arith, n, c))
        | inl u ↦ observed-IsSafeRemoval target machines h i os w e u (
            remove_summarized-IsObservedRemoval target os
              (summarize_etcd_observations os target.uid) h i
              (summarize_etcd_observations os target.uid).target refl (ground (arith, u, c)))
      ]

  -- An etcd member is removed only for a machine under deletion that waits for its hook, and only
  -- when all machines of the control plane were observed with different members, a machine other
  -- than the target listed exactly these members, all of them voting, and more than half of them
  -- are healthy before and after the removal; the request goes through that other machine's host.
  pub member_removed-IsSafeRemoval :
      (target : CapiMachine) (machines : List CapiMachine) (h : TartHost) (i : ℕ)
      → In (member_removed h i) (reconcile_etcd_member_removal names answers target machines).calls
      → IsSafeRemoval target machines h i
  unfolding reconcile_etcd_member_removal unless_annotated
  member_removed-IsSafeRemoval target machines h i c =
      elim (Bool-cases (machine_waiting_for_hook names target)) [
        | inr n ↦ absurd (ground (arith, n, c))
        | inl w ↦
            elim (>>=-calls (reconcile_annotated_etcd_member names answers target machines)
              (unless_annotated names answers target machines) (member_removed h i)
              (ground (arith, w, c))) [
                | inl x ↦ absurd (
                    annotated-calls names answers NoRemoval target (λ a. tt) machines
                      (member_removed h i) x)
                | inr (some handled, e, x) ↦ absurd x
                | inr (none, e, x) ↦
                    remove_observed-IsSafeRemoval target machines h i
                      (observe_etcd_machines names answers machines) w refl x
              ]
      ]
