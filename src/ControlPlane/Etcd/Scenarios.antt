-- ===== src/ControlPlane/Etcd/Scenarios.antt =====
-- A control plane of three machines, of which one is to go.
use cluster_api_provider_tar.Base.{
  ℕ, String, ◌≡◌, refl, sym, ap, subst, ◌∙◌, ◌⊎◌, inl, inr, true, false, Option, none, some, List,
  [], ◌∷◌, arith, if◌then◌else◌, ◌==◌, comparable_nat, comparable_text, comparable_list, In,
}
use cluster_api_provider_tar.Base.Int.{ℤ, pos, ◌<?◌}
use cluster_api_provider_tar.Base.Result.{ok}
use cluster_api_provider_tar.Base.Run.{just}
use cluster_api_provider_tar.Base.Parse.{parse_int32, parse_uint64, parse_digits}
use cluster_api_provider_tar.Base.Format.{format_nat, format_digits, digit}
use cluster_api_provider_tar.Base.Sort.{sort}
use cluster_api_provider_tar.Api.Meta.{
  Condition, condition_true, StringMap, lookup_or_empty, find_key, put_key, find_status_condition,
}
use cluster_api_provider_tar.Api.Host.{TartHost}
use cluster_api_provider_tar.Api.Machine.{CapiMachine, TartMachine}
use cluster_api_provider_tar.Api.Samples.{sample_host, sample_spec, sample_consumer}
use cluster_api_provider_tar.Machine.Samples.{capi_machine, machine as tart_machine}
use cluster_api_provider_tar.Machine.Stop.{host_talos_endpoint}
use cluster_api_provider_tar.Controller.Ownership.{validate_provider_owner}
use cluster_api_provider_tar.ControlPlane.Quorum.{can_remove_member}
use cluster_api_provider_tar.ControlPlane.Etcd.{
  EtcdNames, EtcdAnswers, EtcdClient, EtcdMember, etcd_member_id_annotation,
  machine_waiting_for_hook, observe_etcd_members, observe_machine_identity, ordinal_label,
  observe_etcd_machine, observe_etcd_machines, observe_etcd_members_from_configuration,
  contains_etcd_member, all_etcd_members_are_voting, etcd_status_healthy,
}
use cluster_api_provider_tar.ControlPlane.Etcd.Removal.{
  annotations_patched, member_removed, machine_deleted, reconcile_etcd_member_removal,
  summarize_etcd_observations, first_etcd_observation, can_remove_observed_etcd_member,
  first_control_plane_survivor,
}
use cluster_api_provider_tar.ControlPlane.Etcd.Removal.Safety.{
  IsSafeRemoval, member_removed-IsSafeRemoval,
}
use cluster_api_provider_tar.ControlPlane.Etcd.Removal.Hook.{
  IsMemberGone, annotations_patched-IsMemberGone, annotated_member_not_retried,
}
use cluster_api_provider_tar.ControlPlane.Etcd.ScaleDown.{
  reconcile_scale_down, ordinal_of, target_of, machine_before,
}
use cluster_api_provider_tar.ControlPlane.Etcd.ScaleDown.Order.{target_of-greatest}
use cluster_api_provider_tar.ControlPlane.Etcd.ScaleDown.Safety.{
  IsSafeDeletion, machine_deleted-IsSafeDeletion, IsMemberOfFirst, member_removed-IsMemberOfFirst,
}

abbrev pub names : EtcdNames
names = record {
  capi_group_version = "cluster.x-k8s.io/v1beta2";
  machine_deleting_condition = "Deleting";
  waiting_for_pre_terminate_hook = "WaitingForPreTerminateHook";
  delete_hook = "pre-terminate.delete.hook.machine.cluster.x-k8s.io/tart-etcd-member";
}

abbrev waiting : Condition
waiting = record {
  kind = "Deleting";
  status = condition_true;
  reason = "WaitingForPreTerminateHook";
  last_transition_time = none;
}

-- A machine's UID, its provider machine, its host and the endpoint are all named as it is.
abbrev member : String → String → Option ℕ → StringMap → CapiMachine
member name ordinal deletion annotations = record capi_machine {
  name = name;
  uid = name;
  labels = (ordinal_label, ordinal) ∷ [];
  annotations = annotations;
  deletion_timestamp = deletion;
  infrastructure_ref = record {
    api_group = "infrastructure.cluster.x-k8s.io";
    kind = "TartMachine";
    name = name;
  };
  conditions = waiting ∷ [];
}

abbrev provider : String → TartMachine
provider name = record tart_machine {
  name = name;
  uid = name;
  owner_references =
      record {
        api_version = "cluster.x-k8s.io/v1beta2";
        kind = "Machine";
        name = name;
        uid = name;
        controller = some true;
      }
      ∷ [];
  status = record tart_machine.status { host_ref = some name };
}

abbrev host : String → TartHost
host name = record sample_host {
  name = name;
  spec = record sample_spec {
    talos_api_address = name;
    consumer_ref = some (record sample_consumer { uid = name });
  };
}

abbrev id_of : String → ℕ
id_of name = if name == "cp-0" then 1 else if name == "cp-1" then 2 else 3

-- The client of a node, where the cluster has the members with the given IDs.
abbrev client : List EtcdMember → String → EtcdClient
client members endpoint = record {
  status = ok (record { member_id = id_of endpoint; leader = 1; errors = [] });
  members = ok members;
  remove_member = λ i. ok tt;
  close = ok tt;
}

abbrev answers_with : List EtcdMember → EtcdAnswers
answers_with members = record {
  tart_machine = λ namespace name. ok (provider name);
  tart_host = λ name. ok (host name);
  configuration = λ machine. ok "configuration";
  dial_authenticated = λ endpoint configuration. ok (client members endpoint);
  patch_annotations = λ machine annotations. ok tt;
  delete_machine = λ machine. ok tt;
}

abbrev voting : ℕ → EtcdMember
voting i = record { id = i; learner = false }

abbrev pub three : EtcdAnswers
three = answers_with (voting 1 ∷ voting 2 ∷ voting 3 ∷ [])

abbrev two : EtcdAnswers
two = answers_with (voting 1 ∷ voting 2 ∷ [])

abbrev hook : StringMap
hook = (names.delete_hook, "true") ∷ []

abbrev leaving : CapiMachine
leaving = member "cp-2" "2" (some 5) hook

abbrev others : List CapiMachine
others = member "cp-0" "0" none [] ∷ member "cp-1" "1" none [] ∷ []

abbrev machines : List CapiMachine
machines = leaving ∷ others

abbrev marked : CapiMachine
marked = member "cp-2" "2" (some 5) (put_key hook etcd_member_id_annotation "3")

-- The member is recorded and removed through another machine.
removal_run :
    (reconcile_etcd_member_removal names three leaving machines).calls
    ≡ annotations_patched leaving (put_key hook etcd_member_id_annotation "3")
      ∷ member_removed (host "cp-0") 3
      ∷ []
unfolding reconcile_etcd_member_removal machine_waiting_for_hook find_status_condition find_key
    observe_etcd_machines observe_etcd_machine observe_machine_identity validate_provider_owner
    host_talos_endpoint summarize_etcd_observations format_nat first_etcd_observation
    observe_etcd_members_from_configuration can_remove_observed_etcd_member contains_etcd_member
    all_etcd_members_are_voting can_remove_member etcd_status_healthy
removal_run = refl

member_removed-IsSafeRemoval_example : IsSafeRemoval names three leaving machines (host "cp-0") 3
member_removed-IsSafeRemoval_example =
    member_removed-IsSafeRemoval names three leaving machines (host "cp-0") 3
      (subst (λ cs. In (member_removed (host "cp-0") 3) cs) (sym removal_run) (inr (inl refl)))

-- Once the member is gone, the hook and the ID are taken off.
hook_run :
    (reconcile_etcd_member_removal names two marked machines).calls
    ≡ annotations_patched marked [] ∷ []
unfolding reconcile_etcd_member_removal machine_waiting_for_hook find_status_condition find_key
    put_key parse_uint64 parse_digits first_control_plane_survivor observe_etcd_members
    observe_machine_identity validate_provider_owner host_talos_endpoint contains_etcd_member
hook_run = refl

hook_name : (names.delete_hook == etcd_member_id_annotation) ≡ false
hook_name = refl

annotations_patched-IsMemberGone_example :
    (marked ≡ marked)
    × ((lookup_or_empty [] names.delete_hook ≡ lookup_or_empty marked.annotations names.delete_hook)
        ⊎ IsMemberGone names two marked machines)
annotations_patched-IsMemberGone_example =
    annotations_patched-IsMemberGone names two marked marked machines [] hook_name
      (subst (λ cs. In (annotations_patched marked []) cs) (sym hook_run) (inl refl))

is_waiting : machine_waiting_for_hook names marked ≡ true
unfolding machine_waiting_for_hook find_status_condition
is_waiting = refl

three_text : format_nat 3 ≡ "3"
unfolding format_nat format_digits digit
three_text = refl

survivor_there : first_control_plane_survivor machines "cp-2" ≡ some (member "cp-0" "0" none [])
unfolding first_control_plane_survivor
survivor_there = refl

members_read :
    observe_etcd_members names three (member "cp-0" "0" none [])
    ≡ ok (voting 1 ∷ voting 2 ∷ voting 3 ∷ [])
unfolding observe_etcd_members observe_machine_identity validate_provider_owner host_talos_endpoint
members_read = refl

still_listed : contains_etcd_member (voting 1 ∷ voting 2 ∷ voting 3 ∷ []) 3 ≡ true
unfolding contains_etcd_member
still_listed = refl

annotated_member_not_retried_example :
    reconcile_etcd_member_removal names three marked machines ≡ just (ok false)
annotated_member_not_retried_example =
    annotated_member_not_retried names three marked (member "cp-0" "0" none []) machines hook 3
      (voting 1 ∷ voting 2 ∷ voting 3 ∷ []) is_waiting
      (ap (λ t. put_key hook etcd_member_id_annotation t) (sym three_text)) (ground arith)
      (omega arith) survivor_there members_read still_listed

abbrev all_stay : List CapiMachine
all_stay = member "cp-2" "2" none [] ∷ others

abbrev hooked : CapiMachine
hooked = member "cp-2" "2" none hook

-- With two machines wanted, the one with the highest ordinal gets its hook and is deleted.
deletion_run :
    (reconcile_scale_down names three all_stay (pos 2)).calls
    ≡ annotations_patched (member "cp-2" "2" none []) hook ∷ machine_deleted hooked ∷ []
unfolding reconcile_scale_down target_of sort machine_before parse_int32 lookup_or_empty
    parse_digits put_key
deletion_run = refl

machine_deleted-IsSafeDeletion_example : IsSafeDeletion names three all_stay (pos 2) hooked
machine_deleted-IsSafeDeletion_example =
    machine_deleted-IsSafeDeletion names three all_stay (pos 2) hooked
      (subst (λ cs. In (machine_deleted hooked) cs) (sym deletion_run) (inr (inl refl)))

-- In a later reconciliation its member goes.
scale_down_run :
    (reconcile_scale_down names three machines (pos 2)).calls
    ≡ annotations_patched leaving (put_key hook etcd_member_id_annotation "3")
      ∷ member_removed (host "cp-0") 3
      ∷ []
unfolding reconcile_scale_down reconcile_etcd_member_removal target_of sort lookup_or_empty
    machine_waiting_for_hook find_status_condition find_key observe_etcd_machines
    observe_etcd_machine observe_machine_identity validate_provider_owner host_talos_endpoint
    summarize_etcd_observations format_nat first_etcd_observation
    observe_etcd_members_from_configuration can_remove_observed_etcd_member contains_etcd_member
    all_etcd_members_are_voting can_remove_member etcd_status_healthy
scale_down_run = refl

member_removed-IsMemberOfFirst_example :
    IsMemberOfFirst names three machines (pos 2) (host "cp-0") 3
member_removed-IsMemberOfFirst_example =
    member_removed-IsMemberOfFirst names three machines (pos 2) (host "cp-0") 3
      (subst (λ cs. In (member_removed (host "cp-0") 3) cs) (sym scale_down_run) (inr (inl refl)))

ordinal_0 : ordinal_of (member "cp-0" "0" none []) ≡ some (pos 0)
unfolding parse_int32 lookup_or_empty parse_digits
ordinal_0 = refl

ordinal_1 : ordinal_of (member "cp-1" "1" none []) ≡ some (pos 1)
unfolding parse_int32 lookup_or_empty parse_digits
ordinal_1 = refl

ordinal_2 : ordinal_of (member "cp-2" "2" none []) ≡ some (pos 2)
unfolding parse_int32 lookup_or_empty parse_digits
ordinal_2 = refl

numbered : (x : CapiMachine) → In x all_stay → (n : ℤ) × (ordinal_of x ≡ some n)
numbered x (inl e) = (pos 2, ap ordinal_of e ∙ ordinal_2)
numbered x (inr (inl e)) = (pos 0, ap ordinal_of e ∙ ordinal_0)
numbered x (inr (inr (inl e))) = (pos 1, ap ordinal_of e ∙ ordinal_1)
numbered x (inr (inr (inr e))) = absurd e

first_run : target_of all_stay ≡ some (member "cp-2" "2" none [])
unfolding target_of sort machine_before parse_int32 lookup_or_empty parse_digits
first_run = refl

target_of-greatest_example : In (member "cp-2" "2" none []) all_stay × ((pos 2 <? pos 1) ≡ false)
target_of-greatest_example =
    target_of-greatest all_stay (member "cp-1" "1" none []) (member "cp-2" "2" none []) (pos 1)
      (pos 2) numbered first_run (inr (inr (inl refl))) ordinal_1 ordinal_2
