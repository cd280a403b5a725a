-- ===== src/ControlPlane/Etcd/Removal/Hook.antt =====
-- When the delete hook of a machine is lifted, and what happens to a machine that carries the ID
-- of its etcd member.
use cluster_api_provider_tar.Base.{
  ℕ, String, ◌^◌, ◌<◌, ◌≡◌, refl, sym, ap, ◌∙◌, ◌≢◌, ◌⊎◌, inl, inr, true, false, not, ◌&&◌, Option,
  none, some, List, [], ◌∷◌, arith, eq_iff, if◌then◌else◌, ◌==◌, ◌!=◌, comparable_nat,
  comparable_text, comparable_list, Bool-cases, is_some, In,
}
use cluster_api_provider_tar.Base.Result.{Result, ok, err}
use cluster_api_provider_tar.Base.Run.{just, >>=-calls, just-calls}
use cluster_api_provider_tar.Base.Parse.{parse_uint64, parse_uint64-format_nat}
use cluster_api_provider_tar.Base.Format.{format_nat}
use cluster_api_provider_tar.Api.Maps.{lookup_or_empty-put_key_other, find_key-put_key}
use cluster_api_provider_tar.Api.Meta.{StringMap, find_key, put_key, without_key, lookup_or_empty}
use cluster_api_provider_tar.Api.Machine.{CapiMachine}
use cluster_api_provider_tar.ControlPlane.Etcd.{
  EtcdNames, EtcdAnswers, EtcdMember, EtcdObservation, ObservationError, etcd_member_id_annotation,
  contains_etcd_member, machine_waiting_for_hook, observe_etcd_machines,
  observe_etcd_members_from_configuration, observe_etcd_members,
}
use cluster_api_provider_tar.ControlPlane.Etcd.Removal.{
  annotations_patched, Summary, summarize_etcd_observations, first_etcd_observation,
  can_remove_observed_etcd_member, remove_observed_etcd_member, annotate_etcd_member_id,
  annotated_among, annotated_by, annotated_with, annotated_text, reconcile_annotated_etcd_member,
  remove_through, remove_summarized, remove_observed, unless_annotated,
  reconcile_etcd_member_removal, or_pending, patch_annotations, remove_etcd_delete_hook,
  first_control_plane_survivor,
}
use cluster_api_provider_tar.ControlPlane.Etcd.Removal.Calls.{or_pending-ok, remove_observed-calls}

pub first_control_plane_survivor_lem :
    (ms : List CapiMachine) (uid : String) (s : CapiMachine)
    → first_control_plane_survivor ms uid ≡ some s
    → In s ms × (s.uid ≢ uid) × (s.deletion_timestamp ≡ none)
unfolding first_control_plane_survivor
first_control_plane_survivor_lem [] uid s h = absurd (ground (arith, h))
first_control_plane_survivor_lem (m ∷ ms) uid s h =
    elim (Bool-cases (m.uid != uid && not (is_some m.deletion_timestamp))) [
      | inr b ↦
          let (i, n, d) = first_control_plane_survivor_lem ms uid s (ground (arith, h, b)) in
          (inr i, n, d)
      | inl b ↦
          let same : m ≡ s = ground (arith, h, b) in
          (
            inl (sym same),
            rw (sym same) (ground (arith, b, eq_iff m.uid uid)),
            rw (sym same) (ground (arith, b)),
          )
    ]

module _ (names : EtcdNames) (answers : EtcdAnswers) where
  -- The member whose ID the target carries was not among those that a machine listed which stays.
  pub record IsMemberGone (target : CapiMachine) (machines : List CapiMachine) : Type 0 where
    pub text : String
    pub annotated : find_key target.annotations etcd_member_id_annotation ≡ some text
    pub member_id : ℕ
    pub parsed : parse_uint64 text ≡ some member_id
    pub survivor : CapiMachine
    pub survivor_In : In survivor machines
    pub is_other : survivor.uid ≢ target.uid
    pub stays : survivor.deletion_timestamp ≡ none
    pub members : List EtcdMember
    pub listed : observe_etcd_members names answers survivor ≡ ok members
    pub gone : contains_etcd_member members member_id ≡ false

  -- What a change of annotations does to the hook.
  HookKept : CapiMachine → StringMap → Type 0
  HookKept target annotations =
      lookup_or_empty annotations names.delete_hook
      ≡ lookup_or_empty target.annotations names.delete_hook

  record IsGoneAmong (target : CapiMachine) (n : ℕ) (o : Option CapiMachine) : Type 0 where
    survivor : CapiMachine
    is_survivor : o ≡ some survivor
    members : List EtcdMember
    listed : observe_etcd_members names answers survivor ≡ ok members
    gone : contains_etcd_member members n ≡ false

  hook_patch :
      (t m : CapiMachine) (a : StringMap)
      → In (annotations_patched m a) (remove_etcd_delete_hook names answers t).calls
      → m ≡ t
  unfolding remove_etcd_delete_hook
  hook_patch t m a c =
      elim (>>=-calls
        (patch_annotations names answers t
          (without_key (without_key t.annotations names.delete_hook) etcd_member_id_annotation))
        (λ u. just (ok false)) (annotations_patched m a) c) [
          | inl (inl e) ↦ ground (arith, e)
          | inl (inr x) ↦ absurd x
          | inr (u, e, x) ↦ absurd x
        ]

  annotated_among-patch :
      (t m : CapiMachine) (n : ℕ) (ms : List EtcdMember) (a : StringMap)
      → In (annotations_patched m a) (annotated_among names answers t n ms).calls
      → (m ≡ t) × (contains_etcd_member ms n ≡ false)
  unfolding annotated_among
  annotated_among-patch t m n ms a c = elim (Bool-cases (contains_etcd_member ms n)) [
    | inl b ↦ absurd (ground (arith, b, c))
    | inr b ↦
        elim (>>=-calls (remove_etcd_delete_hook names answers t)
          (λ handled. just (ok (some handled))) (annotations_patched m a) (ground (arith, b, c))) [
            | inl x ↦ (hook_patch t m a x, b)
            | inr (u, e, x) ↦ absurd x
          ]
  ]

  annotated_by-patch :
      (t m : CapiMachine) (n : ℕ) (o : Option CapiMachine) (a : StringMap)
      → In (annotations_patched m a) (annotated_by names answers t n o).calls
      → (m ≡ t) × IsGoneAmong t n o
  unfolding annotated_by
  annotated_by-patch t m n none a c = absurd c
  annotated_by-patch t m n (some s) a c =
      let (ms, e, x) =
        just-calls (or_pending (observe_etcd_members names answers s) "EtcdObservationTransient")
          (annotated_among names answers t n) (annotations_patched m a) c in
      let (same, gone) = annotated_among-patch t m n ms a x in
      (
        same,
        record {
          survivor = s;
          is_survivor = refl;
          members = ms;
          listed = or_pending-ok (observe_etcd_members names answers s) _ ms e;
          gone = gone;
        },
      )

  with_number :
      (t m : CapiMachine) (machines : List CapiMachine) (a : StringMap) (o : Option ℕ)
      → In (annotations_patched m a) (annotated_with names answers t machines o).calls
      → (m ≡ t)
        × ((n : ℕ) × (o ≡ some n) × IsGoneAmong t n (first_control_plane_survivor machines t.uid))
  unfolding annotated_with
  with_number t m machines a none c = absurd c
  with_number t m machines a (some n) c = elim (Bool-cases (n == 0)) [
    | inl b ↦ absurd (ground (arith, b, c))
    | inr b ↦
        let (same, g) =
          annotated_by-patch t m n (first_control_plane_survivor machines t.uid) a
            (ground (arith, b, c)) in
        (same, (n, refl, g))
  ]

  with_text :
      (t m : CapiMachine) (machines : List CapiMachine) (a : StringMap) (o : Option String)
      → find_key t.annotations etcd_member_id_annotation ≡ o
      → In (annotations_patched m a) (annotated_text names answers t machines o).calls
      → (m ≡ t) × IsMemberGone t machines
  unfolding annotated_text
  with_text t m machines a none e c = absurd c
  with_text t m machines a (some text) e c =
      let (same, (n, parsed, g)) = with_number t m machines a (parse_uint64 text) c in
      let (s_In, s_uid, s_stays) =
        first_control_plane_survivor_lem machines t.uid g.survivor g.is_survivor in
      (
        same,
        record {
          text = text;
          annotated = e;
          member_id = n;
          parsed = parsed;
          survivor = g.survivor;
          survivor_In = s_In;
          is_other = s_uid;
          stays = s_stays;
          members = g.members;
          listed = g.listed;
          gone = g.gone;
        },
      )

  through_patch :
      (target m : CapiMachine) (os : List EtcdObservation) (s : Summary) (t : EtcdObservation)
      (o : Option EtcdObservation) (a : StringMap)
      → In (annotations_patched m a) (remove_through names answers os s t o).calls
      → ⊥
  unfolding remove_through
  through_patch target m os s t none a c = c
  through_patch target m os s t (some v) a c =
      let (ms, e, x) =
        just-calls
          (or_pending (observe_etcd_members_from_configuration names answers v.host v.configuration)
            "EtcdSurvivorUnavailable")
          (λ ms.
            (if can_remove_observed_etcd_member ms os t.status.member_id s.healthy_members t
              then remove_observed_etcd_member names answers v t.status.member_id
              else just (ok true)))
          (annotations_patched m a) c in
      elim (Bool-cases
        (can_remove_observed_etcd_member ms os t.status.member_id s.healthy_members t)) [
          | inr n ↦ ground (arith, n, x)
          | inl y ↦
              let same =
                remove_observed-calls names answers v t.status.member_id (annotations_patched m a)
                  (ground (arith, y, x)) in
              cc
        ]

  summarized_patch :
      (target m : CapiMachine) (os : List EtcdObservation) (s : Summary)
      (o : Option EtcdObservation) (a : StringMap)
      → (names.delete_hook == etcd_member_id_annotation) ≡ false
      → In (annotations_patched m a) (remove_summarized names answers target os s o).calls
      → (m ≡ target) × HookKept target a
  unfolding remove_summarized annotate_etcd_member_id HookKept
  summarized_patch target m os s none a d c = absurd c
  summarized_patch target m os s (some t) a d c =
      let annotations =
        put_key target.annotations etcd_member_id_annotation (format_nat t.status.member_id) in
      let kept : lookup_or_empty annotations names.delete_hook
          ≡ lookup_or_empty target.annotations names.delete_hook =
        lookup_or_empty-put_key_other target.annotations names.delete_hook etcd_member_id_annotation
          (format_nat t.status.member_id)
          (ground (
            arith,
            d,
            eq_iff names.delete_hook etcd_member_id_annotation,
            eq_iff etcd_member_id_annotation names.delete_hook,
          )) in
      elim (>>=-calls (patch_annotations names answers target annotations)
        (λ u. remove_through names answers os s t (first_etcd_observation os target.uid))
        (annotations_patched m a) c) [
          | inl (inl e) ↦
              let same : m ≡ target = ground (arith, e) in
              let changed : a ≡ annotations = ground (arith, e) in (same, rw changed kept)
          | inl (inr x) ↦ absurd x
          | inr (u, e, x) ↦
              absurd (through_patch target m os s t (first_etcd_observation os target.uid) a x)
        ]

  observed_patch :
      (target m : CapiMachine) (a : StringMap) (o : Result ObservationError (List EtcdObservation))
      → (names.delete_hook == etcd_member_id_annotation) ≡ false
      → In (annotations_patched m a) (remove_observed names answers target o).calls
      → (m ≡ target) × HookKept target a
  unfolding remove_observed
  observed_patch target m a (err x) d c = absurd c
  observed_patch target m a (ok os) d c =
      elim (Bool-cases (summarize_etcd_observations os target.uid).unique) [
        | inr n ↦ absurd (ground (arith, n, c))
        | inl u ↦
            summarized_patch target m os (summarize_etcd_observations os target.uid)
              (summarize_etcd_observations os target.uid).target a d (ground (arith, u, c))
      ]

  -- Every change of annotations in the removal of a member is one of the target, and it keeps the
  -- delete hook, unless the member whose ID the target carries was missing from the members that a
  -- machine listed which is not the target and is not being deleted.
  pub annotations_patched-IsMemberGone :
      (target m : CapiMachine) (machines : List CapiMachine) (a : StringMap)
      → (names.delete_hook == etcd_member_id_annotation) ≡ false
      → In
          (annotations_patched m a)
          (reconcile_etcd_member_removal names answers target machines).calls
      → (m ≡ target)
        × ((lookup_or_empty a names.delete_hook
              ≡ lookup_or_empty target.annotations names.delete_hook)
            ⊎ IsMemberGone target machines)
  unfolding reconcile_etcd_member_removal unless_annotated remove_observed
      reconcile_annotated_etcd_member HookKept
  annotations_patched-IsMemberGone target m machines a d c =
      elim (Bool-cases (machine_waiting_for_hook names target)) [
        | inr n ↦ absurd (ground (arith, n, c))
        | inl w ↦
            elim (>>=-calls (reconcile_annotated_etcd_member names answers target machines)
              (unless_annotated names answers target machines) (annotations_patched m a)
              (ground (arith, w, c))) [
                | inl x ↦
                    let (same, gone) =
                      with_text target m machines a
                        (find_key target.annotations etcd_member_id_annotation) refl x in
                    (same, inr gone)
                | inr (some handled, e, x) ↦ absurd x
                | inr (none, e, x) ↦
                    let (same, kept) =
                      observed_patch target m a (observe_etcd_machines names answers machines) d
                        x in
                    (same, inl kept)
              ]
      ]

  -- Once a machine that waits for its hook carries the ID of its etcd member, as this code writes
  -- it, and a machine that stays still lists that member, a reconciliation makes no call and says
  -- that nothing is pending: the removal is not requested again.
  pub annotated_member_not_retried :
      (target survivor : CapiMachine) (machines : List CapiMachine) (before : StringMap)
      (member_id : ℕ) (members : List EtcdMember)
      → machine_waiting_for_hook names target ≡ true
      → target.annotations ≡ put_key before etcd_member_id_annotation (format_nat member_id)
      → member_id ≢ 0
      → member_id < 2 ^ 64
      → first_control_plane_survivor machines target.uid ≡ some survivor
      → observe_etcd_members names answers survivor ≡ ok members
      → contains_etcd_member members member_id ≡ true
      → reconcile_etcd_member_removal names answers target machines ≡ just (ok false)
  unfolding reconcile_etcd_member_removal reconcile_annotated_etcd_member annotated_text
      annotated_with annotated_by annotated_among unless_annotated
  annotated_member_not_retried target survivor machines before member_id members w a z b s l c =
      let found : find_key target.annotations etcd_member_id_annotation
          ≡ some (format_nat member_id) =
        ap (λ m. find_key m etcd_member_id_annotation) a
        ∙ find_key-put_key before etcd_member_id_annotation (format_nat member_id) in
      let parsed = parse_uint64-format_nat member_id b in
      let nonzero : (member_id == 0) ≡ false = ground (arith, z) in
      rw (w, found, parsed, nonzero, s, l, c) refl
