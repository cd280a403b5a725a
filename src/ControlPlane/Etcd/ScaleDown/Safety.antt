-- ===== src/ControlPlane/Etcd/ScaleDown/Safety.antt =====
-- What a scale-down deletes, and which etcd members it removes.
use cluster_api_provider_tar.Base.{
  ℕ, ◌≡◌, refl, ap, subst, inl, inr, Bool, true, false, not, Option, none, some, List, arith,
  comparable_nat, comparable_text, comparable_list, Bool-cases, Option-cases, length, keep, In,
}
use cluster_api_provider_tar.Base.Int.{ℤ, pos, ◌<?◌}
use cluster_api_provider_tar.Base.Result.{ok}
use cluster_api_provider_tar.Base.Run.{just, call, ◌>>=◌, >>=-calls}
use cluster_api_provider_tar.Api.Meta.{lookup_or_empty}
use cluster_api_provider_tar.Api.Host.{TartHost}
use cluster_api_provider_tar.Api.Machine.{CapiMachine}
use cluster_api_provider_tar.ControlPlane.Etcd.{EtcdNames, EtcdAnswers, delete_hook_value}
use cluster_api_provider_tar.ControlPlane.Etcd.Removal.{
  EtcdCall, annotations_patched, machine_deleted, member_removed,
}
use cluster_api_provider_tar.ControlPlane.Etcd.Removal.Calls.{reconcile-calls}
use cluster_api_provider_tar.ControlPlane.Etcd.Removal.Safety.{
  IsSafeRemoval, member_removed-IsSafeRemoval,
}
use cluster_api_provider_tar.ControlPlane.Etcd.ScaleDown.{
  is_deleting, target_of, has_hook, ensure_etcd_delete_hook, delete_candidate, go_on_deleting,
  one_at_a_time, reconcile_scale_down, or_gone,
}
use cluster_api_provider_tar.ControlPlane.Etcd.ScaleDown.Order.{target_of-In}
use cluster_api_provider_tar.ControlPlane.Etcd.ScaleDown.Hooked.{
  keep-In, keep_empty, keep_all, target_of-none, ensure-calls, candidate-IsHooked, IsHooked,
}

module _ (names : EtcdNames) (answers : EtcdAnswers) where
  -- The deletion of one machine too many.
  pub record IsSafeDeletion (machines : List CapiMachine) (desired : ℤ) (m : CapiMachine)
      : Type 0 where
    pub too_many : (desired <? pos (length machines)) ≡ true
    pub none_deleting : (x : CapiMachine) → In x machines → is_deleting x ≡ false
    pub target : CapiMachine
    pub first : target_of machines ≡ some target
    pub target_In : In target machines
    pub same_name : m.name ≡ target.name
    pub same_uid : m.uid ≡ target.uid
    pub has_delete_hook : lookup_or_empty m.annotations names.delete_hook ≡ delete_hook_value

  -- The removal of a member for the machine that goes first.
  pub record IsMemberOfFirst (machines : List CapiMachine) (desired : ℤ) (h : TartHost) (i : ℕ)
      : Type 0 where
    pub too_many : (desired <? pos (length machines)) ≡ true
    pub target : CapiMachine
    pub first : target_of (keep is_deleting machines) ≡ some target
    pub target_In : In target machines
    pub deleting : is_deleting target ≡ true
    pub has_delete_hook : has_hook names answers target ≡ true
    pub safe : IsSafeRemoval names answers target machines h i

  abbrev NoDeletion : EtcdCall → Type 0
  NoDeletion (member_removed h i) = Unit
  NoDeletion (annotations_patched m a) = Unit
  NoDeletion (machine_deleted m) = ⊥

  deleting-no_deletion :
      (machines : List CapiMachine) (t m : CapiMachine)
      → In (machine_deleted m) (go_on_deleting names answers machines t).calls
      → ⊥
  unfolding go_on_deleting
  deleting-no_deletion machines t m i = elim (Bool-cases (has_hook names answers t)) [
    | inl b ↦
        reconcile-calls names answers NoDeletion t (λ a. tt) (λ h n. tt) machines
          (machine_deleted m) (ground (arith, b, i))
    | inr b ↦
        elim (>>=-calls (ensure_etcd_delete_hook names answers t) (λ hooked. just (ok true))
          (machine_deleted m) (ground (arith, b, i))) [
            | inl x ↦ let e = ensure-calls names answers t (machine_deleted m) x in cc
            | inr (u, e, x) ↦ x
          ]
  ]

  candidate-no_removal :
      (o : Option CapiMachine) (h : TartHost) (n : ℕ)
      → In (member_removed h n) (delete_candidate names answers o).calls
      → ⊥
  unfolding delete_candidate
  candidate-no_removal none h n i = i
  candidate-no_removal (some t) h n i =
      elim (>>=-calls (ensure_etcd_delete_hook names answers t)
        (λ hooked.
          ◌>>=◌ {A = Unit {0}}
            (call (machine_deleted hooked) (or_gone (answers.delete_machine hooked)))
            (λ done. just (ok true)))
        (member_removed h n) i) [
          | inl x ↦ let e = ensure-calls names answers t (member_removed h n) x in cc
          | inr (hooked, e, x) ↦
              elim (>>=-calls
                (call (machine_deleted hooked) (or_gone (answers.delete_machine hooked)))
                (λ done. just (ok true)) (member_removed h n) x) [
                  | inl (inl k) ↦ cc
                  | inl (inr k) ↦ k
                  | inr (u, f, k) ↦ k
                ]
        ]

  unhooked :
      (t : CapiMachine) (h : TartHost) (n : ℕ)
      → In
          (member_removed h n)
          (◌>>=◌ {A = CapiMachine} {B = Bool}
            (ensure_etcd_delete_hook names answers t)
            (λ hooked. just (ok true))).calls
      → ⊥
  unhooked t h n i =
      elim (>>=-calls (ensure_etcd_delete_hook names answers t) (λ hooked. just (ok true))
        (member_removed h n) i) [
          | inl x ↦ let e = ensure-calls names answers t (member_removed h n) x in cc
          | inr (u, e, x) ↦ x
        ]

  quiet-IsSafeDeletion :
      (machines : List CapiMachine) (desired : ℤ) (m : CapiMachine) (o : Option CapiMachine)
      → (desired <? pos (length machines)) ≡ true
      → target_of (keep is_deleting machines) ≡ none
      → target_of (keep (λ x. not (is_deleting x)) machines) ≡ o
      → In (machine_deleted m) (delete_candidate names answers o).calls
      → IsSafeDeletion machines desired m
  unfolding delete_candidate IsHooked
  quiet-IsSafeDeletion machines desired m none w e k i = absurd i
  quiet-IsSafeDeletion machines desired m (some t) w e k i =
      let quiet : (x : CapiMachine) → In x machines → is_deleting x ≡ false =
        λ x j. keep_empty is_deleting x machines (target_of-none (keep is_deleting machines) e) j in
      let all : keep (λ x. not (is_deleting x)) machines ≡ machines =
        keep_all (λ x. not (is_deleting x)) machines (λ x j. ap not (quiet x j)) in
      let first : target_of machines ≡ some t = subst (λ xs. target_of xs ≡ some t) all k in
      let (n, u, a) = candidate-IsHooked names answers t m i in
      record {
        too_many = w;
        none_deleting = quiet;
        target = t;
        first = first;
        target_In = target_of-In machines t first;
        same_name = n;
        same_uid = u;
        has_delete_hook = a;
      }

  -- A scale-down deletes a machine only when there are more machines than desired and none of them
  -- is being deleted, and it deletes the one that goes first, with the etcd delete hook on it.
  pub machine_deleted-IsSafeDeletion :
      (machines : List CapiMachine) (desired : ℤ) (m : CapiMachine)
      → In (machine_deleted m) (reconcile_scale_down names answers machines desired).calls
      → IsSafeDeletion machines desired m
  unfolding reconcile_scale_down one_at_a_time
  machine_deleted-IsSafeDeletion machines desired m i =
      elim (Bool-cases (desired <? pos (length machines))) [
        | inr b ↦ absurd (ground (arith, b, i))
        | inl w ↦ elim (Option-cases (target_of (keep is_deleting machines))) [
          | inl e ↦
              quiet-IsSafeDeletion machines desired m
                (target_of (keep (λ x. not (is_deleting x)) machines)) w e refl
                (ground (arith, w, e, i))
          | inr (t, e) ↦ absurd (deleting-no_deletion machines t m (ground (arith, w, e, i)))
        ]
      ]

  -- A scale-down removes an etcd member only when there are more machines than desired, for the
  -- machine under deletion that goes first and that has the delete hook, and only as a removal
  -- that is safe.
  pub member_removed-IsMemberOfFirst :
      (machines : List CapiMachine) (desired : ℤ) (h : TartHost) (n : ℕ)
      → In (member_removed h n) (reconcile_scale_down names answers machines desired).calls
      → IsMemberOfFirst machines desired h n
  unfolding reconcile_scale_down one_at_a_time go_on_deleting
  member_removed-IsMemberOfFirst machines desired h n i =
      elim (Bool-cases (desired <? pos (length machines))) [
        | inr b ↦ absurd (ground (arith, b, i))
        | inl w ↦ elim (Option-cases (target_of (keep is_deleting machines))) [
          | inl e ↦ absurd (
              candidate-no_removal (target_of (keep (λ x. not (is_deleting x)) machines)) h n
                (ground (arith, w, e, i)))
          | inr (t, e) ↦
              let (t_In, d) =
                keep-In is_deleting t machines (target_of-In (keep is_deleting machines) t e) in
              elim (Bool-cases (has_hook names answers t)) [
                | inl k ↦ record {
                  too_many = w;
                  target = t;
                  first = e;
                  target_In = t_In;
                  deleting = d;
                  has_delete_hook = k;
                  safe =
                      member_removed-IsSafeRemoval names answers t machines h n
                        (ground (arith, w, e, k, i));
                }
                | inr k ↦ absurd (unhooked t h n (ground (arith, w, e, k, i)))
              ]
        ]
      ]
