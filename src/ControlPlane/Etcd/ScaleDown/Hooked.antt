-- ===== src/ControlPlane/Etcd/ScaleDown/Hooked.antt =====
-- How the machine that goes first gets its delete hook.
use cluster_api_provider_tar.Base.{
  ◌≡◌, refl, sym, subst, ◌⊎◌, inl, inr, Bool, true, false, none, some, List, [], ◌∷◌, arith, eq_iff,
  comparable_nat, comparable_text, comparable_list, Bool-cases, keep, In,
}
use cluster_api_provider_tar.Base.Result.{ok, Result-cases}
use cluster_api_provider_tar.Base.Sort.{sort, In-sort}
use cluster_api_provider_tar.Base.Run.{just, call, ◌>>=◌, >>=-calls}
use cluster_api_provider_tar.Api.Meta.{put_key, lookup_or_empty}
use cluster_api_provider_tar.Api.Maps.{lookup_or_empty-put_key}
use cluster_api_provider_tar.Api.Machine.{CapiMachine}
use cluster_api_provider_tar.ControlPlane.Etcd.{EtcdNames, EtcdAnswers, delete_hook_value}
use cluster_api_provider_tar.ControlPlane.Etcd.Removal.{
  EtcdCall, annotations_patched, machine_deleted, patch_annotations,
}
use cluster_api_provider_tar.ControlPlane.Etcd.ScaleDown.{
  target_of, has_hook, ensure_etcd_delete_hook, delete_candidate, or_gone, first_machine,
  machine_before,
}

pub keep-In :
    {A : Type 0} (p : A → Bool) (x : A) (xs : List A) → In x (keep p xs) → In x xs × (p x ≡ true)
keep-In p x [] i = absurd i
keep-In p x (y ∷ xs) i = elim (Bool-cases (p y)) [
  | inr n ↦ let (j, h) = keep-In p x xs (ground (arith, n, i)) in (inr j, h)
  | inl b ↦
      let found : (x ≡ y) ⊎ In x (keep p xs) = ground (arith, b, i) in
      elim found [ inl e ↦ (inl e, rw e b) | inr j ↦ let (k, h) = keep-In p x xs j in (inr k, h) ]
]

pub keep_empty :
    {A : Type 0} (p : A → Bool) (x : A) (xs : List A) → keep p xs ≡ [] → In x xs → p x ≡ false
keep_empty p x [] e i = absurd i
keep_empty p x (y ∷ xs) e (inl s) = rw s (ground (arith, e))
keep_empty p x (y ∷ xs) e (inr i) = keep_empty p x xs (ground (arith, e)) i

pub keep_all :
    {A : Type 0} (p : A → Bool) (xs : List A) → ((x : A) → In x xs → p x ≡ true) → keep p xs ≡ xs
keep_all p [] h = refl
keep_all p (y ∷ xs) h = rw (h y (inl refl), keep_all p xs (λ x i. h x (inr i))) refl

pub target_of-none : (ms : List CapiMachine) → target_of ms ≡ none → ms ≡ []
unfolding target_of
target_of-none [] h = refl
target_of-none (m ∷ ms) h =
    absurd
      (no_first (sort machine_before (m ∷ ms)) h (In-sort machine_before m (m ∷ ms) (inl refl)))
  where
    no_first : (xs : List CapiMachine) → first_machine xs ≡ none → In m xs → ⊥
    no_first [] e i = i
    no_first (x ∷ xs) e i = cc

abbrev hooked_with : EtcdNames → CapiMachine → CapiMachine
hooked_with names t = record t {
  annotations = put_key t.annotations names.delete_hook delete_hook_value;
}

module _ (names : EtcdNames) (answers : EtcdAnswers) where
  pub ensure-calls :
      (t : CapiMachine) (c : EtcdCall)
      → In c (ensure_etcd_delete_hook names answers t).calls
      → c ≡ annotations_patched t (put_key t.annotations names.delete_hook delete_hook_value)
  unfolding ensure_etcd_delete_hook
  ensure-calls t c i =
      let a = put_key t.annotations names.delete_hook delete_hook_value in
      elim (Bool-cases (has_hook names answers t)) [
        | inl b ↦ absurd (ground (arith, b, i))
        | inr n ↦
            elim (>>=-calls (patch_annotations names answers t a)
              (λ u. just (ok (record t { annotations = a }))) c (ground (arith, n, i))) [
                | inl (inl e) ↦ e
                | inl (inr x) ↦ absurd x
                | inr (u, e, x) ↦ absurd x
              ]
      ]

  -- The machine as it is after its hook is set.
  unfoldable pub IsHooked : CapiMachine → CapiMachine → Type 0
  IsHooked t m =
      (m.name ≡ t.name)
      × (m.uid ≡ t.uid)
      × (lookup_or_empty m.annotations names.delete_hook ≡ delete_hook_value)

  ensure-IsHooked :
      (t m : CapiMachine) → (ensure_etcd_delete_hook names answers t).result ≡ ok m → IsHooked t m
  unfolding ensure_etcd_delete_hook IsHooked
  ensure-IsHooked t m h = elim (Bool-cases (has_hook names answers t)) [
    | inl b ↦
        let same : t ≡ m = ground (arith, b, h) in
        subst
          (λ x.
            (x.name ≡ t.name)
            × (x.uid ≡ t.uid)
            × (lookup_or_empty x.annotations names.delete_hook ≡ delete_hook_value))
          same
          (
            refl,
            refl,
            ground (
              arith,
              b,
              eq_iff (lookup_or_empty t.annotations names.delete_hook) delete_hook_value,
            ),
          )
    | inr n ↦
        let same : hooked_with names t ≡ m =
          elim (Result-cases (
            answers.patch_annotations t
              (put_key t.annotations names.delete_hook delete_hook_value))) [
                | inl (u, e) ↦ ground (arith, n, e, h)
                | inr (x, e) ↦ absurd (ground (arith, n, e, h))
              ] in
        subst
          (λ x.
            (x.name ≡ t.name)
            × (x.uid ≡ t.uid)
            × (lookup_or_empty x.annotations names.delete_hook ≡ delete_hook_value))
          same
          (refl, refl, lookup_or_empty-put_key t.annotations names.delete_hook delete_hook_value)
  ]

  pub candidate-IsHooked :
      (t m : CapiMachine)
      → In (machine_deleted m) (delete_candidate names answers (some t)).calls
      → IsHooked t m
  unfolding delete_candidate
  candidate-IsHooked t m i =
      elim (>>=-calls (ensure_etcd_delete_hook names answers t)
        (λ hooked.
          ◌>>=◌ {A = Unit {0}}
            (call (machine_deleted hooked) (or_gone (answers.delete_machine hooked)))
            (λ done. just (ok true)))
        (machine_deleted m) i) [
          | inl x ↦ let e = ensure-calls t (machine_deleted m) x in cc
          | inr (hooked, e, x) ↦
              elim (>>=-calls
                (call (machine_deleted hooked) (or_gone (answers.delete_machine hooked)))
                (λ done. just (ok true)) (machine_deleted m) x) [
                  | inl (inl k) ↦
                      let same : hooked ≡ m = ground (arith, k) in
                      ensure-IsHooked t m (rw (sym same) e)
                  | inl (inr k) ↦ absurd k
                  | inr (u, f, k) ↦ absurd k
                ]
        ]
