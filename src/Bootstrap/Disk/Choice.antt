-- ===== src/Bootstrap/Disk/Choice.antt =====
-- What the choice of a disk promises.

use cluster_api_provider_tar.Base.{
  String, ◌≡◌, refl, sym, subst, ◌↔◌, inl, inr, Bool, true, false, some, List, [], ◌∷◌, arith,
  comparable_nat, comparable_text, comparable_list, Bool-cases, Option-cases, keep, In,
}
use cluster_api_provider_tar.Base.Result.{ok, err, ok-injective}
use cluster_api_provider_tar.Bootstrap.Disk.{
  DiskIdentity, DiskError, disk_selection_unavailable, unique_disk_selector, is_usable,
  select_candidate, select_disk,
}
use cluster_api_provider_tar.Bootstrap.Disk.Selectors.{Pins, unique_disk_selector-Pins}

module _ (quote : String → String) where
  In-kept :
      (p : DiskIdentity → Bool) (disks : List DiskIdentity) (d : DiskIdentity)
      → In d (keep p disks)
      → In d disks × (p d ≡ true)
  In-kept p [] d m = absurd m
  In-kept p (x ∷ disks) d m = elim (Bool-cases (p x)) [
    | inl e ↦ ground (arith, In-kept p disks d)
    | inr e ↦ ground (arith, In-kept p disks d)
  ]

  kept_In :
      (p : DiskIdentity → Bool) (disks : List DiskIdentity) (d : DiskIdentity)
      → In d disks
      → p d ≡ true
      → In d (keep p disks)
  kept_In p [] d m e = absurd m
  kept_In p (x ∷ disks) d (inl q) e =
      let k : p x ≡ true = subst (λ y. p y ≡ true) q e in rw k (inl q)
  kept_In p (x ∷ disks) d (inr n) e = elim (Bool-cases (p x)) [
    | inl k ↦ rw k (inr (kept_In p disks d n e))
    | inr k ↦ rw k (kept_In p disks d n e)
  ]

  -- The disk that is chosen.
  pub record IsChosen (disks : List DiskIdentity) (disk : DiskIdentity) : Type 0 where
    pub listed : In disk disks
    pub usable : is_usable quote disk ≡ true
    pub only : (d : DiskIdentity) → In d disks → is_usable quote d ≡ true → d ≡ disk
    pub expression : String
    pub pinned : Pins quote disk disks expression

  -- A disk that is selected is the only usable one of the list, and there is an expression that
  -- matches it and no other disk of the list.
  pub select_disk-IsChosen :
      (disks : List DiskIdentity) (disk : DiskIdentity)
      → select_disk quote disks ≡ ok disk
      → IsChosen disks disk
  unfolding select_disk select_candidate
  select_disk-IsChosen disks disk h = go (keep (is_usable quote) disks) refl h
    where
      chosen :
          (d : DiskIdentity) (e : String)
          → keep (is_usable quote) disks ≡ d ∷ []
          → unique_disk_selector quote d disks ≡ some e
          → IsChosen disks d
      chosen d e k u =
          let (m, us) =
            In-kept (is_usable quote) disks d (subst (λ xs. In d xs) (sym k) (inl refl)) in
          record {
            listed = m;
            usable = us;
            only = λ c n v. elim (subst (λ xs. In c xs) k (kept_In (is_usable quote) disks c n v)) [
              | inl q ↦ q
              | inr x ↦ absurd x
            ];
            expression = e;
            pinned = unique_disk_selector-Pins quote d disks e m (ground (arith, us)) u;
          }

      go :
          (xs : List DiskIdentity)
          → keep (is_usable quote) disks ≡ xs
          → select_candidate quote disks xs ≡ ok disk
          → IsChosen disks disk
      go [] k e = cc
      go (d ∷ c ∷ xs) k e = cc
      go (d ∷ []) k e = elim (Option-cases (unique_disk_selector quote d disks)) [
        | inl u ↦ absurd (ground (arith, u, e))
        | inr (x, u) ↦
            subst (IsChosen disks) (ok-injective {E = DiskError} (ground (arith, u, e)))
              (chosen d x k u)
      ]

  -- No disk is available exactly when none of the list is usable.
  pub select_disk_unavailable_iff :
      (disks : List DiskIdentity)
      → (select_disk quote disks ≡ err disk_selection_unavailable)
        ↔ ((d : DiskIdentity) → In d disks → is_usable quote d ≡ false)
  unfolding select_disk select_candidate
  select_disk_unavailable_iff disks = (
    (λ h d m. elim (Bool-cases (is_usable quote d)) [
      | inl e ↦
          absurd (empty (keep (is_usable quote) disks) d h (kept_In (is_usable quote) disks d m e))
      | inr e ↦ e
    ]),
    (λ n. back (keep (is_usable quote) disks) refl n),
  )
    where
      empty :
          (xs : List DiskIdentity) (d : DiskIdentity)
          → select_candidate quote disks xs ≡ err disk_selection_unavailable
          → In d xs
          → ⊥
      empty [] d h m = m
      empty (x ∷ []) d h m = ground (arith, h)
      empty (x ∷ y ∷ ys) d h m = cc

      back :
          (xs : List DiskIdentity)
          → keep (is_usable quote) disks ≡ xs
          → ((d : DiskIdentity) → In d disks → is_usable quote d ≡ false)
          → select_candidate quote disks xs ≡ err disk_selection_unavailable
      back [] k n = refl
      back (x ∷ xs) k n =
          let (m, u) =
            In-kept (is_usable quote) disks x (subst (λ ys. In x ys) (sym k) (inl refl)) in
          let f : is_usable quote x ≡ false = n x m in absurd (ground (arith, u, f))
