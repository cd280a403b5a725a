-- ===== src/Host/Identity/Sharing.antt =====
-- What two hosts may share, and that the comparisons of usecase/host/identity.go find it.
use cluster_api_provider_tar.Base.{
  String, ◌≡◌, refl, ap, subst, ◌≢◌, ◌⊎◌, inl, inr, Bool, true, false, Option, some, List, [], ◌∷◌,
  arith, eq_iff, comparable_nat, comparable_text, comparable_list, Bool-cases, any, In, trim_space,
}
use cluster_api_provider_tar.Api.Meta.{Uuid, comparable_mac, mac_beq_iff}
use cluster_api_provider_tar.Api.Host.{TartHost, DiskInventory, HostInventory}
use cluster_api_provider_tar.Host.Identity.{
  same_mac_address, same_identity, same_disk_identity, disk_identity_conflict, same_object,
  disk_identity_conflict_within, inventories_clash, clash, within,
}

pub any_intro :
    {A : Type 0} (p : A → Bool) (xs : List A) (x : A) → In x xs → p x ≡ true → any p xs ≡ true
any_intro p [] x m e = absurd m
any_intro p (y ∷ xs) x (inl q) e = let k : p y ≡ true = subst (λ z. p z ≡ true) q e in rw k refl
any_intro p (y ∷ xs) x (inr m) e = ground (arith, any_intro p xs x m e)

module _ (parse : String → Option Uuid) (equal_fold : String → String → Bool) where
  -- One disk, by its WWID or by its serial number.
  abbrev pub IsSameDisk : DiskInventory → DiskInventory → Type 0
  IsSameDisk l r =
      ((trim_space l.wwid ≢ "")
        × (trim_space r.wwid ≢ "")
        × (equal_fold (trim_space l.wwid) (trim_space r.wwid) ≡ true))
      ⊎ ((trim_space l.serial ≢ "") × (trim_space l.serial ≡ trim_space r.serial))

  abbrev pub SharesMac : TartHost → TartHost → Type 0
  SharesMac a b = (a.spec.mac_address.is_set ≡ true) × (a.spec.mac_address ≡ b.spec.mac_address)

  abbrev pub SharesUuid : HostInventory → HostInventory → Type 0
  SharesUuid x y =
      (u : Uuid) × (u ≢ 0) × (parse x.system_uuid ≡ some u) × (parse y.system_uuid ≡ some u)

  abbrev pub SharesDisk : HostInventory → HostInventory → Type 0
  SharesDisk x y =
      (l : DiskInventory) × (r : DiskInventory) × In l x.disks × In r y.disks × IsSameDisk l r

  abbrev pub SharesInventory : TartHost → TartHost → Type 0
  SharesInventory a b =
      (x : HostInventory) × (y : HostInventory) × (a.status.inventory ≡ some x)
      × (b.status.inventory ≡ some y)
      × (SharesUuid x y ⊎ SharesDisk x y)

  abbrev pub IsApart : List DiskInventory → Type 0
  IsApart [] = Unit {0}
  IsApart (d ∷ ds) = ((e : DiskInventory) → In e ds → IsSameDisk d e → ⊥) × IsApart ds

  -- No two hosts of the list that are different objects share an identity, and no host has two
  -- disks with one identity.
  abbrev pub NoConflict : List TartHost → Type 0
  NoConflict hosts =
      ((a b : TartHost)
        → In a hosts
        → In b hosts
        → ((a.name ≡ b.name) × (a.namespace ≡ b.namespace) → ⊥)
        → SharesMac a b ⊎ SharesInventory a b
        → ⊥)
      × ((a : TartHost) (x : HostInventory)
          → In a hosts
          → a.status.inventory ≡ some x
          → IsApart x.disks)

  same_disk-true :
      (l r : DiskInventory) → IsSameDisk l r → same_disk_identity parse equal_fold l r ≡ true
  unfolding same_disk_identity
  same_disk-true l r h = ground (
    arith,
    h,
    eq_iff (trim_space l.wwid) "",
    eq_iff (trim_space r.wwid) "",
    eq_iff (trim_space l.serial) "",
    eq_iff (trim_space r.serial) "",
    eq_iff (trim_space l.serial) (trim_space r.serial),
  )

  disks-true :
      (xs ys : List DiskInventory) (l r : DiskInventory)
      → In l xs
      → In r ys
      → IsSameDisk l r
      → disk_identity_conflict parse equal_fold xs ys ≡ true
  unfolding disk_identity_conflict
  disks-true xs ys l r m n h =
      any_intro (λ k. any (λ e. same_disk_identity parse equal_fold k e) ys) xs l m
        (any_intro (λ e. same_disk_identity parse equal_fold l e) ys r n (same_disk-true l r h))

  uuid-true :
      (x y : HostInventory)
      → SharesUuid x y
      → same_identity parse equal_fold x.system_uuid y.system_uuid ≡ true
  unfolding same_identity
  uuid-true x y (u, n, p, q) = ground (arith, n, p, q)

  inventories-true :
      (x y : HostInventory)
      → SharesUuid x y ⊎ SharesDisk x y
      → inventories_clash parse equal_fold (some x) (some y) ≡ true
  inventories-true x y (inl h) = ground (arith, uuid-true x y h)
  inventories-true x y (inr (l, r, m, n, h)) = ground (arith, disks-true x.disks y.disks l r m n h)

  pub shares-clash :
      (a b : TartHost) → SharesMac a b ⊎ SharesInventory a b → clash parse equal_fold a b ≡ true
  unfolding clash same_mac_address
  shares-clash a b (inl h) =
      ground (arith, h, ap (λ m. m.is_set) h.1, mac_beq_iff a.spec.mac_address b.spec.mac_address)
  shares-clash a b (inr (x, y, p, q, h)) = rw (p, q) (ground (arith, inventories-true x y h))

  within-IsApart :
      (disks : List DiskInventory)
      → disk_identity_conflict_within parse equal_fold disks ≡ false
      → IsApart disks
  unfolding disk_identity_conflict_within
  within-IsApart [] h = tt
  within-IsApart (d ∷ ds) h = (
    (λ e m same. absurd (ground (arith, h, disks-true (d ∷ []) ds d e (inl refl) m same))),
    within-IsApart ds (ground (arith, h)),
  )

  pub IsApart-within :
      (i : Option HostInventory) (x : HostInventory)
      → within parse equal_fold i ≡ false
      → i ≡ some x
      → IsApart x.disks
  IsApart-within i x h e =
      within-IsApart x.disks (subst (λ j. within parse equal_fold j ≡ false) e h)

  pub different_objects :
      (a b : TartHost)
      → ((a.name ≡ b.name) × (a.namespace ≡ b.namespace) → ⊥)
      → same_object parse equal_fold a b ≡ false
  different_objects a b d = elim (Bool-cases (same_object parse equal_fold a b)) [
    | inr n ↦ n
    | inl y ↦ absurd (
        d (
          ground (arith, y, eq_iff b.name a.name),
          ground (arith, y, eq_iff b.namespace a.namespace),
        ))
  ]
