-- ===== src/Host/Identity/Conflicts.antt =====
-- Conflicts between two hosts, and in a list of hosts.
use cluster_api_provider_tar.Base.{
  String, ◌≡◌, refl, sym, ap, subst, ◌⊎◌, inl, inr, Bool, true, false, not, ◌&&◌, Option, none,
  some, List, [], ◌∷◌, ◌++◌, arith, eq_iff, comparable_nat, comparable_text, comparable_list,
  Bool-cases, any, In, trim_space,
}
use cluster_api_provider_tar.Api.Meta.{Uuid, comparable_mac, mac_beq_iff}
use cluster_api_provider_tar.Api.Host.{TartHost, DiskInventory, HostInventory}
use cluster_api_provider_tar.Host.Identity.{
  same_mac_address, same_identity, same_disk_identity, disk_identity_conflict, same_object,
  inventories_clash, clash, has_identity_conflict, within, conflict_among,
  has_identity_conflict_for_any,
}
use cluster_api_provider_tar.Host.Identity.Sharing.{
  any_intro, NoConflict, shares-clash, IsApart-within, different_objects,
}

any_elim :
    {A : Type 0} (p : A → Bool) (xs : List A) → any p xs ≡ true → (x : A) × In x xs × (p x ≡ true)
any_elim p [] h = cc
any_elim p (y ∷ xs) h = elim (Bool-cases (p y)) [
  | inl e ↦ (y, inl refl, e)
  | inr e ↦ let (x, m, k) = any_elim p xs (ground arith) in (x, inr m, k)
]

module _ (parse : String → Option Uuid) (equal_fold : String → String → Bool) where
  has_identity_conflict-none :
      (host : TartHost) (hosts : List TartHost) (other : TartHost)
      → has_identity_conflict parse equal_fold host hosts ≡ false
      → In other hosts
      → same_object parse equal_fold host other ≡ false
      → clash parse equal_fold host other ≡ false
  unfolding has_identity_conflict
  has_identity_conflict-none host hosts other h m d =
      elim (Bool-cases (clash parse equal_fold host other)) [
        | inr n ↦ n
        | inl c ↦
            let k =
              any_intro
                (λ g. not (same_object parse equal_fold host g) && clash parse equal_fold host g)
                hosts other m (rw (d, c) refl) in
            absurd (ground (arith, h, k))
      ]

  In-snoc : (b c : TartHost) (xs : List TartHost) → In b xs ⊎ (b ≡ c) → In b (xs ++ (c ∷ []))
  In-snoc b c [] (inl m) = absurd m
  In-snoc b c [] (inr e) = inl e
  In-snoc b c (x ∷ xs) (inl (inl e)) = inl e
  In-snoc b c (x ∷ xs) (inl (inr m)) = inr (In-snoc b c xs (inl m))
  In-snoc b c (x ∷ xs) (inr e) = inr (In-snoc b c xs (inr e))

  -- What a loop that has reported nothing has compared.
  record Compared (earlier later : List TartHost) : Type 0 where
    alone : (a : TartHost) → In a later → within parse equal_fold a.status.inventory ≡ false
    apart :
        (a b : TartHost)
        → In a later
        → In b earlier ⊎ In b later
        → same_object parse equal_fold a b ≡ false
        → clash parse equal_fold a b ≡ false

  conflict_among-Compared :
      (earlier later : List TartHost)
      → conflict_among parse equal_fold earlier later ≡ false
      → Compared earlier later
  unfolding conflict_among
  conflict_among-Compared earlier [] h = record {
    alone = λ a m. absurd m;
    apart = λ a b m n d. absurd m;
  }
  conflict_among-Compared earlier (c ∷ later) h =
      let rest = conflict_among-Compared (earlier ++ (c ∷ [])) later (ground (arith, h)) in
      let after : has_identity_conflict parse equal_fold c later ≡ false = ground (arith, h) in
      let before : has_identity_conflict parse equal_fold c earlier ≡ false = ground (arith, h) in
      let own : within parse equal_fold c.status.inventory ≡ false = ground (arith, h) in
      record {
        alone = λ a m. elim m [
          | inl q ↦ subst (λ x. within parse equal_fold x.status.inventory ≡ false) (sym q) own
          | inr n ↦ rest.alone a n
        ];
        apart = λ a b m n d. elim m [
          | inl q ↦
              subst
                (λ x. same_object parse equal_fold x b ≡ false → clash parse equal_fold x b ≡ false)
                (sym q)
                (λ differ. elim n [
                  | inl k ↦ has_identity_conflict-none c earlier b before k differ
                  | inr (inl r) ↦ absurd (itself c b r differ)
                  | inr (inr k) ↦ has_identity_conflict-none c later b after k differ
                ])
                d
          | inr k ↦ rest.apart a b k (place b n) d
        ];
      }
    where
      itself : (c b : TartHost) → b ≡ c → same_object parse equal_fold c b ≡ false → ⊥
      itself c b r d = ground (
        arith,
        ap (λ h. h.name) r,
        ap (λ h. h.namespace) r,
        eq_iff b.name c.name,
        eq_iff b.namespace c.namespace,
        d,
      )

      place :
          (b : TartHost) → In b earlier ⊎ In b (c ∷ later) → In b (earlier ++ (c ∷ [])) ⊎ In b later
      place b (inl k) = inl (In-snoc b c earlier (inl k))
      place b (inr (inl r)) = inl (In-snoc b c earlier (inr r))
      place b (inr (inr k)) = inr k

  -- When no conflict is reported for a list, no two of its hosts that are different objects share a
  -- set MAC address, a system UUID that is not nil, or a disk (by WWID up to case, or by serial
  -- number), and no host lists one disk twice.
  pub has_identity_conflict_for_any_lem :
      (hosts : List TartHost)
      → has_identity_conflict_for_any parse equal_fold hosts ≡ false
      → NoConflict parse equal_fold hosts
  unfolding has_identity_conflict_for_any
  has_identity_conflict_for_any_lem hosts h =
      let k = conflict_among-Compared [] hosts h in
      (
        λ a b m n d shared.
            let c : clash parse equal_fold a b ≡ false =
              k.apart a b m (inr n) (different_objects parse equal_fold a b d) in
            absurd (ground (arith, c, shares-clash parse equal_fold a b shared)),
        λ a x m e. IsApart-within parse equal_fold a.status.inventory x (k.alone a m) e,
      )

  module _ (fold_sym : (a b : String) → equal_fold a b ≡ true → equal_fold b a ≡ true) where
    same_disk_identity_sym :
        (l r : DiskInventory)
        → same_disk_identity parse equal_fold l r ≡ true
        → same_disk_identity parse equal_fold r l ≡ true
    unfolding same_disk_identity
    same_disk_identity_sym l r h = ground (
      arith,
      fold_sym (trim_space l.wwid) (trim_space r.wwid),
      eq_iff (trim_space l.serial) (trim_space r.serial),
      eq_iff (trim_space r.serial) (trim_space l.serial),
    )

    disk_identity_conflict_sym :
        (xs ys : List DiskInventory)
        → disk_identity_conflict parse equal_fold xs ys ≡ true
        → disk_identity_conflict parse equal_fold ys xs ≡ true
    unfolding disk_identity_conflict
    disk_identity_conflict_sym xs ys h =
        let (l, m, k) =
          any_elim (λ l. any (λ r. same_disk_identity parse equal_fold l r) ys) xs h in
        let (r, n, e) = any_elim (λ r. same_disk_identity parse equal_fold l r) ys k in
        any_intro (λ r. any (λ l. same_disk_identity parse equal_fold r l) xs) ys r n
          (any_intro (λ l. same_disk_identity parse equal_fold r l) xs l m
            (same_disk_identity_sym l r e))

    same_identity_sym :
        (a b : String)
        → same_identity parse equal_fold a b ≡ true
        → same_identity parse equal_fold b a ≡ true
    unfolding same_identity
    same_identity_sym a b h = ground arith

    inventories_sym :
        (x y : Option HostInventory)
        → inventories_clash parse equal_fold x y ≡ true
        → inventories_clash parse equal_fold y x ≡ true
    inventories_sym none y h = ground (arith, h)
    inventories_sym (some x) none h = ground (arith, h)
    inventories_sym (some x) (some y) h = ground (
      arith,
      h,
      same_identity_sym x.system_uuid y.system_uuid,
      disk_identity_conflict_sym x.disks y.disks,
    )

    -- A conflict between two hosts is reported from either side, where folding case is symmetric.
    pub has_identity_conflict_sym :
        (host other : TartHost)
        → has_identity_conflict parse equal_fold host (other ∷ []) ≡ true
        → has_identity_conflict parse equal_fold other (host ∷ []) ≡ true
    unfolding clash same_mac_address has_identity_conflict
    has_identity_conflict_sym host other h = ground (
      arith,
      h,
      inventories_sym host.status.inventory other.status.inventory,
      mac_beq_iff host.spec.mac_address other.spec.mac_address,
      mac_beq_iff other.spec.mac_address host.spec.mac_address,
      eq_iff host.name other.name,
      eq_iff other.name host.name,
      eq_iff host.namespace other.namespace,
      eq_iff other.namespace host.namespace,
    )
