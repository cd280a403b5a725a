-- ===== src/Bootstrap/Disk/Selectors.antt =====
-- What the selectors of a disk match.
use cluster_api_provider_tar.Base.Format.{concat}
use cluster_api_provider_tar.Base.{
  String, ◌≡◌, refl, sym, ap, subst, ◌∙◌, ◌⊎◌, inl, inr, Bool, true, false, not, some, List, [],
  ◌∷◌, ◌++◌, arith, if◌then◌else◌, ◌==◌, comparable_nat, comparable_text, comparable_list, ==_refl,
  Bool-cases, count_if, In, is_blank,
}
use cluster_api_provider_tar.Bootstrap.Disk.{
  DiskIdentity, DiskSelector, disk_selectors_for, first_unique, unique_disk_selector, unless_blank,
  Draft, finish, also, by_wwid, by_serial, by_bus_path, by_kind, base, with_model, serial_only,
  bus_path_only,
}

In-++ : {A : Type 0} (a : A) (xs ys : List A) → In a (xs ++ ys) → In a xs ⊎ In a ys
In-++ a [] ys m = inr m
In-++ a (x ∷ xs) ys (inl e) = inl (inl e)
In-++ a (x ∷ xs) ys (inr m) = elim (In-++ a xs ys m) [ inl n ↦ inl (inr n) | inr n ↦ inr n ]

-- A test that one entry passes tells its entries apart from all others.
none_counted :
    (p : DiskIdentity → Bool) (xs : List DiskIdentity) (a : DiskIdentity)
    → count_if p xs ≡ 0
    → In a xs
    → p a ≡ true
    → ⊥
none_counted p [] a c m e = m
none_counted p (x ∷ xs) a c (inl q) e =
    let k : p x ≡ true = subst (λ y. p y ≡ true) q e in ground arith
none_counted p (x ∷ xs) a c (inr m) e = ground (arith, none_counted p xs a)

one_counted :
    (p : DiskIdentity → Bool) (xs : List DiskIdentity) (a b : DiskIdentity)
    → count_if p xs ≡ 1
    → In a xs
    → In b xs
    → p a ≡ true
    → p b ≡ true
    → a ≡ b
one_counted p [] a b c m n e f = absurd m
one_counted p (x ∷ xs) a b c (inl q) (inl r) e f = q ∙ sym r
one_counted p (x ∷ xs) a b c (inl q) (inr n) e f =
    let k : p x ≡ true = subst (λ y. p y ≡ true) q e in
    absurd (none_counted p xs b (ground arith) n f)
one_counted p (x ∷ xs) a b c (inr m) (inl r) e f =
    let k : p x ≡ true = subst (λ y. p y ≡ true) r f in
    absurd (none_counted p xs a (ground arith) m e)
one_counted p (x ∷ xs) a b c (inr m) (inr n) e f = elim (Bool-cases (p x)) [
  | inl k ↦ absurd (none_counted p xs a (ground arith) m e)
  | inr k ↦ one_counted p xs a b (ground arith) m n e f
]

module _ (quote : String → String) where
  -- A selector that is made of a draft matches what the draft matches.
  unless_blank-matches :
      (text : String) (d : Draft) (disk : DiskIdentity) (s : DiskSelector)
      → d.matches disk ≡ true
      → In s (unless_blank quote text d)
      → s.matches disk ≡ true
  unless_blank-matches text d disk s h m = go (is_blank text) m
    where
      go : (b : Bool) → In s (if not b then finish d ∷ [] else []) → s.matches disk ≡ true
      go true m = absurd m
      go false (inl q) = subst (λ t. t.matches disk ≡ true) (sym q) h
      go false (inr m) = absurd m

  base-matches :
      (disk : DiskIdentity) → disk.read_only ≡ false → (base quote disk).matches disk ≡ true
  base-matches disk w = ground (arith, w, ==_refl disk.size_bytes)

  also-matches :
      (d : Draft) (term : String) (test : DiskIdentity → Bool) (disk : DiskIdentity)
      → d.matches disk ≡ true
      → test disk ≡ true
      → (also d term test).matches disk ≡ true
  also-matches d term test disk h k = rw (h, k) refl

  with_model-matches :
      (disk : DiskIdentity) (d : Draft)
      → d.matches disk ≡ true
      → (with_model quote disk d).matches disk ≡ true
  with_model-matches disk d h = go (not (is_blank disk.model))
    where
      go :
          (b : Bool)
          → (if b
                then also d
                    (concat ("disk.model == " ∷ quote disk.model ∷ []))
                    (λ c. c.model == disk.model)
                else d).matches
              disk
            ≡ true
      go true =
          also-matches d (concat ("disk.model == " ∷ quote disk.model ∷ []))
            (λ c. c.model == disk.model) disk h (==_refl disk.model)
      go false = h

  by_kind-matches :
      (disk : DiskIdentity) → disk.read_only ≡ false → (by_kind quote disk).matches disk ≡ true
  by_kind-matches disk w = go disk.rotational refl
    where
      go :
          (b : Bool)
          → disk.rotational ≡ b
          → (if b
                then also
                    (with_model quote disk (base quote disk))
                    "disk.rotational"
                    (λ c. c.rotational)
                else also
                    (with_model quote disk (base quote disk))
                    "!disk.rotational"
                    (λ c. not c.rotational)).matches
              disk
            ≡ true
      go true r =
          also-matches (with_model quote disk (base quote disk)) "disk.rotational"
            (λ c. c.rotational) disk
            (with_model-matches disk (base quote disk) (base-matches disk w)) r
      go false r =
          also-matches (with_model quote disk (base quote disk)) "!disk.rotational"
            (λ c. not c.rotational) disk
            (with_model-matches disk (base quote disk) (base-matches disk w)) (ap not r)

  by_wwid-matches :
      (disk : DiskIdentity) → disk.read_only ≡ false → (by_wwid quote disk).matches disk ≡ true
  by_wwid-matches disk w = ground (arith, w, ==_refl disk.size_bytes, ==_refl disk.wwid)

  serial_only-matches :
      (disk : DiskIdentity) → disk.read_only ≡ false → (serial_only quote disk).matches disk ≡ true
  serial_only-matches disk w = ground (arith, w, ==_refl disk.size_bytes, ==_refl disk.serial)

  bus_path_only-matches :
      (disk : DiskIdentity)
      → disk.read_only ≡ false
      → (bus_path_only quote disk).matches disk ≡ true
  bus_path_only-matches disk w = ground (arith, w, ==_refl disk.size_bytes, ==_refl disk.bus_path)

  -- Every selector of a writable disk matches that disk.
  pub disk_selectors_for_self :
      (disk : DiskIdentity) (s : DiskSelector)
      → disk.read_only ≡ false
      → In s (disk_selectors_for quote disk)
      → s.matches disk ≡ true
  unfolding disk_selectors_for
  disk_selectors_for_self disk s w m =
      elim (In-++ s (unless_blank quote disk.wwid (by_wwid quote disk)) _ m) [
        | inl n ↦
            unless_blank-matches disk.wwid (by_wwid quote disk) disk s (by_wwid-matches disk w) n
        | inr m₁ ↦ elim (In-++ s (unless_blank quote disk.serial (by_serial quote disk)) _ m₁) [
          | inl n ↦
              unless_blank-matches disk.serial (by_serial quote disk) disk s
                (with_model-matches disk (serial_only quote disk) (serial_only-matches disk w)) n
          | inr m₂ ↦
              elim (In-++ s (unless_blank quote disk.bus_path (by_bus_path quote disk)) _ m₂) [
                | inl n ↦
                    unless_blank-matches disk.bus_path (by_bus_path quote disk) disk s
                      (with_model-matches disk (bus_path_only quote disk)
                        (bus_path_only-matches disk w))
                      n
                | inr (inl q) ↦ subst (λ t. t.matches disk ≡ true) (sym q) (by_kind-matches disk w)
                | inr (inr x) ↦ absurd x
              ]
        ]
      ]

  -- A selector pins a disk down: it matches that disk, and no other disk of the list.
  pub record Pins (disk : DiskIdentity) (disks : List DiskIdentity) (expression : String)
      : Type 0 where
    pub selector : DiskSelector
    pub offered : In selector (disk_selectors_for quote disk)
    pub printed : selector.expression ≡ expression
    pub hit : selector.matches disk ≡ true
    pub alone : (d : DiskIdentity) → In d disks → selector.matches d ≡ true → d ≡ disk

  first_unique-some :
      (selectors : List DiskSelector) (disks : List DiskIdentity) (e : String)
      → first_unique quote selectors disks ≡ some e
      → (s : DiskSelector) × In s selectors × (s.expression ≡ e) × (count_if s.matches disks ≡ 1)
  unfolding first_unique
  first_unique-some [] disks e h = cc
  first_unique-some (s ∷ selectors) disks e h = elim (Bool-cases (count_if s.matches disks == 1)) [
    | inl b ↦ (s, inl refl, ground arith, ground arith)
    | inr b ↦
        let (t, m, p, c) = first_unique-some selectors disks e (ground arith) in (t, inr m, p, c)
  ]

  -- The expression that is returned for a writable disk of the list matches it and no other disk
  -- of the list.
  pub unique_disk_selector-Pins :
      (disk : DiskIdentity) (disks : List DiskIdentity) (e : String)
      → In disk disks
      → disk.read_only ≡ false
      → unique_disk_selector quote disk disks ≡ some e
      → Pins disk disks e
  unfolding unique_disk_selector
  unique_disk_selector-Pins disk disks e m w h =
      let (s, offered, printed, c) = first_unique-some (disk_selectors_for quote disk) disks e h in
      let hit = disk_selectors_for_self disk s w offered in
      record {
        selector = s;
        offered = offered;
        printed = printed;
        hit = hit;
        alone = λ d n k. one_counted s.matches disks d disk c n m k hit;
      }
