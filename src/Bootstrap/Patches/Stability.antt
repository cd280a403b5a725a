-- ===== src/Bootstrap/Patches/Stability.antt =====
-- The order in which the patches are returned.
use cluster_api_provider_tar.Base.{
  ◌≡◌, refl, sym, subst, ◌∙◌, ◌↔◌, inl, inr, true, false, List, [], ◌∷◌, arith, comparable_nat,
  comparable_text, comparable_list, Bool-cases, keep, All, In, is_blank,
}
use mathlib.Core.List.{Perm}
use cluster_api_provider_tar.Base.Int.{ℤ, ◌<?◌, same_ℤ}
use cluster_api_provider_tar.Base.Sort.{
  StrictWeakOrder, insert, sort, sort-perm, IsSorted, sort-IsSorted,
}
use cluster_api_provider_tar.Base.Result.{ok, >>=-eq-ok, ok-injective}
use cluster_api_provider_tar.Bootstrap.Patches.{
  ConfigPatch, check_patches, layer_before, order_patches, layer_base, layer_provider_invariant,
}

layer_before-order : StrictWeakOrder layer_before
unfolding layer_before
layer_before-order = record { asym = λ a b h. ground arith; weak = λ a b c h k. ground arith }

abbrev pub of_layer : ℤ → List ConfigPatch → List ConfigPatch
of_layer l patches = keep (λ p. same_ℤ p.layer l) patches

layer_before-differ :
    (l : ℤ) (x y : ConfigPatch)
    → layer_before y x ≡ true
    → same_ℤ x.layer l ≡ true
    → same_ℤ y.layer l ≡ false
unfolding layer_before
layer_before-differ l x y h k = ground arith

of_layer-insert :
    (l : ℤ) (x : ConfigPatch) (ys : List ConfigPatch)
    → of_layer l (insert layer_before x ys) ≡ of_layer l (x ∷ ys)
unfolding insert
of_layer-insert l x [] = refl
of_layer-insert l x (y ∷ ys) = elim (Bool-cases (layer_before y x)) [
  | inr n ↦ rw n refl
  | inl b ↦ ground (arith, b, of_layer-insert l x ys, layer_before-differ l x y)
]

of_layer-sort : (l : ℤ) (xs : List ConfigPatch) → of_layer l (sort layer_before xs) ≡ of_layer l xs
unfolding sort
of_layer-sort l [] = refl
of_layer-sort l (x ∷ xs) =
    of_layer-insert l x (sort layer_before xs) ∙ ground (arith, of_layer-sort l xs)

-- No patch has a smaller layer than one to its left.
abbrev pub IsLayered : List ConfigPatch → Type 0
IsLayered [] = Unit {0}
IsLayered (p ∷ ps) = All (λ q. (q.layer <? p.layer) ≡ false) ps × IsLayered ps

All-layers :
    (p : ConfigPatch) (ps : List ConfigPatch)
    → All (λ q. layer_before q p ≡ false) ps
    → All (λ q. (q.layer <? p.layer) ≡ false) ps
unfolding layer_before
All-layers p [] h = tt
All-layers p (q ∷ ps) h = (h.0, All-layers p ps h.1)

IsSorted-IsLayered : (ps : List ConfigPatch) → IsSorted layer_before ps → IsLayered ps
IsSorted-IsLayered [] h = tt
IsSorted-IsLayered (p ∷ ps) h = (All-layers p ps h.0, IsSorted-IsLayered ps h.1)

-- The patches that are returned are the given ones, a smaller layer never stands after a greater one, and the patches of
-- one layer stand in the order in which they were given.
pub order_patches_lem :
    (patches ordered : List ConfigPatch)
    → order_patches patches ≡ ok ordered
    → Perm ordered patches × IsLayered ordered × ((l : ℤ) → of_layer l ordered ≡ of_layer l patches)
unfolding order_patches
order_patches_lem patches ordered h =
    let (u, c, k) = >>=-eq-ok (check_patches patches) _ h in
    let same : sort layer_before patches ≡ ordered = ok-injective k in
    subst (λ ys. Perm ys patches × IsLayered ys × ((l : ℤ) → of_layer l ys ≡ of_layer l patches))
      same
      (
        sort-perm layer_before patches,
        IsSorted-IsLayered (sort layer_before patches)
            (sort-IsSorted layer_before layer_before-order patches),
        (λ l. of_layer-sort l patches),
      )

-- A patch that the checks let through.
pub record IsAcceptable (patch : ConfigPatch) : Type 0 where
  pub filled : is_blank patch.content ≡ false
  pub not_below : (patch.layer <? layer_base) ≡ false
  pub not_above : (layer_provider_invariant <? patch.layer) ≡ false

check_patches-ok :
    (patches : List ConfigPatch)
    → ((p : ConfigPatch) → In p patches → IsAcceptable p)
    → check_patches patches ≡ ok tt
unfolding check_patches
check_patches-ok [] h = refl
check_patches-ok (p ∷ patches) h =
    let v = h p (inl refl) in
    rw (v.filled, v.not_below, v.not_above) (check_patches-ok patches (λ q m. h q (inr m)))

ok-check_patches :
    (patches : List ConfigPatch)
    → check_patches patches ≡ ok tt
    → (p : ConfigPatch) → In p patches
    → IsAcceptable p
unfolding check_patches
ok-check_patches [] h p m = absurd m
ok-check_patches (q ∷ patches) h p (inl e) = subst IsAcceptable (sym e) (record {
  filled = ground (arith, h);
  not_below = ground (arith, h);
  not_above = ground (arith, h);
})
ok-check_patches (q ∷ patches) h p (inr m) = ok-check_patches patches (ground (arith, h)) p m

-- Patches are ordered exactly when each of them has content and one of the known layers.
pub order_patches_iff :
    (patches : List ConfigPatch)
    → ((ordered : List ConfigPatch) × (order_patches patches ≡ ok ordered))
      ↔ ((p : ConfigPatch) → In p patches → IsAcceptable p)
unfolding order_patches
order_patches_iff patches = (
  (λ r. let (u, c, k) = >>=-eq-ok (check_patches patches) _ r.1 in ok-check_patches patches c),
  (λ h. (sort layer_before patches, rw (check_patches-ok patches h) refl)),
)
