-- ===== src/Base/Distinct.antt =====
-- Lists without repetitions, and how long two of them are that have the same entries.
use cluster_api_provider_tar.Base.{
  suc, ◌≤◌, ◌≡◌, refl, sym, ap, subst, ◌∙◌, ◌≢◌, inl, inr, List, [], ◌∷◌, arith, length, In,
}

module _ {A : Type 0} where
  abbrev pub IsDistinct : List A → Type 0
  IsDistinct [] = Unit {0}
  IsDistinct (x ∷ xs) = (In x xs → ⊥) × IsDistinct xs

  -- The list without the entry at a place.
  abbrev drop : (x : A) (ys : List A) → In x ys → List A
  drop x [] m = []
  drop x (y ∷ ys) (inl e) = ys
  drop x (y ∷ ys) (inr m) = y ∷ drop x ys m

  length-drop : (x : A) (ys : List A) (m : In x ys) → length ys ≡ suc (length (drop x ys m))
  length-drop x [] m = absurd m
  length-drop x (y ∷ ys) (inl e) = refl
  length-drop x (y ∷ ys) (inr m) = ap suc (length-drop x ys m)

  In-drop : (x z : A) (ys : List A) (m : In x ys) → z ≢ x → In z ys → In z (drop x ys m)
  In-drop x z [] m d n = absurd m
  In-drop x z (y ∷ ys) (inl e) d (inl q) = absurd (d (q ∙ sym e))
  In-drop x z (y ∷ ys) (inl e) d (inr n) = n
  In-drop x z (y ∷ ys) (inr m) d (inl q) = inl q
  In-drop x z (y ∷ ys) (inr m) d (inr n) = inr (In-drop x z ys m d n)

  -- A list without repetitions whose entries are all in another is not longer.
  pub length_subset :
      (xs ys : List A) → IsDistinct xs → ((x : A) → In x xs → In x ys) → length xs ≤ length ys
  length_subset [] ys k h = omega arith
  length_subset (x ∷ xs) ys k h =
      let m = h x (inl refl) in
      let rest =
        length_subset xs (drop x ys m) k.1
          (λ z n. In-drop x z ys m (λ e. k.0 (subst (λ w. In w xs) e n)) (h z (inr n))) in
      omega (arith, rest, length-drop x ys m)
