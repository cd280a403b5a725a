-- ===== src/Base/Sort.antt =====
-- `slices.SortStableFunc`, by insertion: the order of equal entries stays. A model of
-- `slices.SortFunc` too, where no two entries compare equal.

use mathlib.Core.Path.{◌≡◌, refl}
use mathlib.Core.Logic.{◌⊎◌, inl, inr}
use mathlib.Core.Bool.{Bool, true, false}
use mathlib.Core.List.{List, [], ◌∷◌, Perm}
use mathlib.Core.List.Perm
use native.Mathlib.Omega.{arith}
use cluster_api_provider_tar.Base.Tests.{if◌then◌else◌, Bool-cases}
use cluster_api_provider_tar.Base.Lists.{In, All}

-- What a comparison function must satisfy.
pub record StrictWeakOrder {A : Type 0} (less : A → A → Bool) : Type 0 where
  pub asym : (a b : A) → less a b ≡ true → less b a ≡ false
  pub weak : (a b c : A) → less b a ≡ false → less c b ≡ false → less c a ≡ false

module _ {A : Type 0} (less : A → A → Bool) where
  unfoldable pub insert : A → List A → List A
  insert x [] = x ∷ []
  insert x (y ∷ ys) = let rest = insert x ys in if less y x then y ∷ rest else x ∷ y ∷ ys

  unfoldable pub sort : List A → List A
  unfolding insert
  sort [] = []
  sort (x ∷ xs) = insert x (sort xs)

  pub insert-In : (x z : A) (ys : List A) → In z (insert x ys) → (z ≡ x) ⊎ In z ys
  unfolding insert
  insert-In x z [] m = m
  insert-In x z (y ∷ ys) m = ground (arith, insert-In x z ys)

  In-insert : (x z : A) (ys : List A) → (z ≡ x) ⊎ In z ys → In z (insert x ys)
  unfolding insert
  In-insert x z [] m = m
  In-insert x z (y ∷ ys) m = ground (arith, In-insert x z ys)

  -- Sorting keeps the entries.
  pub sort-In : (z : A) (xs : List A) → In z (sort xs) → In z xs
  unfolding sort
  sort-In z [] m = m
  sort-In z (x ∷ xs) m = elim (insert-In x z (sort xs) m) [
    | inl e ↦ inl e
    | inr n ↦ inr (sort-In z xs n)
  ]

  pub In-sort : (z : A) (xs : List A) → In z xs → In z (sort xs)
  unfolding sort
  In-sort z [] m = m
  In-sort z (x ∷ xs) (inl e) = In-insert x z (sort xs) (inl e)
  In-sort z (x ∷ xs) (inr n) = In-insert x z (sort xs) (inr (In-sort z xs n))

  insert-perm : (x : A) (ys : List A) → Perm (insert x ys) (x ∷ ys)
  unfolding insert
  insert-perm x [] = Perm.refl (x ∷ [])
  insert-perm x (y ∷ ys) = elim (Bool-cases (less y x)) [
    | inl b ↦ rw b (Perm.trans (Perm.cons y (insert-perm x ys)) (Perm.swap x y ys))
    | inr n ↦ rw n (Perm.refl (x ∷ y ∷ ys))
  ]

  pub sort-perm : (xs : List A) → Perm (sort xs) xs
  unfolding sort
  sort-perm [] = Perm.refl []
  sort-perm (x ∷ xs) = Perm.trans (insert-perm x (sort xs)) (Perm.cons x (sort-perm xs))

  -- No entry comes strictly before one to its left.
  abbrev pub IsSorted : List A → Type 0
  IsSorted [] = Unit {0}
  IsSorted (x ∷ xs) = All (λ y. less y x ≡ false) xs × IsSorted xs

  pub NoneBelow_mono :
      (ord : StrictWeakOrder less) (a b : A) (xs : List A)
      → less b a ≡ false
      → All (λ y. less y b ≡ false) xs
      → All (λ y. less y a ≡ false) xs
  NoneBelow_mono ord a b [] h k = tt
  NoneBelow_mono ord a b (x ∷ xs) h k = (ord.weak a b x h k.0, NoneBelow_mono ord a b xs h k.1)

  All-insert : (P : A → Type 0) (x : A) (ys : List A) → P x → All P ys → All P (insert x ys)
  unfolding insert
  All-insert P x [] h k = (h, tt)
  All-insert P x (y ∷ ys) h k = elim (Bool-cases (less y x)) [
    | inl b ↦ rw b (k.0, All-insert P x ys h k.1)
    | inr n ↦ rw n (h, k)
  ]

  insert-IsSorted :
      (ord : StrictWeakOrder less) (x : A) (ys : List A) → IsSorted ys → IsSorted (insert x ys)
  unfolding insert
  insert-IsSorted ord x [] s = (tt, tt)
  insert-IsSorted ord x (y ∷ ys) s = elim (Bool-cases (less y x)) [
    | inl b ↦
        rw b (
          All-insert (λ z. less z y ≡ false) x ys (ord.asym y x b) s.0,
          insert-IsSorted ord x ys s.1,
        )
    | inr n ↦ rw n ((n, NoneBelow_mono ord x y ys n s.0), s)
  ]

  pub sort-IsSorted : (ord : StrictWeakOrder less) (xs : List A) → IsSorted (sort xs)
  unfolding sort
  sort-IsSorted ord [] = tt
  sort-IsSorted ord (x ∷ xs) = insert-IsSorted ord x (sort xs) (sort-IsSorted ord xs)

module _ {A : Type 0} (f g : A → A → Bool) where
  insert_agree :
      (x : A) (ys : List A) → ((y : A) → In y ys → f y x ≡ g y x) → insert f x ys ≡ insert g x ys
  unfolding insert
  insert_agree x [] h = refl
  insert_agree x (y ∷ ys) h = rw (h y (inl refl), insert_agree x ys (λ z i. h z (inr i))) refl

  -- Orders that agree on the entries sort them alike.
  pub sort_agree :
      (xs : List A) → ((x y : A) → In x xs → In y xs → f x y ≡ g x y) → sort f xs ≡ sort g xs
  unfolding sort
  sort_agree [] h = refl
  sort_agree (x ∷ xs) h =
      rw (sort_agree xs (λ y z i j. h y z (inr i) (inr j)))
        (insert_agree x (sort g xs) (λ y i. h y x (inr (sort-In g y xs i)) (inl refl)))
