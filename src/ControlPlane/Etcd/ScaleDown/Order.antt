-- ===== src/ControlPlane/Etcd/ScaleDown/Order.antt =====
-- The machine that goes first has the highest ordinal.
use cluster_api_provider_tar.Base.{
  ◌≡◌, refl, sym, subst, ◌∙◌, inl, inr, Bool, false, Option, none, some, List, [], ◌∷◌, arith,
  if◌then◌else◌, comparable_nat, comparable_text, comparable_list, Bool-cases, All, In, codes,
}
use cluster_api_provider_tar.Base.Int.{ℤ, pos, ◌<?◌, same_ℤ}
use cluster_api_provider_tar.Base.Order.{lt_bytes_asym, lt_bytes_weak}
use cluster_api_provider_tar.Base.Sort.{
  sort, StrictWeakOrder, sort_agree, sort-In, In-sort, sort-IsSorted, IsSorted,
}
use cluster_api_provider_tar.Api.Machine.{CapiMachine}
use cluster_api_provider_tar.ControlPlane.Etcd.ScaleDown.{
  name_after, before_by, machine_before, ordinal_of, target_of, first_machine,
}

abbrev ordinal_or_zero : Option ℤ → ℤ
ordinal_or_zero none = pos 0
ordinal_or_zero (some n) = n

-- The order where a missing ordinal counts as 0.
numbered_before : CapiMachine → CapiMachine → Bool
numbered_before l r =
    if same_ℤ (ordinal_or_zero (ordinal_of l)) (ordinal_or_zero (ordinal_of r))
    then name_after l r
    else ordinal_or_zero (ordinal_of r) <? ordinal_or_zero (ordinal_of l)

numbered_before-StrictWeakOrder : StrictWeakOrder numbered_before
unfolding numbered_before name_after
numbered_before-StrictWeakOrder = record {
  asym = λ a b h. ground (arith, h, lt_bytes_asym (codes b.name) (codes a.name));
  weak =
      λ a b c h k. ground (arith, h, k, lt_bytes_weak (codes c.name) (codes b.name) (codes a.name));
}

agree :
    (l r : CapiMachine) (a b : ℤ)
    → ordinal_of l ≡ some a
    → ordinal_of r ≡ some b
    → machine_before l r ≡ numbered_before l r
unfolding machine_before before_by numbered_before
agree l r a b e f = rw (e, f) refl

head_least :
    {A : Type 0} (less : A → A → Bool) (x y : A) (xs : List A)
    → less x x ≡ false
    → IsSorted less (x ∷ xs)
    → In y (x ∷ xs)
    → less y x ≡ false
head_least less x y xs irrefl s (inl e) = rw e irrefl
head_least {A = A} less x y xs irrefl s (inr i) = go xs s.0 i
  where
    go : (zs : List A) → All (λ z. less z x ≡ false) zs → In y zs → less y x ≡ false
    go [] h j = absurd j
    go (z ∷ zs) h (inl e) = rw e h.0
    go (z ∷ zs) h (inr j) = go zs h.1 j

first_machine-cons :
    (xs : List CapiMachine) (t : CapiMachine)
    → first_machine xs ≡ some t
    → (rest : List CapiMachine) × (xs ≡ t ∷ rest)
first_machine-cons [] t h = absurd (ground (arith, h))
first_machine-cons (x ∷ xs) t h = (xs, ground (arith, h))

HasOrdinals : List CapiMachine → Type 0
HasOrdinals ms = (m : CapiMachine) → In m ms → (n : ℤ) × (ordinal_of m ≡ some n)

pub target_of-In : (ms : List CapiMachine) (t : CapiMachine) → target_of ms ≡ some t → In t ms
unfolding target_of
target_of-In ms t h =
    let (rest, e) = first_machine-cons (sort machine_before ms) t h in
    sort-In machine_before t ms (subst (λ xs. In t xs) (sym e) (inl refl))

least_numbered :
    (ms : List CapiMachine) (m t : CapiMachine)
    → HasOrdinals ms
    → target_of ms ≡ some t
    → In m ms
    → numbered_before m t ≡ false
unfolding target_of HasOrdinals
least_numbered ms m t o h i =
    let same : sort machine_before ms ≡ sort numbered_before ms =
      sort_agree machine_before numbered_before ms
        (λ x y j k. agree x y (o x j).0 (o y k).0 (o x j).1 (o y k).1) in
    let (rest, e) = first_machine-cons (sort machine_before ms) t h in
    let sorted : IsSorted numbered_before (t ∷ rest) =
      subst (λ xs. IsSorted numbered_before xs) (sym same ∙ e)
        (sort-IsSorted numbered_before numbered_before-StrictWeakOrder ms) in
    let found : In m (t ∷ rest) = subst (λ xs. In m xs) e (In-sort machine_before m ms i) in
    let irrefl : numbered_before t t ≡ false = elim (Bool-cases (numbered_before t t)) [
      | inl y ↦ numbered_before-StrictWeakOrder.asym t t y
      | inr n ↦ n
    ] in
    head_least numbered_before t m rest irrefl sorted found

-- When every machine has an ordinal in its label, the machine that goes first is one of them, and
-- no other one has a higher ordinal.
pub target_of-greatest :
    (ms : List CapiMachine) (m t : CapiMachine) (a b : ℤ)
    → ((x : CapiMachine) → In x ms → (n : ℤ) × (ordinal_of x ≡ some n))
    → target_of ms ≡ some t
    → In m ms
    → ordinal_of m ≡ some a
    → ordinal_of t ≡ some b
    → In t ms × ((b <? a) ≡ false)
unfolding numbered_before HasOrdinals
target_of-greatest ms m t a b o h i e f =
    let l = least_numbered ms m t o h i in (target_of-In ms t h, ground (arith, l, e, f))
