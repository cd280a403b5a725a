-- ===== src/ControlPlane/Machines/Placement.antt =====
-- controller/tartcontrolplane/machines.go: where `controlPlaneFailureDomain` puts the machines.
pub mod Balance
use cluster_api_provider_tar.Base.{
  ℕ, zero, suc, String, ◌%◌, ◌<◌, ◌≡◌, refl, sym, ap, subst, ◌∙◌, ◌≢◌, ◌↔◌, ◌⊎◌, inl, inr, Bool,
  true, false, not, ◌||◌, none, some, List, [], ◌∷◌, ◌++◌, arith, eq_iff, ◌==◌, comparable_nat,
  comparable_text, comparable_list, ==_refl, Bool-cases, length, any, All, In,
}
use mathlib.Core.Option.{some-injective}
use cluster_api_provider_tar.Base.Distinct.{IsDistinct}
use cluster_api_provider_tar.Base.Sort.{sort, insert, sort-In, insert-In}
use cluster_api_provider_tar.Host.FailureDomains.{FailureDomain, text_before}
use cluster_api_provider_tar.ControlPlane.Machines.{
  eligible_from, serves_control_plane, nth, at_modulo, control_plane_failure_domain,
  contains_control_plane_failure_domain,
}

any_named-In : (names : List String) (x : String) → In x names → any (λ n. n == x) names ≡ true
any_named-In [] x m = absurd m
any_named-In (n ∷ ns) x (inl e) = ground (arith, ==_refl x)
any_named-In (n ∷ ns) x (inr m) = ground (arith, any_named-In ns x m)

abbrev pub IsEligible : FailureDomain → Type 0
IsEligible d = (d.name ≢ "") × (serves_control_plane d.control_plane ≡ true)

-- The loop skips a domain without a name and one that takes no control plane.
abbrev pub is_skipped : FailureDomain → Bool
is_skipped d = d.name == "" || not (serves_control_plane d.control_plane)

pub any_named : (names : List String) (x : String) → In x names → any (λ n. n == x) names ≡ true
any_named [] x m = absurd m
any_named (n ∷ ns) x (inl e) = ground (arith, e, eq_iff n x)
any_named (n ∷ ns) x (inr m) = ground (arith, any_named ns x m)

pub In-snoc : (names : List String) (y x : String) → In x (names ++ (y ∷ [])) → In x names ⊎ (x ≡ y)
In-snoc [] y x (inl e) = inr e
In-snoc [] y x (inr m) = absurd m
In-snoc (n ∷ ns) y x (inl e) = inl (inl e)
In-snoc (n ∷ ns) y x (inr m) = elim (In-snoc ns y x m) [ inl i ↦ inl (inr i) | inr e ↦ inr e ]

-- A kept name is an earlier one, or that of a domain which is not skipped.
pub eligible_from-named :
    (names : List String) (ds : List FailureDomain) (x : String)
    → In x (eligible_from names ds)
    → In x names ⊎ ((x ≢ "") × (contains_control_plane_failure_domain ds x ≡ true))
unfolding eligible_from contains_control_plane_failure_domain
eligible_from-named names [] x m = inl m
eligible_from-named names (d ∷ ds) x m = ground (
  arith,
  m,
  eligible_from-named names ds x,
  eligible_from-named (names ++ (d.name ∷ [])) ds x,
  In-snoc names d.name x,
  eq_iff d.name x,
  eq_iff d.name "",
)

IsDistinct-snoc :
    (names : List String) (y : String)
    → any (λ n. n == y) names ≡ false
    → IsDistinct names
    → IsDistinct (names ++ (y ∷ []))
IsDistinct-snoc [] y h k = ((λ m. m), tt)
IsDistinct-snoc (n ∷ ns) y h k = (
  (λ m. elim (In-snoc ns y n m) [ inl i ↦ k.0 i | inr e ↦ ground (arith, e, h, eq_iff n y) ]),
  IsDistinct-snoc ns y (ground (arith, h)) k.1,
)

pub eligible_from-IsDistinct :
    (names : List String) (ds : List FailureDomain)
    → IsDistinct names
    → IsDistinct (eligible_from names ds)
unfolding eligible_from
eligible_from-IsDistinct names [] k = k
eligible_from-IsDistinct names (d ∷ ds) k = ground (
  arith,
  k,
  eligible_from-IsDistinct names ds,
  eligible_from-IsDistinct (names ++ (d.name ∷ [])) ds,
  IsDistinct-snoc names d.name,
)

insert-IsDistinct :
    (x : String) (ys : List String)
    → (In x ys → ⊥)
    → IsDistinct ys
    → IsDistinct (insert text_before x ys)
unfolding insert
insert-IsDistinct x [] h k = ((λ m. m), tt)
insert-IsDistinct x (y ∷ ys) h k = elim (Bool-cases (text_before y x)) [
  | inr n ↦ rw n (h, k)
  | inl b ↦ rw b (
    (λ m. elim (insert-In text_before x y ys m) [ inl e ↦ h (inl (sym e)) | inr i ↦ k.0 i ]),
    insert-IsDistinct x ys (λ i. h (inr i)) k.1,
  )
]

pub sort-IsDistinct : (xs : List String) → IsDistinct xs → IsDistinct (sort text_before xs)
unfolding sort
sort-IsDistinct [] k = tt
sort-IsDistinct (x ∷ xs) k =
    insert-IsDistinct x (sort text_before xs) (λ i. k.0 (sort-In text_before x xs i))
      (sort-IsDistinct xs k.1)

length-insert : (x : String) (ys : List String) → length (insert text_before x ys) ≡ suc (length ys)
unfolding insert
length-insert x [] = refl
length-insert x (y ∷ ys) = ground (arith, length-insert x ys)

pub length-sort : (xs : List String) → length (sort text_before xs) ≡ length xs
unfolding sort
length-sort [] = refl
length-sort (x ∷ xs) = length-insert x (sort text_before xs) ∙ ap suc (length-sort xs)

nth-In : (xs : List String) (n : ℕ) (a : String) → nth xs n ≡ some a → In a xs
nth-In [] n a h = cc
nth-In (x ∷ xs) zero a h = inl (sym (some-injective x a h))
nth-In (x ∷ xs) (suc n) a h = inr (nth-In xs n a h)

nth_total : (xs : List String) (n : ℕ) → n < length xs → (a : String) × (nth xs n ≡ some a)
nth_total [] n h = absurd (omega arith)
nth_total (x ∷ xs) zero h = (x, refl)
nth_total (x ∷ xs) (suc n) h = nth_total xs n (omega arith)

nth-injective :
    (xs : List String) (i j : ℕ) (a : String)
    → IsDistinct xs
    → nth xs i ≡ some a
    → nth xs j ≡ some a
    → i ≡ j
nth-injective [] i j a k p q = cc
nth-injective (x ∷ xs) zero zero a k p q = refl
nth-injective (x ∷ xs) zero (suc j) a k p q =
    absurd (k.0 (subst (λ y. In y xs) (sym (some-injective x a p)) (nth-In xs j a q)))
nth-injective (x ∷ xs) (suc i) zero a k p q =
    absurd (k.0 (subst (λ y. In y xs) (sym (some-injective x a q)) (nth-In xs i a p)))
nth-injective (x ∷ xs) (suc i) (suc j) a k p q = ap suc (nth-injective xs i j a k.1 p q)

pub at_modulo-In : (xs : List String) (n : ℕ) (a : String) → at_modulo xs n ≡ some a → In a xs
at_modulo-In [] n a h = cc
at_modulo-In (x ∷ xs) n a h = nth-In (x ∷ xs) (n % length (x ∷ xs)) a h

pub at_modulo_total :
    (xs : List String) (n : ℕ) → length xs ≢ 0 → (a : String) × (at_modulo xs n ≡ some a)
at_modulo_total [] n h = absurd (h refl)
at_modulo_total (x ∷ xs) n h = nth_total (x ∷ xs) (n % length (x ∷ xs)) (omega arith)

pub at_modulo_iff :
    (xs : List String) (i j : ℕ)
    → IsDistinct xs
    → length xs ≢ 0
    → (at_modulo xs i ≡ at_modulo xs j) ↔ (i % length xs ≡ j % length xs)
at_modulo_iff [] i j k n = absurd (n refl)
at_modulo_iff (x ∷ xs) i j k n =
    let (a, e) = nth_total (x ∷ xs) (i % length (x ∷ xs)) (omega arith) in
    (
      (λ h. nth-injective (x ∷ xs) (i % length (x ∷ xs)) (j % length (x ∷ xs)) a k e (sym h ∙ e)),
      (λ h. ap (nth (x ∷ xs)) h),
    )

eligible_from-cons :
    (n : String) (ns : List String) (ds : List FailureDomain) → eligible_from (n ∷ ns) ds ≢ []
unfolding eligible_from
eligible_from-cons n ns [] h = cc
eligible_from-cons n ns (d ∷ ds) h =
    ground (arith, h, eligible_from-cons n ns ds, eligible_from-cons n (ns ++ (d.name ∷ [])) ds)

eligible_from-none :
    (ds : List FailureDomain) → (eligible_from [] ds ≡ []) ↔ All (λ d. is_skipped d ≡ true) ds
unfolding eligible_from
eligible_from-none [] = ((λ h. tt), (λ h. refl))
eligible_from-none (d ∷ ds) = elim (Bool-cases (is_skipped d)) [
  | inl e ↦ rw e ((λ h. (refl, (eligible_from-none ds).0 h)), (λ h. (eligible_from-none ds).1 h.1))
  | inr e ↦ rw e ((λ h. absurd (eligible_from-cons d.name [] ds h)), (λ h. absurd cc))
]

at_modulo-none : (xs : List String) (n : ℕ) → (at_modulo xs n ≡ none) ↔ (xs ≡ [])
at_modulo-none [] n = ((λ h. refl), (λ h. refl))
at_modulo-none (x ∷ xs) n =
    let (a, e) = nth_total (x ∷ xs) (n % length (x ∷ xs)) (omega arith) in
    ((λ h. absurd (cc)), (λ h. absurd (cc)))

-- The domain that is chosen has a name, is one of the list's and serves the control plane.
pub control_plane_failure_domain-contained :
    (ds : List FailureDomain) (n : ℕ) (name : String)
    → control_plane_failure_domain ds n ≡ some name
    → (name ≢ "") × (contains_control_plane_failure_domain ds name ≡ true)
unfolding control_plane_failure_domain
control_plane_failure_domain-contained ds n name h = kept (
    eligible_from-named [] ds name (
      sort-In text_before name (eligible_from [] ds)
        (at_modulo-In (sort text_before (eligible_from [] ds)) n name h)))
  where
    kept :
        ⊥ ⊎ ((name ≢ "") × (contains_control_plane_failure_domain ds name ≡ true))
        → (name ≢ "") × (contains_control_plane_failure_domain ds name ≡ true)
    kept (inl m) = absurd m
    kept (inr k) = k

sort-none : (xs : List String) → (sort text_before xs ≡ []) ↔ (xs ≡ [])
unfolding sort insert
sort-none [] = ((λ h. refl), (λ h. refl))
sort-none (x ∷ xs) =
    ((λ h. absurd (omega (arith, length-sort (x ∷ xs), ap length h))), (λ h. absurd cc))

-- There is no domain for a machine exactly when every domain of the list has no name or does not
-- serve the control plane, whatever the ordinal.
pub control_plane_failure_domain-none :
    (ds : List FailureDomain) (n : ℕ)
    → (control_plane_failure_domain ds n ≡ none) ↔ All (λ d. is_skipped d ≡ true) ds
unfolding control_plane_failure_domain
control_plane_failure_domain-none ds n = (
  (λ h. (eligible_from-none ds).0 (
      (sort-none (eligible_from [] ds)).0
        ((at_modulo-none (sort text_before (eligible_from [] ds)) n).0 h))),
  (λ h.
      (at_modulo-none (sort text_before (eligible_from [] ds)) n).1
        ((sort-none (eligible_from [] ds)).1 ((eligible_from-none ds).1 h))),
)
