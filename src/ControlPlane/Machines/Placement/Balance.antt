-- ===== src/ControlPlane/Machines/Placement/Balance.antt =====
-- controller/tartcontrolplane/machines.go: the machines are shared out evenly among all the domains
-- that may serve the control plane.
use cluster_api_provider_tar.Base.{
  ℕ, String, ◌%◌, ◌≡◌, refl, sym, ap, subst, ◌∙◌, ◌≢◌, ◌↔◌, inl, inr, Bool, true, false, ◌&&◌,
  Option, none, some, List, [], ◌∷◌, ◌++◌, arith, eq_iff, ◌==◌, comparable_nat, comparable_text,
  comparable_list, Bool-cases, length, any, In,
}
use cluster_api_provider_tar.Base.Distinct.{IsDistinct, length_subset}
use cluster_api_provider_tar.Base.Sort.{sort, sort-In}
use cluster_api_provider_tar.Host.FailureDomains.{FailureDomain, text_before}
use cluster_api_provider_tar.Host.FailureDomains.Names.{any-In}
use cluster_api_provider_tar.ControlPlane.Machines.{
  eligible_from, serves_control_plane, at_modulo, control_plane_failure_domain,
  contains_control_plane_failure_domain,
}
use cluster_api_provider_tar.ControlPlane.Machines.Placement.{
  is_skipped, eligible_from-named, eligible_from-IsDistinct, sort-IsDistinct, length-sort,
  at_modulo_iff, at_modulo-In, at_modulo_total,
}

-- A domain of the list has that name, and does not say that it takes no control plane.
abbrev pub ServesNamed : List FailureDomain → String → Type 0
ServesNamed ds x =
    (x ≢ "") × ((d : FailureDomain) × In d ds × (d.name ≡ x) × (d.control_plane ≢ some false))

-- The names of all such domains, each once.
abbrev pub AreServing : List String → List FailureDomain → Type 0
AreServing names ds = IsDistinct names × ((x : String) → In x names ↔ ServesNamed ds x)

serves-allowed : (o : Option Bool) → (serves_control_plane o ≡ true) ↔ (o ≢ some false)
serves-allowed none = ((λ h e. cc), (λ h. refl))
serves-allowed (some true) = ((λ h e. cc), (λ h. refl))
serves-allowed (some false) = ((λ h e. cc), (λ h. absurd (h refl)))

pub contains-domain :
    (ds : List FailureDomain) (x : String)
    → contains_control_plane_failure_domain ds x ≡ true
    → (d : FailureDomain) × In d ds × (d.name ≡ x) × (d.control_plane ≢ some false)
unfolding contains_control_plane_failure_domain
contains-domain [] x h = cc
contains-domain (d ∷ ds) x h =
    elim (Bool-cases (d.name == x && serves_control_plane d.control_plane)) [
      | inl e ↦ (
        d,
        inl refl,
        ground (arith, e, eq_iff d.name x),
        (serves-allowed d.control_plane).0 (ground (arith, e)),
      )
      | inr e ↦ let (g, m, p, q) = contains-domain ds x (ground (arith, h, e)) in (g, inr m, p, q)
    ]

In-++ : (xs ys : List String) (x : String) → In x xs → In x (xs ++ ys)
In-++ [] ys x m = absurd m
In-++ (y ∷ xs) ys x (inl e) = inl e
In-++ (y ∷ xs) ys x (inr m) = inr (In-++ xs ys x m)

In-last : (xs : List String) (x : String) → In x (xs ++ (x ∷ []))
In-last [] x = inl refl
In-last (y ∷ xs) x = inr (In-last xs x)

-- The loop keeps the names that it has.
earlier_kept :
    (names : List String) (ds : List FailureDomain) (x : String)
    → In x names
    → In x (eligible_from names ds)
unfolding eligible_from
earlier_kept names [] x m = m
earlier_kept names (d ∷ ds) x m = ground (
  arith,
  earlier_kept names ds x m,
  earlier_kept (names ++ (d.name ∷ [])) ds x (In-++ names (d.name ∷ []) x m),
)

-- It keeps the name of every domain that is not skipped.
serving_kept :
    (names : List String) (ds : List FailureDomain) (d : FailureDomain)
    → In d ds
    → is_skipped d ≡ false
    → In d.name (eligible_from names ds)
unfolding eligible_from
serving_kept names [] d m k = absurd m
serving_kept names (e ∷ ds) d (inr m) k =
    ground (arith, serving_kept names ds d m k, serving_kept (names ++ (e.name ∷ [])) ds d m k)
serving_kept names (e ∷ ds) d (inl q) k =
    let f : is_skipped e ≡ false = subst (λ g. is_skipped g ≡ false) q k in
    subst (λ n. In n (eligible_from names (e ∷ ds))) (sym (ap (λ g. g.name) q))
      (elim (Bool-cases (any (λ n. n == e.name) names)) [
        | inl b ↦ rw (f, b) (earlier_kept names ds e.name (any-In names e.name b))
        | inr b ↦ rw (f, b) (earlier_kept (names ++ (e.name ∷ [])) ds e.name (In-last names e.name))
      ])

-- The loop finds exactly the names of the domains that serve the control plane.
eligible_from-AreServing : (ds : List FailureDomain) → AreServing (eligible_from [] ds) ds
eligible_from-AreServing ds = (eligible_from-IsDistinct [] ds tt, λ x. (sound x, complete x))
  where
    sound : (x : String) → In x (eligible_from [] ds) → ServesNamed ds x
    sound x m = elim (eligible_from-named [] ds x m) [
      | inl n ↦ absurd n
      | inr (n, c) ↦ (n, contains-domain ds x c)
    ]

    complete : (x : String) → ServesNamed ds x → In x (eligible_from [] ds)
    complete x (n, (d, m, e, c)) =
        subst (λ y. In y (eligible_from [] ds)) e
          (serving_kept [] ds d m
            (ground (arith, n, e, eq_iff d.name "", (serves-allowed d.control_plane).1 c)))

same_length :
    (ds : List FailureDomain) (xs ys : List String)
    → AreServing xs ds
    → AreServing ys ds
    → length xs ≡ length ys
same_length ds xs ys h k = omega (
  arith,
  length_subset xs ys h.0 (λ x m. (k.1 x).1 ((h.1 x).0 m)),
  length_subset ys xs k.0 (λ x m. (h.1 x).1 ((k.1 x).0 m)),
)

-- Let `names` be the names of the domains that may serve the control plane, each once, and not
-- none. Then every ordinal gets one of them, and two ordinals get the same one exactly when they
-- are equal modulo the number of the names.
pub same_domain_iff :
    (ds : List FailureDomain) (names : List String) (i j : ℕ)
    → AreServing names ds
    → length names ≢ 0
    → ((a : String) × (control_plane_failure_domain ds i ≡ some a) × In a names)
      × ((control_plane_failure_domain ds i ≡ control_plane_failure_domain ds j)
          ↔ (i % length names ≡ j % length names))
unfolding control_plane_failure_domain
same_domain_iff ds names i j h n =
    let found = eligible_from-AreServing ds in
    let sorted = sort text_before (eligible_from [] ds) in
    let same : length sorted ≡ length names =
      length-sort (eligible_from [] ds) ∙ same_length ds (eligible_from [] ds) names found h in
    let some_found : length sorted ≢ 0 = λ z. n (sym same ∙ z) in
    let (a, e) = at_modulo_total sorted i some_found in
    (
      (
        a,
        e,
        (h.1 a).1 (
            (found.1 a).0
              (sort-In text_before a (eligible_from [] ds) (at_modulo-In sorted i a e))),
      ),
      subst (λ l. (at_modulo sorted i ≡ at_modulo sorted j) ↔ (i % l ≡ j % l)) same
          (at_modulo_iff sorted i j (sort-IsDistinct (eligible_from [] ds) found.0) some_found),
    )
