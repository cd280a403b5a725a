-- ===== src/Host/Selection/Best.antt =====
-- The host that is selected, among all candidates.
use cluster_api_provider_tar.Base.{
  ℕ, String, ◌≡◌, refl, sym, subst, ◌↔◌, inl, inr, Bool, true, false, Option, List, [], ◌∷◌, arith,
  comparable_nat, comparable_text, comparable_list, Bool-cases, keep, All, In,
}
use cluster_api_provider_tar.Base.Sort.{sort, sort-In, In-sort, sort-IsSorted, IsSorted}
use cluster_api_provider_tar.Base.Result.{ok, ok-injective}
use cluster_api_provider_tar.Api.Meta.{HostId}
use cluster_api_provider_tar.Api.Host.{TartHost}
use cluster_api_provider_tar.Api.Machine.{HostSelector}
use cluster_api_provider_tar.Host.Selector.{LabelMatcher}
use cluster_api_provider_tar.Host.Selection.{is_candidate, before, select_fresh, first_of}
use cluster_api_provider_tar.Host.Selection.Rank.{before-order, before_total}

In-keep :
    (p : TartHost → Bool) (hosts : List TartHost) (h : TartHost)
    → In h (keep p hosts)
    → In h hosts × (p h ≡ true)
In-keep p [] h m = absurd m
In-keep p (x ∷ hosts) h m = elim (Bool-cases (p x)) [
  | inl e ↦ ground (arith, In-keep p hosts h)
  | inr e ↦ ground (arith, In-keep p hosts h)
]

keep-In :
    (p : TartHost → Bool) (hosts : List TartHost) (h : TartHost)
    → In h hosts
    → p h ≡ true
    → In h (keep p hosts)
keep-In p [] h m e = absurd m
keep-In p (x ∷ hosts) h (inl q) e = let k : p x ≡ true = subst (λ g. p g ≡ true) q e in rw k (inl q)
keep-In p (x ∷ hosts) h (inr n) e = elim (Bool-cases (p x)) [
  | inl k ↦ rw k (inr (keep-In p hosts h n e))
  | inr k ↦ rw k (keep-In p hosts h n e)
]

All-In :
    (P : TartHost → Type 0) (hosts : List TartHost) (h : TartHost) → All P hosts → In h hosts → P h
All-In P [] h a m = absurd m
All-In P (x ∷ hosts) h a (inl e) = subst P (sym e) a.0
All-In P (x ∷ hosts) h a (inr n) = All-In P hosts h a.1 n

-- The host is one of the list and may be taken, and none that may be taken comes before it.
pub record IsBest (candidate : TartHost → Bool) (less : TartHost → TartHost → Bool)
    (hosts : List TartHost) (h : TartHost) : Type 0 where
  pub listed : In h hosts
  pub fit : candidate h ≡ true
  pub best : (g : TartHost) → In g hosts → candidate g ≡ true → less g h ≡ false

module _ (sum256 : String → List ℕ) (print : HostId → String) (matches_labels : LabelMatcher)
    (selector : Option HostSelector) (failure_domain machine_uid : String) where
  abbrev fits : TartHost → Bool
  fits = is_candidate matches_labels selector failure_domain

  abbrev less : TartHost → TartHost → Bool
  less = before sum256 print machine_uid

  irreflexive : (h : TartHost) → less h h ≡ false
  irreflexive h = elim (Bool-cases (less h h)) [
    | inl e ↦ (before-order sum256 print machine_uid).asym h h e
    | inr n ↦ n
  ]

  first-sorted :
      (hosts : List TartHost) (h : TartHost)
      → IsSorted less hosts
      → first_of hosts ≡ ok h
      → In h hosts × ((g : TartHost) → In g hosts → less g h ≡ false)
  first-sorted [] h s e = cc
  first-sorted (x ∷ hosts) h s e =
      let same : x ≡ h = ok-injective e in
      subst (λ y. In y (x ∷ hosts) × ((g : TartHost) → In g (x ∷ hosts) → less g y ≡ false)) same
        (
          inl refl,
          (λ g m. elim m [
            | inl q ↦ subst (λ z. less z x ≡ false) (sym q) (irreflexive x)
            | inr n ↦ All-In (λ z. less z x ≡ false) hosts g s.0 n
          ]),
        )

  pub select_fresh-IsBest :
      (hosts : List TartHost) (h : TartHost)
      → select_fresh sum256 print matches_labels hosts selector failure_domain machine_uid ≡ ok h
      → IsBest fits less hosts h
  unfolding select_fresh
  select_fresh-IsBest hosts h e =
      let kept = keep fits hosts in
      let s = sort-IsSorted less (before-order sum256 print machine_uid) kept in
      let (m, b) = first-sorted (sort less kept) h s e in
      let (listed, fit) = In-keep fits hosts h (sort-In less h kept m) in
      record {
        listed = listed;
        fit = fit;
        best = λ g n c. b g (In-sort less g kept (keep-In fits hosts g n c));
      }

  pub select_fresh_some :
      (hosts : List TartHost) (g : TartHost)
      → In g hosts
      → is_candidate matches_labels selector failure_domain g ≡ true
      → (h : TartHost) × (select_fresh sum256 print matches_labels hosts selector failure_domain
            machine_uid
          ≡ ok h)
  unfolding select_fresh
  select_fresh_some hosts g m c =
      go (sort less (keep fits hosts)) (In-sort less g (keep fits hosts) (keep-In fits hosts g m c))
    where
      go : (xs : List TartHost) → In g xs → (h : TartHost) × (first_of xs ≡ ok h)
      go [] n = absurd n
      go (x ∷ xs) n = (x, refl)

  -- The selection does not depend on the order of the list, where a name stands for one host.
  pub select_fresh_order :
      (hosts others : List TartHost) (h : TartHost)
      → ((g : TartHost) → In g hosts ↔ In g others)
      → ((a b : TartHost) → In a hosts → In b hosts → a.name ≡ b.name → a ≡ b)
      → select_fresh sum256 print matches_labels hosts selector failure_domain machine_uid ≡ ok h
      → select_fresh sum256 print matches_labels others selector failure_domain machine_uid ≡ ok h
  select_fresh_order hosts others h same unique e =
      let b = select_fresh-IsBest hosts h e in
      let (k, e') = select_fresh_some others h ((same h).0 b.listed) b.fit in
      let b' = select_fresh-IsBest others k e' in
      let n = (same k).1 b'.listed in
      let name =
        before_total sum256 print machine_uid h k (b'.best h ((same h).0 b.listed) b.fit)
          (b.best k n b'.fit) in
      subst
        (λ g.
          select_fresh sum256 print matches_labels others selector failure_domain machine_uid
          ≡ ok g)
        (sym (unique h k b.listed n name)) e'
