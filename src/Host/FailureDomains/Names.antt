-- ===== src/Host/FailureDomains/Names.antt =====
-- The names of the failure domains.
use cluster_api_provider_tar.Base.{
  String, ◌≡◌, refl, sym, ap, subst, ◌≢◌, inl, inr, true, not, ◌&&◌, some, List, [], ◌∷◌, map,
  arith, eq_iff, if◌then◌else◌, ◌==◌, ◌!=◌, comparable_nat, comparable_text, comparable_list,
  Bool-cases, any, In, codes,
}
use cluster_api_provider_tar.Base.Order.{lt_bytes_asym, lt_bytes_weak}
use cluster_api_provider_tar.Base.Sort.{
  StrictWeakOrder, sort, sort-In, In-sort, IsSorted, sort-IsSorted,
}
use cluster_api_provider_tar.Api.Host.{TartHost}
use cluster_api_provider_tar.Host.FailureDomains.{
  FailureDomain, text_before, domain_names, as_domain, failure_domains,
}

text_before-order : StrictWeakOrder text_before
unfolding text_before
text_before-order = record {
  asym = λ a b h. lt_bytes_asym (codes a) (codes b) h;
  weak = λ a b c h k. lt_bytes_weak (codes a) (codes b) (codes c) h k;
}

-- A host of the list has that domain.
abbrev pub IsUsed : List TartHost → String → Type 0
IsUsed hosts name = (name ≢ "") × ((h : TartHost) × In h hosts × (h.spec.failure_domain ≡ name))

pub any-In : (xs : List String) (n : String) → any (λ x. x == n) xs ≡ true → In n xs
any-In [] n h = cc
any-In (x ∷ xs) n h = ground (arith, h, eq_iff x n, eq_iff n x, any-In xs n)

domain_names-IsUsed :
    (hosts : List TartHost) (name : String) → In name (domain_names hosts) → IsUsed hosts name
unfolding domain_names
domain_names-IsUsed [] name m = absurd m
domain_names-IsUsed (h ∷ hosts) name m =
    elim (Bool-cases (
      h.spec.failure_domain != ""
      && not (any (λ n. n == h.spec.failure_domain) (domain_names hosts)))) [
        | inr n ↦ lift (
            domain_names-IsUsed hosts name (
              subst
                (λ b.
                  In name
                    (if b then h.spec.failure_domain ∷ domain_names hosts else domain_names hosts))
                n m))
        | inl y ↦
            elim (subst
              (λ b.
                In name
                  (if b then h.spec.failure_domain ∷ domain_names hosts else domain_names hosts))
              y m) [
                | inl q ↦ (
                  ground (arith, y, q, eq_iff name "", eq_iff h.spec.failure_domain ""),
                  (h, inl refl, sym q),
                )
                | inr k ↦ lift (domain_names-IsUsed hosts name k)
              ]
      ]
  where
    lift : IsUsed hosts name → IsUsed (h ∷ hosts) name
    lift (n, (g, k, e)) = (n, (g, inr k, e))

IsUsed-domain_names :
    (hosts : List TartHost) (h : TartHost)
    → In h hosts
    → h.spec.failure_domain ≢ ""
    → In h.spec.failure_domain (domain_names hosts)
unfolding domain_names
IsUsed-domain_names [] h m n = absurd m
IsUsed-domain_names (g ∷ hosts) h (inr k) n = ground (arith, IsUsed-domain_names hosts h k n)
IsUsed-domain_names (g ∷ hosts) h (inl q) n = ground (
  arith,
  n,
  ap (λ x. x.spec.failure_domain) q,
  any-In (domain_names hosts) g.spec.failure_domain,
  eq_iff g.spec.failure_domain "",
)

names-domains : (xs : List String) → map (λ d. d.name) (map as_domain xs) ≡ xs
names-domains [] = refl
names-domains (x ∷ xs) = ap (λ ys. x ∷ ys) (names-domains xs)

In-domains :
    (xs : List String) (d : FailureDomain)
    → In d (map as_domain xs)
    → In d.name xs × (d.control_plane ≡ some true)
In-domains [] d m = absurd m
In-domains (x ∷ xs) d (inl q) = (inl (ap (λ e. e.name) q), ap (λ e. e.control_plane) q)
In-domains (x ∷ xs) d (inr m) = let (k, c) = In-domains xs d m in (inr k, c)

domains-In :
    (xs : List String) (name : String) → In name xs → In (as_domain name) (map as_domain xs)
domains-In [] name m = absurd m
domains-In (x ∷ xs) name (inl q) = inl (ap as_domain q)
domains-In (x ∷ xs) name (inr m) = inr (domains-In xs name m)

-- The failure domains are in the order of their names, each is the nonempty domain of a host and
-- takes control planes, and every nonempty domain of a host is one of them.
pub failure_domains_lem :
    (hosts : List TartHost)
    → IsSorted text_before (map (λ d. d.name) (failure_domains hosts))
      × ((d : FailureDomain)
          → In d (failure_domains hosts)
          → IsUsed hosts d.name × (d.control_plane ≡ some true))
      × ((h : TartHost)
          → In h hosts
          → h.spec.failure_domain ≢ ""
          → In (as_domain h.spec.failure_domain) (failure_domains hosts))
unfolding failure_domains
failure_domains_lem hosts = (
  subst (IsSorted text_before) (sym (names-domains (sort text_before (domain_names hosts))))
      (sort-IsSorted text_before text_before-order (domain_names hosts)),
  (λ d m.
      let (k, c) = In-domains (sort text_before (domain_names hosts)) d m in
      (domain_names-IsUsed hosts d.name (sort-In text_before d.name (domain_names hosts) k), c)),
  (λ h m n. domains-In (sort text_before (domain_names hosts)) h.spec.failure_domain (
      In-sort text_before h.spec.failure_domain (domain_names hosts)
        (IsUsed-domain_names hosts h m n))),
)
