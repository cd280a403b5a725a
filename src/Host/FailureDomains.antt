-- ===== src/Host/FailureDomains.antt =====
-- usecase/host/failure_domain.go. The set of names is a list without repetitions; the order of a
-- map's keys does not matter, since they are sorted.
pub mod Names
use cluster_api_provider_tar.Base.{
  ℕ, zero, suc, String, ◌+◌, ◌-◌, ◌*◌, ◌/◌, ◌%◌, ◌^◌, ◌≤◌, ◌<◌, ◌≡◌, refl, sym, ap, subst, ◌∙◌, ◌≢◌,
  ◌↔◌, ◌⊎◌, inl, inr, Bool, true, false, not, ◌&&◌, ◌||◌, Option, none, some, List, [], ◌∷◌, ◌++◌,
  map, arith, eq_iff, eq_refl, ltb, leb, if◌then◌else◌, Comparable, ◌==◌, ◌!=◌, comparable_nat,
  comparable_text, comparable_list, list_beq_iff, ==_refl, Bool-cases, Option-cases, ltb→lt, leb→le,
  is_some, length, any, keep, count_if, All, In, trim_space, is_blank, codes, is_blank-empty,
  is_blank_nonempty,
}
use cluster_api_provider_tar.Base.Order.{lt_bytes}
use cluster_api_provider_tar.Base.Sort.{sort}
use cluster_api_provider_tar.Api.Host.{TartHost}

-- `clusterv1.FailureDomain`.
pub record FailureDomain : Type 0 where
  pub name : String
  pub control_plane : Option Bool

-- `cmp.Compare` on texts.
unfoldable pub text_before : String → String → Bool
text_before a b = lt_bytes (codes a) (codes b)

-- The keys of the map.
unfoldable pub domain_names : List TartHost → List String
domain_names [] = []
domain_names (host ∷ hosts) =
    let rest = domain_names hosts in
    if host.spec.failure_domain != "" && not (any (λ n. n == host.spec.failure_domain) rest)
    then host.spec.failure_domain ∷ rest
    else rest

abbrev pub as_domain : String → FailureDomain
as_domain name = record { name = name; control_plane = some true }

-- `FailureDomains`.
unfoldable pub failure_domains : List TartHost → List FailureDomain
failure_domains hosts = map as_domain (sort text_before (domain_names hosts))
