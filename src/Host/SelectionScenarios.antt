-- ===== src/Host/SelectionScenarios.antt =====
-- Two free hosts between which a machine chooses.
use cluster_api_provider_tar.Base.{
  String, ◌≡◌, refl, sym, ap, ◌∙◌, ◌≢◌, ◌↔◌, inl, inr, true, none, some, List, [], ◌∷◌, arith,
  eq_iff, comparable_nat, comparable_text, comparable_list, In, codes, map,
}
use cluster_api_provider_tar.Base.Result.{ok}
use cluster_api_provider_tar.Base.Sort.{sort, insert, IsSorted}
use cluster_api_provider_tar.Base.Order.{lt_bytes}
use cluster_api_provider_tar.Base.Format.{concat}
use cluster_api_provider_tar.Api.Meta.{HostId}
use cluster_api_provider_tar.Api.Host.{TartHost}
use cluster_api_provider_tar.Api.Samples.{sample_host}
use cluster_api_provider_tar.Host.Eligibility.{classify}
use cluster_api_provider_tar.Host.Selector.{LabelMatcher, matches_for_failure_domain}
use cluster_api_provider_tar.Host.FailureDomains.{
  FailureDomain, text_before, as_domain, failure_domains,
}
use cluster_api_provider_tar.Host.FailureDomains.Names.{IsUsed, failure_domains_lem}
use cluster_api_provider_tar.Host.Selection.{
  is_candidate, name_before, host_score, score_before, before, select_fresh,
}
use cluster_api_provider_tar.Host.Selection.Best.{select_fresh_order}

abbrev any_labels : LabelMatcher
any_labels selector labels = some true

abbrev print_id : HostId → String
print_id n = "id"

abbrev host_b : TartHost
host_b = record sample_host { name = "host-b" }

abbrev hosts : List TartHost
hosts = host_b ∷ sample_host ∷ []

abbrev turned : List TartHost
turned = sample_host ∷ host_b ∷ []

selected : select_fresh codes print_id any_labels hosts none "rack-a" "uid-a" ≡ ok sample_host
unfolding select_fresh sort insert before score_before name_before host_score is_candidate classify
    matches_for_failure_domain lt_bytes concat
selected = refl

same_members : (g : TartHost) → In g hosts ↔ In g turned
same_members g = ground arith

names_differ : ◌≢◌ {A = String} "host-a" "host-b"
names_differ = ground (arith, eq_iff "host-a" "host-b")

unique_names : (a b : TartHost) → In a hosts → In b hosts → a.name ≡ b.name → a ≡ b
unique_names a b (inl p) (inl q) e = p ∙ sym q
unique_names a b (inl p) (inr (inl q)) e =
    absurd (names_differ (sym (ap (λ h. h.name) q) ∙ sym e ∙ ap (λ h. h.name) p))
unique_names a b (inr (inl p)) (inl q) e =
    absurd (names_differ (sym (ap (λ h. h.name) p) ∙ e ∙ ap (λ h. h.name) q))
unique_names a b (inr (inl p)) (inr (inl q)) e = p ∙ sym q
unique_names a b (inl p) (inr (inr m)) e = absurd m
unique_names a b (inr (inl p)) (inr (inr m)) e = absurd m
unique_names a b (inr (inr m)) n e = absurd m

select_fresh_order_example :
    select_fresh codes print_id any_labels turned none "rack-a" "uid-a" ≡ ok sample_host
select_fresh_order_example =
    select_fresh_order codes print_id any_labels none "rack-a" "uid-a" hosts turned sample_host
      same_members unique_names selected

failure_domains_lem_example :
    IsSorted text_before (map (λ d. d.name) (failure_domains hosts))
    × ((d : FailureDomain)
        → In d (failure_domains hosts)
        → IsUsed hosts d.name × (d.control_plane ≡ some true))
    × ((h : TartHost)
        → In h hosts
        → h.spec.failure_domain ≢ ""
        → In (as_domain h.spec.failure_domain) (failure_domains hosts))
failure_domains_lem_example = failure_domains_lem hosts
