-- ===== src/Machine/Scenarios.antt =====
-- Concrete machines: one that is bound to a host, and one whose deletion is under way.
use cluster_api_provider_tar.Base.{
  ℕ, ◌+◌, ◌≤◌, ◌≡◌, sym, ap, ◌∙◌, ◌≢◌, ◌↔◌, inl, inr, true, some, List, [], ◌∷◌, arith, eq_iff,
  comparable_nat, comparable_text, comparable_list, In,
}
use cluster_api_provider_tar.Api.Meta.{Condition, find_status_condition}
use cluster_api_provider_tar.Api.Host.{TartHost}
use cluster_api_provider_tar.Api.Samples.{sample_host, sample_spec, sample_consumer}
use cluster_api_provider_tar.Machine.Binding.{find_claimed_host}
use cluster_api_provider_tar.Machine.Binding.Claims.{Answers, find_claimed_host_lem}
use cluster_api_provider_tar.Machine.Deletion.{
  deletion_drain_complete, shutdown_request_settled, shutdown_requested_reason, ready_condition,
}
use cluster_api_provider_tar.Machine.Deletion.Stages.{
  IsDrained, deletion_drain_complete_iff, shutdown_request_settled_iff,
}
use cluster_api_provider_tar.Machine.Samples.{names, capi_machine, machine}

abbrev held : TartHost
held = record sample_host { spec = record sample_spec { consumer_ref = some sample_consumer } }

abbrev hosts : List TartHost
hosts = held ∷ []

named : (g : TartHost) → In g hosts → g.name ≢ ""
named g (inl q) = ground (arith, ap (λ h. h.name) q, eq_iff "host-a" "")
named g (inr m) = absurd m

unique : (a b : TartHost) → In a hosts → In b hosts → a.name ≡ b.name → a ≡ b
unique a b (inl p) (inl q) e = p ∙ sym q
unique a b (inl p) (inr m) e = absurd m
unique a b (inr m) n e = absurd m

find_claimed_host_lem_example : Answers hosts "uid-a" (find_claimed_host hosts "uid-a")
find_claimed_host_lem_example = find_claimed_host_lem hosts "uid-a" named unique

deletion_drain_complete_iff_example :
    (deletion_drain_complete names (some capi_machine) ≡ true) ↔ IsDrained names capi_machine
deletion_drain_complete_iff_example = deletion_drain_complete_iff names capi_machine

shutdown_request_settled_iff_example : (shutdown_request_settled (some machine) 60 90 ≡ true) ↔ (
    (c : Condition) × (t : ℕ) × (find_status_condition machine.status.conditions ready_condition
      ≡ some c)
    × (c.reason ≡ shutdown_requested_reason)
    × (c.last_transition_time ≡ some t)
    × (t + 60 ≤ 90))
shutdown_request_settled_iff_example = shutdown_request_settled_iff machine 60 90
