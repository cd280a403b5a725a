-- ===== src/Machine/Binding.antt =====
-- domain/machine/binding.go and `FindClaimedHost` of usecase/machine/binding.go.
pub mod Claims
use cluster_api_provider_tar.Base.{
  ℕ, zero, suc, String, ◌+◌, ◌-◌, ◌*◌, ◌/◌, ◌%◌, ◌^◌, ◌≤◌, ◌<◌, ◌≡◌, refl, sym, ap, subst, ◌∙◌, ◌≢◌,
  ◌↔◌, ◌⊎◌, inl, inr, Bool, true, false, not, ◌&&◌, ◌||◌, Option, none, some, List, [], ◌∷◌, ◌++◌,
  map, arith, eq_iff, eq_refl, ltb, leb, if◌then◌else◌, Comparable, ◌==◌, ◌!=◌, comparable_nat,
  comparable_text, comparable_list, list_beq_iff, ==_refl, Bool-cases, Option-cases, ltb→lt, leb→le,
  is_some, length, any, keep, count_if, All, In, trim_space, is_blank, codes, is_blank-empty,
  is_blank_nonempty,
}
use cluster_api_provider_tar.Base.Result.{Result, ok, err, ◌>>=◌}
use cluster_api_provider_tar.Api.Meta.{ObjectReference}
use cluster_api_provider_tar.Api.Host.{TartHost}

-- `ErrAmbiguousClaim`.
pub data ClaimError : Type 0 where
  ambiguous_claim : ClaimError

-- `IsBoundTo`.
unfoldable pub is_bound_to : String → String → Bool
is_bound_to host_consumer_uid machine_uid =
    host_consumer_uid != "" && machine_uid != "" && host_consumer_uid == machine_uid

-- `HostClaimCandidate`.
pub record HostClaimCandidate : Type 0 where
  pub name : String
  pub consumer_uid : String

-- The loop of `FindClaimedHostName`, with the name it has found so far.
find_name_from : String → List HostClaimCandidate → String → Result ClaimError String
find_name_from claimed [] machine_uid = ok claimed
find_name_from claimed (candidate ∷ candidates) machine_uid =
    let skipped = find_name_from claimed candidates machine_uid in
    let taken = find_name_from candidate.name candidates machine_uid in
    if not (is_bound_to candidate.consumer_uid machine_uid)
    then skipped
    else if claimed != "" && claimed != candidate.name
    then err ambiguous_claim
    else taken

-- `FindClaimedHostName`.
unfoldable pub find_claimed_host_name : List HostClaimCandidate → String → Result ClaimError String
unfolding find_name_from
find_claimed_host_name candidates machine_uid = find_name_from "" candidates machine_uid

abbrev pub consumer_uid_of : Option ObjectReference → String
consumer_uid_of none = ""
consumer_uid_of (some reference) = reference.uid

abbrev pub candidate_of : TartHost → HostClaimCandidate
candidate_of host = record {
  name = host.name;
  consumer_uid = consumer_uid_of host.spec.consumer_ref;
}

abbrev pub host_named : List TartHost → String → Option TartHost
host_named [] name = none
host_named (host ∷ hosts) name =
    let rest = host_named hosts name in if host.name == name then some host else rest

-- `FindClaimedHost`; no host is the nil pointer.
unfoldable pub find_claimed_host : List TartHost → String → Result ClaimError (Option TartHost)
find_claimed_host hosts machine_uid =
    find_claimed_host_name (map candidate_of hosts) machine_uid >>= λ claimed_name.
    ok (if claimed_name == "" then none else host_named hosts claimed_name)
