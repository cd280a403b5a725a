-- ===== src/Host/Selection.antt =====
-- usecase/host/selection.go. `sum256` stands for `sha256.Sum256` of the standard library, whose
-- digests are lists of bytes, and `print` for the printed form of a UUID.
pub mod Rank
pub mod Best
use cluster_api_provider_tar.Base.{
  ℕ, zero, suc, String, ◌+◌, ◌-◌, ◌*◌, ◌/◌, ◌%◌, ◌^◌, ◌≤◌, ◌<◌, ◌≡◌, refl, sym, ap, subst, ◌∙◌, ◌≢◌,
  ◌↔◌, ◌⊎◌, inl, inr, Bool, true, false, not, ◌&&◌, ◌||◌, Option, none, some, List, [], ◌∷◌, ◌++◌,
  map, arith, eq_iff, eq_refl, ltb, leb, if◌then◌else◌, Comparable, ◌==◌, ◌!=◌, comparable_nat,
  comparable_text, comparable_list, list_beq_iff, ==_refl, Bool-cases, Option-cases, ltb→lt, leb→le,
  is_some, length, any, keep, count_if, All, In, trim_space, is_blank, codes, is_blank-empty,
  is_blank_nonempty,
}
use cluster_api_provider_tar.Base.Order.{lt_bytes}
use cluster_api_provider_tar.Base.Sort.{sort}
use cluster_api_provider_tar.Base.Format.{concat}
use cluster_api_provider_tar.Base.Result.{Result, ok, err}
use cluster_api_provider_tar.Api.Meta.{HostId, host_id_is_zero}
use cluster_api_provider_tar.Api.Host.{TartHost}
use cluster_api_provider_tar.Api.Machine.{HostSelector}
use cluster_api_provider_tar.Host.Eligibility.{Eligibility, available, classify}
use cluster_api_provider_tar.Host.Selector.{LabelMatcher, matches_for_failure_domain}

-- `ErrNoEligibleHost`.
pub data SelectionError : Type 0 where
  no_eligible_host : SelectionError

abbrev is_available : Eligibility → Bool
is_available available = true
is_available _ = false

-- The tests of the loop over the hosts.
unfoldable pub is_candidate : LabelMatcher → Option HostSelector → String → TartHost → Bool
is_candidate matches_labels selector failure_domain candidate =
    if not (is_available (classify candidate.spec)) || host_id_is_zero candidate.spec.host_id
    then false
    else matches_for_failure_domain matches_labels candidate.labels candidate.spec selector
        failure_domain

-- `cmp.Compare(left.Name, right.Name) < 0`.
unfoldable pub name_before : TartHost → TartHost → Bool
name_before left right = lt_bytes (codes left.name) (codes right.name)

-- `&candidates[0]` of a slice that may be empty.
abbrev first_of : List TartHost → Result SelectionError TartHost
first_of [] = err no_eligible_host
first_of (h ∷ hs) = ok h

module _ (sum256 : String → List ℕ) (print : HostId → String) where
  -- `hostScore`.
  unfoldable pub host_score : String → HostId → List ℕ
  host_score machine_uid host_id = sum256 (concat (machine_uid ∷ "\0" ∷ print host_id ∷ []))

  -- The higher score comes first, then the lower name.
  unfoldable pub score_before : String → TartHost → TartHost → Bool
  unfolding name_before
  score_before machine_uid left right =
      let left_score = host_score machine_uid left.spec.host_id in
      let right_score = host_score machine_uid right.spec.host_id in
      if lt_bytes left_score right_score
      then false
      else if lt_bytes right_score left_score
      then true
      else name_before left right

  unfoldable pub before : String → TartHost → TartHost → Bool
  before machine_uid left right =
      if machine_uid == "" then name_before left right else score_before machine_uid left right

  -- `SelectFreshForFailureDomainWithRendezvous`.
  unfoldable pub select_fresh :
      LabelMatcher
      → List TartHost
      → Option HostSelector
      → String
      → String
      → Result SelectionError TartHost
  select_fresh matches_labels hosts selector failure_domain machine_uid =
      first_of (
        sort (before machine_uid)
          (keep (is_candidate matches_labels selector failure_domain) hosts))
