-- ===== src/Recovery/Retention.antt =====
-- usecase/recovery/retention.go: when a recovery Secret may be deleted. Times are numbers, and the
-- zero time is `none`; a period may be negative.
pub mod Holders
use cluster_api_provider_tar.Base.{
  ℕ, zero, suc, String, ◌+◌, ◌-◌, ◌*◌, ◌/◌, ◌%◌, ◌^◌, ◌≤◌, ◌<◌, ◌≡◌, refl, sym, ap, subst, ◌∙◌, ◌≢◌,
  ◌↔◌, ◌⊎◌, inl, inr, Bool, true, false, not, ◌&&◌, ◌||◌, Option, none, some, List, [], ◌∷◌, ◌++◌,
  map, arith, eq_iff, eq_refl, ltb, leb, if◌then◌else◌, Comparable, ◌==◌, ◌!=◌, comparable_nat,
  comparable_text, comparable_list, list_beq_iff, ==_refl, Bool-cases, Option-cases, ltb→lt, leb→le,
  is_some, length, any, keep, count_if, All, In, trim_space, is_blank, codes, is_blank-empty,
  is_blank_nonempty,
}
use cluster_api_provider_tar.Base.Int.{ℤ, pos, negsuc, ◌<?◌, sub_ℕ}
use cluster_api_provider_tar.Api.Meta.{StringMap, lookup_or_empty}
use cluster_api_provider_tar.Api.Host.{TartHost, TalosIdentityReference}
use cluster_api_provider_tar.Api.Secret.{Secret}
use cluster_api_provider_tar.Recovery.RecoverySecret.{cluster_id_label, is_recovery_secret}

-- `CreationGracePeriod`, in seconds.
abbrev pub creation_grace_period : ℤ
creation_grace_period = pos 1800

reference_names : Option TalosIdentityReference → String → Bool
reference_names none secret_name = false
reference_names (some reference) secret_name =
    let name = trim_space reference.recovery_secret_ref in
    name != "" && name == trim_space secret_name

-- `IsReferencedBy`.
unfoldable pub is_referenced_by : TartHost → String → Bool
unfolding reference_names
is_referenced_by host secret_name =
    reference_names host.status.current_talos_identity_ref secret_name

abbrev at_least_zero : ℤ → ℤ
at_least_zero grace = if grace <? pos 0 then pos 0 else grace

abbrev too_young : Option ℕ → ℕ → ℤ → Bool
too_young none now grace = false
too_young (some created) now grace = sub_ℕ now created <? grace

-- `ShouldDelete`, at the time `now`.
unfoldable pub should_delete : Option Secret → List TartHost → ℕ → ℤ → Bool
should_delete none hosts now grace = false
should_delete (some secret) hosts now grace =
    if not (is_recovery_secret (some secret)) || is_some secret.deletion_timestamp
    then false
    else if is_blank (lookup_or_empty secret.labels cluster_id_label)
    then false
    else if too_young secret.creation_timestamp now (at_least_zero grace)
    then false
    else not (any (λ host. is_referenced_by host secret.name) hosts)
