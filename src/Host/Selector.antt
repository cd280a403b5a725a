-- ===== src/Host/Selector.antt =====
-- usecase/host/selector.go. `matches_labels` stands for the label selectors of apimachinery:
-- `LabelSelectorAsSelector` and `Matches` in one, `none` where the selector is invalid.
use cluster_api_provider_tar.Base.{
  String, Bool, true, false, ◌&&◌, Option, none, some, if◌then◌else◌, ◌!=◌, comparable_nat,
  comparable_text, comparable_list,
}
use cluster_api_provider_tar.Api.Meta.{LabelSelector, StringMap}
use cluster_api_provider_tar.Api.Host.{TartHostSpec}
use cluster_api_provider_tar.Api.Machine.{HostSelector}

abbrev pub LabelMatcher : Type 0
LabelMatcher = LabelSelector → StringMap → Option Bool

abbrev or_false : Option Bool → Bool
or_false none = false
or_false (some b) = b

abbrev matches_selector : LabelMatcher → StringMap → TartHostSpec → Option HostSelector → Bool
matches_selector matches_labels labels spec none = true
matches_selector matches_labels labels spec (some selector) =
    if selector.architecture != "" && selector.architecture != spec.architecture
    then false
    else or_false (matches_labels selector.selector labels)

-- `MatchesForFailureDomain`.
unfoldable pub matches_for_failure_domain :
    LabelMatcher → StringMap → TartHostSpec → Option HostSelector → String → Bool
matches_for_failure_domain matches_labels labels spec selector failure_domain =
    if failure_domain != "" && spec.failure_domain != failure_domain
    then false
    else matches_selector matches_labels labels spec selector
