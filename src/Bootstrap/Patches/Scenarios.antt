-- ===== src/Bootstrap/Patches/Scenarios.antt =====
-- Two raw patches of a user around a patch of the provider.
use cluster_api_provider_tar.Base.{
  ◌≡◌, refl, ◌↔◌, List, [], ◌∷◌, comparable_nat, comparable_text, comparable_list, In, is_blank,
}
use mathlib.Core.List.{Perm}
use cluster_api_provider_tar.Base.Int.{ℤ, pos}
use cluster_api_provider_tar.Base.Sort.{sort, insert}
use cluster_api_provider_tar.Base.Result.{ok}
use cluster_api_provider_tar.Bootstrap.Patches.{
  ConfigPatch, check_patches, layer_before, order_patches,
}
use cluster_api_provider_tar.Bootstrap.Patches.Stability.{
  IsLayered, of_layer, order_patches_lem, order_patches_iff, IsAcceptable,
}

abbrev first : ConfigPatch
first = record { layer = pos 1; content = "a" }

abbrev invariant : ConfigPatch
invariant = record { layer = pos 2; content = "b" }

abbrev second : ConfigPatch
second = record { layer = pos 1; content = "c" }

abbrev patches : List ConfigPatch
patches = invariant ∷ first ∷ second ∷ []

abbrev ordered : List ConfigPatch
ordered = first ∷ second ∷ invariant ∷ []

orders : order_patches patches ≡ ok ordered
unfolding order_patches check_patches is_blank sort insert layer_before
orders = refl

order_patches_lem_example :
    Perm ordered patches × IsLayered ordered × ((l : ℤ) → of_layer l ordered ≡ of_layer l patches)
order_patches_lem_example = order_patches_lem patches ordered orders

order_patches_iff_example :
    ((ordered : List ConfigPatch) × (order_patches patches ≡ ok ordered))
    ↔ ((p : ConfigPatch) → In p patches → IsAcceptable p)
order_patches_iff_example = order_patches_iff patches
