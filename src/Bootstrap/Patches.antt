-- ===== src/Bootstrap/Patches.antt =====
-- domain/bootstrap/composition.go: the order in which configuration patches are applied.
pub mod Stability
pub mod Scenarios
use cluster_api_provider_tar.Base.{
  ℕ, zero, suc, String, ◌+◌, ◌-◌, ◌*◌, ◌/◌, ◌%◌, ◌^◌, ◌≤◌, ◌<◌, ◌≡◌, refl, sym, ap, subst, ◌∙◌, ◌≢◌,
  ◌↔◌, ◌⊎◌, inl, inr, Bool, true, false, not, ◌&&◌, ◌||◌, Option, none, some, List, [], ◌∷◌, ◌++◌,
  map, arith, eq_iff, eq_refl, ltb, leb, if◌then◌else◌, Comparable, ◌==◌, ◌!=◌, comparable_nat,
  comparable_text, comparable_list, list_beq_iff, ==_refl, Bool-cases, Option-cases, ltb→lt, leb→le,
  is_some, length, any, keep, count_if, All, In, trim_space, is_blank, codes, is_blank-empty,
  is_blank_nonempty,
}
use cluster_api_provider_tar.Base.Int.{ℤ, pos, negsuc, ◌<?◌}
use cluster_api_provider_tar.Base.Sort.{sort}
use cluster_api_provider_tar.Base.Result.{Result, ok, err, ◌>>=◌, ◌>>◌, fail_if}

-- `Layer`, an integer of which three values are used.
abbrev pub layer_base : ℤ
layer_base = pos 0

abbrev pub layer_provider_invariant : ℤ
layer_provider_invariant = pos 2

-- `ConfigPatch`.
pub record ConfigPatch : Type 0 where
  pub layer : ℤ
  pub content : String

pub data PatchError : Type 0 where
  configuration_patch_empty config_patch_order_invalid : PatchError

-- The loop of `OrderPatches` that checks every patch.
pub check_patches : List ConfigPatch → Result PatchError (Unit {0})
check_patches [] = ok tt
check_patches (patch ∷ patches) = do
  fail_if (is_blank patch.content) configuration_patch_empty
  fail_if (patch.layer <? layer_base || layer_provider_invariant <? patch.layer)
      config_patch_order_invalid
  check_patches patches

-- `cmp.Compare(a.Layer, b.Layer) < 0`.
unfoldable pub layer_before : ConfigPatch → ConfigPatch → Bool
layer_before a b = a.layer <? b.layer

-- `OrderPatches`.
unfoldable pub order_patches : List ConfigPatch → Result PatchError (List ConfigPatch)
unfolding check_patches
order_patches patches = check_patches patches >> ok (sort layer_before patches)
