-- ===== src/Host/Identity.antt =====
-- usecase/host/identity.go. `parse` stands for `uuid.Parse`, `equal_fold` for `strings.EqualFold`.
pub mod Sharing
pub mod Conflicts
pub mod Scenarios
use cluster_api_provider_tar.Base.{
  ℕ, zero, suc, String, ◌+◌, ◌-◌, ◌*◌, ◌/◌, ◌%◌, ◌^◌, ◌≤◌, ◌<◌, ◌≡◌, refl, sym, ap, subst, ◌∙◌, ◌≢◌,
  ◌↔◌, ◌⊎◌, inl, inr, Bool, true, false, not, ◌&&◌, ◌||◌, Option, none, some, List, [], ◌∷◌, ◌++◌,
  map, arith, eq_iff, eq_refl, ltb, leb, if◌then◌else◌, Comparable, ◌==◌, ◌!=◌, comparable_nat,
  comparable_text, comparable_list, list_beq_iff, ==_refl, Bool-cases, Option-cases, ltb→lt, leb→le,
  is_some, length, any, keep, count_if, All, In, trim_space, is_blank, codes, is_blank-empty,
  is_blank_nonempty,
}
use cluster_api_provider_tar.Api.Meta.{Uuid, MacAddress, comparable_mac}
use cluster_api_provider_tar.Api.Host.{TartHost, DiskInventory, HostInventory}

-- `sameMACAddress`.
unfoldable pub same_mac_address : MacAddress → MacAddress → Bool
same_mac_address left right = left.is_set && right.is_set && left == right

module _ (parse : String → Option Uuid) (equal_fold : String → String → Bool) where
  abbrev both_parsed : Option Uuid → Option Uuid → Bool
  both_parsed (some left) (some right) = not (left == 0) && left == right
  both_parsed _ _ = false

  -- `sameIdentity`.
  unfoldable pub same_identity : String → String → Bool
  same_identity left right = both_parsed (parse left) (parse right)

  -- `sameDiskIdentity`.
  unfoldable pub same_disk_identity : DiskInventory → DiskInventory → Bool
  same_disk_identity left right =
      let left_wwid = trim_space left.wwid in
      let right_wwid = trim_space right.wwid in
      let left_serial = trim_space left.serial in
      let right_serial = trim_space right.serial in
      if left_wwid != "" && right_wwid != "" && equal_fold left_wwid right_wwid
      then true
      else left_serial != "" && right_serial != "" && left_serial == right_serial

  -- `diskIdentityConflict`.
  unfoldable pub disk_identity_conflict : List DiskInventory → List DiskInventory → Bool
  disk_identity_conflict left right = any (λ l. any (λ r. same_disk_identity l r) right) left

  -- `diskIdentityConflictWithin`.
  unfoldable pub disk_identity_conflict_within : List DiskInventory → Bool
  disk_identity_conflict_within [] = false
  disk_identity_conflict_within (disk ∷ disks) =
      disk_identity_conflict (disk ∷ []) disks || disk_identity_conflict_within disks

  abbrev same_object : TartHost → TartHost → Bool
  same_object host other = other.name == host.name && other.namespace == host.namespace

  abbrev inventories_clash : Option HostInventory → Option HostInventory → Bool
  inventories_clash (some left) (some right) =
      same_identity left.system_uuid right.system_uuid
      || disk_identity_conflict left.disks right.disks
  inventories_clash _ _ = false

  -- The tests of `HasIdentityConflict` on one other host.
  unfoldable pub clash : TartHost → TartHost → Bool
  clash host other =
      same_mac_address host.spec.mac_address other.spec.mac_address
      || inventories_clash host.status.inventory other.status.inventory

  -- `HasIdentityConflict`.
  unfoldable pub has_identity_conflict : TartHost → List TartHost → Bool
  has_identity_conflict host hosts =
      any (λ other. not (same_object host other) && clash host other) hosts

  abbrev within : Option HostInventory → Bool
  within none = false
  within (some inventory) = disk_identity_conflict_within inventory.disks

  abbrev disks_clash : Option HostInventory → Option HostInventory → Bool
  disks_clash (some left) (some right) = disk_identity_conflict left.disks right.disks
  disks_clash _ _ = false

  -- `HasDiskIdentityConflict`.
  unfoldable pub has_disk_identity_conflict : TartHost → List TartHost → Bool
  has_disk_identity_conflict host hosts =
      if within host.status.inventory
      then true
      else any
          (λ other.
            not (same_object host other)
            && disks_clash host.status.inventory other.status.inventory)
          hosts

  -- The loop of `HasIdentityConflictForAny`, after the hosts `earlier`.
  conflict_among : List TartHost → List TartHost → Bool
  conflict_among earlier [] = false
  conflict_among earlier (candidate ∷ later) =
      within candidate.status.inventory
      || has_identity_conflict candidate later
      || has_identity_conflict candidate earlier
      || conflict_among (earlier ++ (candidate ∷ [])) later

  -- `HasIdentityConflictForAny`.
  unfoldable pub has_identity_conflict_for_any : List TartHost → Bool
  unfolding conflict_among
  has_identity_conflict_for_any hosts = conflict_among [] hosts
