-- ===== src/Bootstrap/Disk.antt =====
-- domain/bootstrap/diskidentity.go and diskselector.go. `quote` stands for `strconv.Quote`.
pub mod Selectors
pub mod Choice
use cluster_api_provider_tar.Base.{
  ℕ, zero, suc, String, ◌+◌, ◌-◌, ◌*◌, ◌/◌, ◌%◌, ◌^◌, ◌≤◌, ◌<◌, ◌≡◌, refl, sym, ap, subst, ◌∙◌, ◌≢◌,
  ◌↔◌, ◌⊎◌, inl, inr, Bool, true, false, not, ◌&&◌, ◌||◌, Option, none, some, List, [], ◌∷◌, ◌++◌,
  map, arith, eq_iff, eq_refl, ltb, leb, if◌then◌else◌, Comparable, ◌==◌, ◌!=◌, comparable_nat,
  comparable_text, comparable_list, list_beq_iff, ==_refl, Bool-cases, Option-cases, ltb→lt, leb→le,
  is_some, length, any, keep, count_if, All, In, trim_space, is_blank, codes, is_blank-empty,
  is_blank_nonempty,
}
use cluster_api_provider_tar.Base.Format.{concat, format_nat}
use cluster_api_provider_tar.Base.Result.{Result, ok, err}

-- `DiskIdentity`.
pub record DiskIdentity : Type 0 where
  pub device_path : String
  pub size_bytes : ℕ
  pub model : String
  pub serial : String
  pub wwid : String
  pub bus_path : String
  pub transport : String
  pub rotational : Bool
  pub read_only : Bool

-- `DiskSelector`.
pub record DiskSelector : Type 0 where
  pub expression : String
  pub matches : DiskIdentity → Bool

-- `ErrDiskSelectionUnavailable` and `ErrDiskSelectionAmbiguous`.
pub data DiskError : Type 0 where
  disk_selection_unavailable disk_selection_ambiguous : DiskError

-- `expression` and `matches` while a selector is put together.
pub record Draft : Type 0 where
  pub terms : List String
  pub matches : DiskIdentity → Bool

abbrev join_terms : List String → String
join_terms [] = ""
join_terms (t ∷ []) = t
join_terms (t ∷ u ∷ ts) = concat (t ∷ " && " ∷ join_terms (u ∷ ts) ∷ [])

abbrev finish : Draft → DiskSelector
finish d = record { expression = join_terms d.terms; matches = d.matches }

-- One more condition.
abbrev also : Draft → String → (DiskIdentity → Bool) → Draft
also d term test = record { terms = d.terms ++ (term ∷ []); matches = λ c. d.matches c && test c }

module _ (quote : String → String) where
  abbrev base : DiskIdentity → Draft
  base disk = record {
    terms =
        "!disk.readonly" ∷ concat ("disk.size == " ∷ format_nat disk.size_bytes ∷ "u" ∷ []) ∷ [];
    matches = λ c. not c.read_only && c.size_bytes == disk.size_bytes;
  }

  abbrev with_model : DiskIdentity → Draft → Draft
  with_model disk d =
      if not (is_blank disk.model)
      then also d (concat ("disk.model == " ∷ quote disk.model ∷ [])) (λ c. c.model == disk.model)
      else d

  abbrev by_wwid : DiskIdentity → Draft
  by_wwid disk =
      also (base disk) (concat ("disk.wwid == " ∷ quote disk.wwid ∷ [])) (λ c. c.wwid == disk.wwid)

  abbrev serial_only : DiskIdentity → Draft
  serial_only disk =
      also (base disk) (concat ("disk.serial == " ∷ quote disk.serial ∷ []))
        (λ c. c.serial == disk.serial)

  abbrev bus_path_only : DiskIdentity → Draft
  bus_path_only disk =
      also (base disk) (concat ("disk.bus_path == " ∷ quote disk.bus_path ∷ []))
        (λ c. c.bus_path == disk.bus_path)

  abbrev by_serial : DiskIdentity → Draft
  by_serial disk = with_model disk (serial_only disk)

  abbrev by_bus_path : DiskIdentity → Draft
  by_bus_path disk = with_model disk (bus_path_only disk)

  abbrev by_kind : DiskIdentity → Draft
  by_kind disk =
      if disk.rotational
      then also (with_model disk (base disk)) "disk.rotational" (λ c. c.rotational)
      else also (with_model disk (base disk)) "!disk.rotational" (λ c. not c.rotational)

  abbrev unless_blank : String → Draft → List DiskSelector
  unless_blank text d = if not (is_blank text) then finish d ∷ [] else []

  -- `DiskSelectorsFor`.
  unfoldable pub disk_selectors_for : DiskIdentity → List DiskSelector
  disk_selectors_for disk =
      unless_blank disk.wwid (by_wwid disk)
      ++ (unless_blank disk.serial (by_serial disk)
          ++ (unless_blank disk.bus_path (by_bus_path disk) ++ (finish (by_kind disk) ∷ [])))

  -- The loop of `UniqueDiskSelector`.
  unfoldable pub first_unique : List DiskSelector → List DiskIdentity → Option String
  first_unique [] candidates = none
  first_unique (s ∷ selectors) candidates =
      let rest = first_unique selectors candidates in
      if count_if s.matches candidates == 1 then some s.expression else rest

  -- `UniqueDiskSelector`.
  unfoldable pub unique_disk_selector : DiskIdentity → List DiskIdentity → Option String
  unique_disk_selector disk candidates = first_unique (disk_selectors_for disk) candidates

  -- The test of the loop of `SelectDisk`.
  abbrev pub is_usable : DiskIdentity → Bool
  is_usable disk = not (is_blank disk.device_path || disk.size_bytes == 0 || disk.read_only)

  select_candidate : List DiskIdentity → List DiskIdentity → Result DiskError DiskIdentity
  select_candidate disks [] = err disk_selection_unavailable
  select_candidate disks (d ∷ []) =
      if is_some (unique_disk_selector d disks) then ok d else err disk_selection_ambiguous
  select_candidate disks (d ∷ e ∷ ds) = err disk_selection_ambiguous

  -- `SelectDisk`.
  unfoldable pub select_disk : List DiskIdentity → Result DiskError DiskIdentity
  unfolding select_candidate
  select_disk disks = select_candidate disks (keep is_usable disks)
