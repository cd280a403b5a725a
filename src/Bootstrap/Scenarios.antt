-- ===== src/Bootstrap/Scenarios.antt =====
-- A machine with one writable disk and one that is write-protected.
use cluster_api_provider_tar.Base.{
  String, ◌≡◌, refl, ◌↔◌, true, false, List, [], ◌∷◌, comparable_nat, comparable_text,
  comparable_list, In, is_blank,
}
use cluster_api_provider_tar.Base.Result.{ok, err}
use cluster_api_provider_tar.Bootstrap.Disk.{
  DiskIdentity, disk_selection_unavailable, select_disk, is_usable, unique_disk_selector,
  disk_selectors_for, first_unique,
}
use cluster_api_provider_tar.Bootstrap.Disk.Choice.{
  IsChosen, select_disk-IsChosen, select_disk_unavailable_iff,
}

abbrev same_text : String → String
same_text s = s

abbrev disk : DiskIdentity
disk = record {
  device_path = "/dev/sda";
  size_bytes = 8;
  model = "m";
  serial = "s1";
  wwid = "";
  bus_path = "";
  transport = "sata";
  rotational = false;
  read_only = false;
}

abbrev stick : DiskIdentity
stick = record disk { device_path = "/dev/sdb"; serial = "s2"; read_only = true }

abbrev disks : List DiskIdentity
disks = stick ∷ disk ∷ []

chosen : select_disk same_text disks ≡ ok disk
unfolding select_disk unique_disk_selector disk_selectors_for first_unique is_blank
chosen = refl

select_disk-IsChosen_example : IsChosen same_text disks disk
select_disk-IsChosen_example = select_disk-IsChosen same_text disks disk chosen

select_disk_unavailable_iff_example :
    (select_disk same_text (stick ∷ []) ≡ err disk_selection_unavailable)
    ↔ ((d : DiskIdentity) → In d (stick ∷ []) → is_usable same_text d ≡ false)
select_disk_unavailable_iff_example = select_disk_unavailable_iff same_text (stick ∷ [])
