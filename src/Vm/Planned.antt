-- ===== src/Vm/Planned.antt =====
-- internal/provider/resource_qemu_vm.go: the CD-ROM media that a plan attaches, and their checks before
-- any change; ensureISOStorage of resource_nocloud_iso.go and isoVolumeExists of
-- client_storage_content.go, which read the storages of the node.
use terraform_provider_proxm.Prelude.{
  Bool, false, not, ◌&&◌, ◌||◌, Option, none, some, List, [], ◌∷◌, ◌++◌, if◌then◌else◌,
}
use terraform_provider_proxm.Text.{
  Text, codes, text_eq, is_empty, trim_space, split, has_suffix, to_lower,
}
use terraform_provider_proxm.Text.Sort.{sorted_strings, join_text}
use terraform_provider_proxm.Value.{string_value}
use terraform_provider_proxm.Config.{Float64, disk_storage_from_volume}
use terraform_provider_proxm.Client.Error.{failure, Result, ok, err, quote}
use terraform_provider_proxm.Device.Disk.{Disk}
use terraform_provider_proxm.Vm.Slots.{MapOf, find, put}
use terraform_provider_proxm.Vm.Cdrom.{
  Slots, equal_fold, is_disk_key, slot_supports_cdrom, is_pseudo_medium, is_volume_reference,
  wire_disk_volume, wire_disk_is_cdrom, is_extra_planned, slots_where,
}
use terraform_provider_proxm.Vm.Model.{QemuVmModel, no_raw, expand}
use terraform_provider_proxm.Vm.SeedUpdate.{at_key}
use terraform_provider_proxm.Vm.World.{
  NodeStorage, Server, World, and_then, explain, node_storages, iso_volumes,
}

-- maps.Copy
abbrev pub copy : Slots → Slots → Slots
copy [] into = into
copy ((slot, value) ∷ from) into = put slot value (copy from into)

abbrev is_raw_cdrom : Text → Text → Bool
is_raw_cdrom slot value =
    is_disk_key slot && (wire_disk_is_cdrom value || is_pseudo_medium (wire_disk_volume value))

abbrev raw_volumes : Slots → Slots
raw_volumes [] = []
raw_volumes ((slot, value) ∷ extra) =
    let rest = raw_volumes extra in
    if is_raw_cdrom slot value then (slot, wire_disk_volume value) ∷ rest else rest

abbrev marker_error : Text → Text → Result (Unit {0})
marker_error marker message =
    err (failure (codes "`nocloud_cdrom_slot` slot " ++ (quote marker ++ message)))

module _ {F : Float64} where
  -- The `continue` of plannedQemuVMCDROMs is for the other disks.
  abbrev is_planned_cdrom : Disk F → Bool
  is_planned_cdrom disk =
      equal_fold (string_value disk.media) (codes "cdrom")
      || has_suffix (to_lower (string_value disk.volume)) (codes ".iso")

  abbrev volumes_where : (Disk F → Bool) → MapOf (Disk F) → Slots
  volumes_where p [] = []
  volumes_where p ((slot, disk) ∷ disks) =
      let rest = volumes_where p disks in
      if p disk then (slot, string_value disk.volume) ∷ rest else rest

  -- plannedQemuVMCDROMs
  unfoldable pub planned_cdroms : QemuVmModel F → Slots
  unfolding has_suffix to_lower
  planned_cdroms model = volumes_where is_planned_cdrom (expand [] model.disk)

  -- plannedQemuVMRawWireCDROMs
  unfoldable pub planned_raw_wire_cdroms : QemuVmModel F → Slots
  unfolding is_disk_key wire_disk_is_cdrom is_pseudo_medium wire_disk_volume
  planned_raw_wire_cdroms model = raw_volumes (expand [] (expand no_raw model.raw).extra_config)

  abbrev is_pseudo_disk : Disk F → Bool
  is_pseudo_disk disk = is_pseudo_medium (string_value disk.volume)

  -- plannedQemuVMWireCDROMs
  unfoldable pub planned_wire_cdroms : QemuVmModel F → Slots → Text → Slots
  unfolding is_pseudo_medium planned_raw_wire_cdroms
  planned_wire_cdroms model typed marker =
      if is_empty marker
      then typed
      else copy (volumes_where is_pseudo_disk (expand [] model.disk))
          (copy (planned_raw_wire_cdroms model) (copy typed []))

  abbrev check_marker : Text → Option (Disk F) → Result (Unit {0})
  check_marker marker none = marker_error marker (codes " attaches no CD-ROM media")
  check_marker marker (some disk) =
      if not (is_volume_reference (string_value disk.volume))
      then marker_error marker (codes " must plan a real ISO volume")
      else if not (equal_fold (string_value disk.media) (codes "cdrom"))
      then marker_error marker (codes " must set `media = \"cdrom\"` explicitly on the marked disk")
      else ok tt

  -- validateQemuVMNoCloudMarkerSlot; the texts of its errors are shortened
  unfoldable pub validate_marker_slot : Text → MapOf (Disk F) → Result (Unit {0})
  unfolding is_volume_reference to_lower
  validate_marker_slot marker disks = check_marker marker (find disks marker)

abbrev pub slots_without_cdrom : Slots → List Text
slots_without_cdrom = slots_where (λ p. not (slot_supports_cdrom p.0))

abbrev pub cannot_hold : Text
cannot_hold = codes "slot cannot hold CD-ROM media: "

abbrev pub other_seeds : Text
other_seeds = codes "plan attaches seed volumes to slots "

abbrev drop_empty : List Text → List Text
drop_empty [] = []
drop_empty (part ∷ parts) =
    let rest = drop_empty parts in
    if is_empty (trim_space part) then rest else trim_space part ∷ rest

-- splitProxmoxList
unfoldable pub split_proxmox_list : Text → List Text
unfolding trim_space split sorted_strings
split_proxmox_list value =
    if is_empty (trim_space value)
    then []
    else sorted_strings (drop_empty (split (trim_space value) b','))

abbrev pub mem : Text → List Text → Bool
mem s [] = false
mem s (t ∷ ts) = text_eq t s || mem s ts

abbrev is_set : Option Bool → Bool
is_set none = false
is_set (some b) = b

abbrev find_storage : Text → List NodeStorage → Option NodeStorage
find_storage storage [] = none
find_storage storage (entry ∷ entries) =
    if text_eq entry.storage storage then some entry else find_storage storage entries

abbrev storage_error : Text → Text → Result (Unit {0})
storage_error storage message = err (failure (codes "storage " ++ (quote storage ++ message)))

abbrev check_storage : Text → Option NodeStorage → Result (Unit {0})
check_storage storage none = storage_error storage (codes " is not visible on the node")
check_storage storage (some entry) =
    if not (is_set entry.enabled)
    then storage_error storage (codes " is disabled")
    else if not (is_set entry.active)
    then storage_error storage (codes " is not active")
    else if not (mem (codes "iso") (split_proxmox_list entry.content))
    then storage_error storage (codes " does not support iso content")
    else ok tt

module _ (server : Server) where
  abbrev pub check_listed : Text → List NodeStorage → World → Result (Unit {0}) × World
  check_listed storage storages w = (check_storage storage (find_storage storage storages), w)

  -- ensureISOStorage
  unfoldable pub ensure_iso_storage : Text → World → Result (Unit {0}) × World
  unfolding split_proxmox_list
  ensure_iso_storage storage w =
      and_then (explain (codes "unable to read storage status") (node_storages server w))
        (check_listed storage)

  abbrev pub check_volume : Text → List Text → World → Result (Unit {0}) × World
  check_volume volume volumes w =
      if mem volume volumes
      then (ok tt, w)
      else (err (failure (codes "seed volume " ++ (quote volume ++ codes " does not exist"))), w)

  abbrev pub find_volume : Text → World → Result (Unit {0}) × World
  find_volume volume w =
      and_then
        (explain (codes "unable to verify seed volume " ++ quote volume)
          (iso_volumes server (disk_storage_from_volume volume) w))
        (check_volume volume)

  abbrev pub check_seed_volume : Text → World → Result (Unit {0}) × World
  check_seed_volume volume w =
      and_then (ensure_iso_storage (disk_storage_from_volume volume) w) (λ _. find_volume volume)

  abbrev pub reject_slots : Text → List Text → Result (Unit {0})
  reject_slots message [] = ok tt
  reject_slots message (slot ∷ slots) =
      err (failure (message ++ join_text (sorted_strings (slot ∷ slots)) (codes ", ")))

  abbrev pub check_single : Slots → Text → World → Result (Unit {0}) × World
  check_single planned marker w =
      and_then (reject_slots other_seeds (slots_where (is_extra_planned marker) planned), w)
        (λ _. check_seed_volume (at_key planned marker))

  abbrev pub check_supported : Slots → Text → World → Result (Unit {0}) × World
  check_supported planned marker w =
      if is_empty marker then (ok tt, w) else check_single planned marker w

  -- validatePlannedQemuVMCDROMs; the texts of its errors are shortened
  unfoldable pub validate_planned_cdroms : Slots → Text → World → Result (Unit {0}) × World
  unfolding disk_storage_from_volume ensure_iso_storage sorted_strings join_text slot_supports_cdrom
      is_volume_reference
  validate_planned_cdroms planned marker w =
      and_then (reject_slots cannot_hold (slots_without_cdrom planned), w)
        (λ _. check_supported planned marker)
