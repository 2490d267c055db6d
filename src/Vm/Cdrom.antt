-- ===== src/Vm/Cdrom.antt =====
-- internal/provider/resource_qemu_vm.go: CD-ROM media and the NoCloud seed. A raw `/config` disk value
-- is read by its volume and its options; a marked workflow may not overwrite foreign media. The maps
-- are association lists with distinct keys.
pub mod Ownership
use terraform_provider_proxm.Prelude.{
  ℕ, Bool, true, false, ◌&&◌, ◌||◌, not, Option, none, some, List, [], ◌∷◌, ◌++◌, leb,
  if◌then◌else◌,
}
use terraform_provider_proxm.Int.{ℤ}
use terraform_provider_proxm.Text.{
  Text, codes, text_eq, is_empty, trim_space, split, cut, after, has_suffix, to_lower,
}
use terraform_provider_proxm.Text.Sort.{sorted_strings, join_text}
use terraform_provider_proxm.Text.Decimal.{format_int}
use terraform_provider_proxm.Client.Error.{Error, failure, Result, ok, err, quote}

abbrev pub Slots : Type 0
Slots = List (Text × Text)

-- The value of a map at a key, if it has one.
abbrev pub lookup : Slots → Text → Option Text
lookup [] name = none
lookup ((slot, value) ∷ slots) name = if text_eq slot name then some value else lookup slots name

-- strings.EqualFold with a lower-case ASCII text
abbrev pub equal_fold : Text → Text → Bool
equal_fold s t = text_eq (to_lower s) t

abbrev pub all_digits : Text → Bool
all_digits [] = true
all_digits (c ∷ s) = leb b'0' c && leb c b'9' && all_digits s

-- isDecimalString
unfoldable pub is_decimal_string : Text → Bool
is_decimal_string [] = false
is_decimal_string (c ∷ s) = all_digits (c ∷ s)

-- A key that is the prefix and a decimal number.
abbrev pub is_numbered : Text → Text → Bool
is_numbered prefix key = elim (after prefix key) [
  | none ↦ false
  | some rest ↦ is_decimal_string rest
]

unfoldable pub is_ip_config_key : Text → Bool
unfolding after is_decimal_string
is_ip_config_key = is_numbered (codes "ipconfig")

unfoldable pub is_network_key : Text → Bool
unfolding after is_decimal_string
is_network_key = is_numbered (codes "net")

unfoldable pub is_serial_key : Text → Bool
unfolding after is_decimal_string
is_serial_key = is_numbered (codes "serial")

unfoldable pub is_disk_key : Text → Bool
unfolding after is_decimal_string
is_disk_key key =
    is_numbered (codes "ide") key
    || is_numbered (codes "sata") key
    || is_numbered (codes "scsi") key
    || is_numbered (codes "virtio") key

-- qemuVMSlotSupportsCDROM
unfoldable pub slot_supports_cdrom : Text → Bool
unfolding after is_decimal_string
slot_supports_cdrom slot =
    is_numbered (codes "ide") slot
    || is_numbered (codes "sata") slot
    || is_numbered (codes "scsi") slot

-- qemuVMIsPseudoMedium
unfoldable pub is_pseudo_medium : Text → Bool
is_pseudo_medium volume = text_eq volume (codes "none") || text_eq volume (codes "cdrom")

-- qemuVMIsVolumeReference
unfoldable pub is_volume_reference : Text → Bool
is_volume_reference volume =
    not (is_empty volume)
    && not (text_eq volume (codes "cdrom"))
    && not (text_eq volume (codes "none"))

abbrev before_cut : Text → Option (Text × Text) → Text
before_cut s none = s
before_cut s (some (head, tail)) = head

-- qemuVMWireDiskVolume
unfoldable pub wire_disk_volume : Text → Text
unfolding trim_space cut
wire_disk_volume raw = trim_space (before_cut (trim_space raw) (cut (trim_space raw) b','))

abbrev is_media_cdrom : Option (Text × Text) → Bool
is_media_cdrom none = false
is_media_cdrom (some (key, value)) =
    text_eq (trim_space key) (codes "media") && equal_fold (trim_space value) (codes "cdrom")

abbrev any {ℓ} : {A : Type ℓ} → (A → Bool) → List A → Bool
any p [] = false
any p (x ∷ xs) = p x || any p xs

-- qemuVMWireDiskHasMediaCDROM
unfoldable pub wire_disk_has_media_cdrom : Text → Bool
unfolding trim_space cut split to_lower
wire_disk_has_media_cdrom raw =
    any (λ segment. is_media_cdrom (cut (trim_space segment) b'=')) (split raw b',')

-- qemuVMWireDiskIsCDROM
unfoldable pub wire_disk_is_cdrom : Text → Bool
unfolding wire_disk_volume has_suffix to_lower wire_disk_has_media_cdrom
wire_disk_is_cdrom raw =
    has_suffix (to_lower (wire_disk_volume raw)) (codes ".iso") || wire_disk_has_media_cdrom raw

-- qemuVMCloudInitFormats
abbrev cloud_init_formats : List Text
cloud_init_formats =
    codes "raw" ∷ codes "qcow" ∷ codes "qcow2" ∷ codes "qed" ∷ codes "vmdk" ∷ codes "cloop" ∷ []

unfoldable pub cloud_init_name : ℤ → Text
unfolding format_int
cloud_init_name vm_id = codes "vm-" ++ (format_int vm_id ++ codes "-cloudinit")

-- A volume name without its format, if the format is known. The name before the first dot is what
-- strings.TrimSuffix leaves of it.
abbrev cloud_init_base : Text → Option (Text × Text) → Option Text
cloud_init_base name none = some name
cloud_init_base name (some (base, format)) =
    if any (text_eq format) cloud_init_formats then some base else none

abbrev owned_file : ℤ → Option (Text × Text) → Bool
owned_file vm_id none = false
owned_file vm_id (some (owner, file)) =
    text_eq owner (format_int vm_id) && text_eq file (cloud_init_name vm_id)

abbrev cloud_init_owned : ℤ → Option Text → Bool
cloud_init_owned vm_id none = false
cloud_init_owned vm_id (some base) =
    text_eq base (cloud_init_name vm_id) || owned_file vm_id (cut base b'/')

abbrev cloud_init_volume : ℤ → Option (Text × Text) → Bool
cloud_init_volume vm_id none = false
cloud_init_volume vm_id (some (storage, name)) =
    not (is_empty name) && cloud_init_owned vm_id (cloud_init_base name (cut name b'.'))

-- qemuVMIsPVECloudInitDrive
unfoldable pub is_pve_cloud_init_drive : Text → ℤ → Bool
unfolding cut format_int cloud_init_name wire_disk_volume wire_disk_has_media_cdrom
is_pve_cloud_init_drive raw vm_id =
    wire_disk_has_media_cdrom raw && cloud_init_volume vm_id (cut (wire_disk_volume raw) b':')

-- What a planned slot may find in the guest: nothing, the same volume, an empty bay, or the drive
-- that Proxmox generated for this guest.
abbrev pub may_attach : ℤ → Text → Option Text → Bool
may_attach vm_id volume none = true
may_attach vm_id volume (some raw) =
    text_eq (wire_disk_volume raw) volume
    || text_eq (wire_disk_volume raw) (codes "none")
    || is_pve_cloud_init_drive raw vm_id

abbrev is_absent : Option Text → Bool
is_absent none = true
is_absent (some _) = false

-- Another planned slot with a volume.
abbrev pub is_extra_planned : Text → Text × Text → Bool
is_extra_planned marker (slot, volume) = not (text_eq slot marker) && is_volume_reference volume

-- An inherited CD-ROM with a volume, in a slot that is not planned.
abbrev pub is_extra_inherited : Slots → Text × Text → Bool
is_extra_inherited planned (slot, raw) =
    is_absent (lookup planned slot)
    && wire_disk_is_cdrom raw
    && is_volume_reference (wire_disk_volume raw)

abbrev foreign_medium : Text → Text → Text → Error
foreign_medium slot current volume = failure (
    codes "slot "
    ++ (quote slot
        ++ (codes " currently holds "
            ++ (quote current
                ++ (codes "; attaching "
                    ++ (quote volume
                        ++ codes
                            " would replace an existing disk or unknown medium - only the same volume, an empty bay, or this VM's Proxmox-generated cloud-init drive in its own slot may be replaced in place; swap the seed by replacing the VM (for example through lifecycle replace_triggered_by), not by adopting or overwriting the live medium"))))))

abbrev current_volume : Option Text → Text
current_volume none = []
current_volume (some raw) = wire_disk_volume raw

-- The loop over the planned slots.
unfoldable pub check_attachments : ℤ → Slots → Slots → Result (Unit {0})
unfolding wire_disk_volume is_pve_cloud_init_drive
check_attachments vm_id inherited [] = ok tt
check_attachments vm_id inherited ((slot, volume) ∷ planned) =
    let rest = check_attachments vm_id inherited planned in
    if may_attach vm_id volume (lookup inherited slot)
    then rest
    else err (foreign_medium slot (current_volume (lookup inherited slot)) volume)

-- The slots of the entries that pass the test.
abbrev pub slots_where : (Text × Text → Bool) → Slots → List Text
slots_where p [] = []
slots_where p ((slot, value) ∷ slots) =
    let rest = slots_where p slots in if p (slot, value) then slot ∷ rest else rest

-- The seeds besides the marked one.
unfoldable pub extra_seeds : Slots → Slots → Text → List Text
unfolding is_volume_reference wire_disk_is_cdrom wire_disk_volume
extra_seeds planned inherited marker =
    slots_where (is_extra_planned marker) planned
    ++ slots_where (is_extra_inherited planned) inherited

abbrev pub reject_extra : Text → List Text → Result (Unit {0})
reject_extra marker [] = ok tt
reject_extra marker (slot ∷ slots) = err (
    failure (
      codes "attaching the marked NoCloud seed in "
      ++ (quote marker
          ++ (codes " would leave more than one ISO/cloud-init drive attached ("
              ++ (join_text (sorted_strings (slot ∷ slots)) (codes ", ")
                  ++ codes
                      "); replace the inherited Proxmox cloud-init drive in its own slot or detach the other medium first")))))

abbrev pub then_reject : Result (Unit {0}) → Result (Unit {0}) → Result (Unit {0})
then_reject (ok _) next = next
then_reject (err e) next = err e

-- validateQemuVMCDROMOwnership
unfoldable pub validate_cdrom_ownership : ℤ → Slots → Slots → Text → Result (Unit {0})
unfolding check_attachments extra_seeds sorted_strings join_text
validate_cdrom_ownership vm_id planned inherited marker =
    if is_empty marker
    then ok tt
    else then_reject (check_attachments vm_id inherited planned)
        (reject_extra marker (extra_seeds planned inherited marker))
