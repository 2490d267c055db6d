-- ===== src/Vm/SeedUpdate.antt =====
-- internal/provider/qemu_vm_seed_update.go: which NoCloud seed a guest may exchange. The history of the
-- attachment stands in the private state.
pub mod Proven
use terraform_provider_proxm.Prelude.{
  Bool, true, false, not, ◌&&◌, ◌||◌, Option, none, some, [], ◌∷◌, ◌++◌, if◌then◌else◌,
}
use terraform_provider_proxm.Int.{ℤ, pos, eqz}
use terraform_provider_proxm.Text.{Text, codes, text_eq, is_empty, has_suffix, to_lower}
use terraform_provider_proxm.Value.{string_value, value_or}
use terraform_provider_proxm.Config.{Float64}
use terraform_provider_proxm.Client.Error.{Error, failure, Result, ok, err, quote}
use terraform_provider_proxm.Vm.Slots.{find, put}
use terraform_provider_proxm.Vm.Cdrom.{Slots, lookup, wire_disk_volume, wire_disk_has_media_cdrom}
use terraform_provider_proxm.Vm.Model.{QemuVmModel, nocloud_slot_value, expand}
use terraform_provider_proxm.Device.Disk.{Disk, empty_disk}

-- qemuSeedAttachment; `pending` is the volume of an exchange that is not confirmed, or empty
pub record SeedAttachment : Type 0 where
  pub node : Text
  pub vm_id : ℤ
  pub slot : Text
  pub volume : Text
  pub pending : Text

abbrev pub no_attachment : SeedAttachment
no_attachment = record { node = []; vm_id = pos 0; slot = []; volume = []; pending = [] }

abbrev pub or_blank : Option Text → Text
or_blank none = []
or_blank (some value) = value

-- A map of strings at a key, empty if it is not there.
abbrev pub at_key : Slots → Text → Text
at_key slots name = or_blank (lookup slots name)

-- An ISO in a CD-ROM drive.
abbrev pub holds_iso : Text → Bool
holds_iso wire =
    wire_disk_has_media_cdrom wire && has_suffix (to_lower (wire_disk_volume wire)) (codes ".iso")

abbrev unfinished : Text → Error
unfinished pending = failure (
    codes "finish the pending NoCloud attachment to "
    ++ (quote pending ++ codes " before changing its target or VM identity"))

abbrev unproven : Text → Text → Error
unproven slot volume = failure (
    codes "NoCloud slot "
    ++ (quote slot
        ++ (codes " contains unproven ISO "
            ++ (quote volume
                ++ codes
                    "; refresh/import does not grant ownership. To migrate an existing workspace, explicitly authorize its verified old seed with nocloud_seed_update_from"))))

module _ {F : Float64} where
  abbrev disk_at : QemuVmModel F → Text → Disk F
  disk_at model slot = elim (find (expand [] model.disk) slot) [
    | none ↦ empty_disk F
    | some disk ↦ disk
  ]

  abbrev cdrom_volume : Disk F → Text
  cdrom_volume disk =
      if text_eq (string_value disk.media) (codes "cdrom") then string_value disk.volume else []

  -- qemuSeedFromModel
  unfoldable pub seed_from_model : QemuVmModel F → SeedAttachment
  unfolding nocloud_slot_value
  seed_from_model model =
      let slot = nocloud_slot_value model in
      if is_empty slot then no_attachment else record {
        node = string_value model.node;
        vm_id = value_or (pos 0) model.vm_id;
        slot = slot;
        volume = cdrom_volume (disk_at model slot);
        pending = [];
      }

  -- The history is about this slot of this guest.
  abbrev pub is_same_slot : QemuVmModel F → Text → SeedAttachment → Bool
  is_same_slot model slot history =
      text_eq history.node (string_value model.node)
      && (eqz history.vm_id (value_or (pos 0) model.vm_id) && text_eq history.slot slot)

  abbrev pub blocks_exchange : QemuVmModel F → Text → Text → SeedAttachment → Bool
  blocks_exchange model slot target history =
      not (is_empty history.pending)
      && not (is_same_slot model slot history && text_eq history.pending target)

  abbrev pub is_owned : QemuVmModel F → Text → Text → SeedAttachment → Bool
  is_owned model slot volume history =
      is_same_slot model slot history
      && (text_eq volume history.volume || text_eq volume history.pending)

  -- nocloud_seed_update_from names the volume.
  abbrev pub is_explicit : QemuVmModel F → Text → Bool
  is_explicit model volume =
      not (is_empty (string_value model.nocloud_update_from))
      && text_eq (string_value model.nocloud_update_from) volume

  abbrev pub swap_iso :
      QemuVmModel F → Text → Text → Text → Slots → SeedAttachment → Result (Slots × Bool)
  swap_iso model slot target volume disk history =
      if is_owned model slot volume history || is_explicit model volume
      then ok (put slot (target ++ codes ",media=cdrom") disk, true)
      else err (unproven slot volume)

  abbrev pub exchange :
      QemuVmModel F → Text → Text → Text → Slots → SeedAttachment → Result (Slots × Bool)
  exchange model slot target wire disk history =
      if text_eq target (wire_disk_volume wire)
      then ok (disk, false)
      else if not (holds_iso wire)
      then ok (disk, true)
      else swap_iso model slot target (wire_disk_volume wire) disk history

  -- authorizeQemuSeedUpdate: the disks as the ownership check is to see them, and whether the seed is
  -- exchanged; `disk` is that of the current configuration
  unfoldable pub authorize_seed_update :
      QemuVmModel F → Slots → Slots → SeedAttachment → Result (Slots × Bool)
  unfolding nocloud_slot_value wire_disk_volume wire_disk_has_media_cdrom has_suffix to_lower
  authorize_seed_update model planned disk history =
      let slot = nocloud_slot_value model in
      let target = at_key planned slot in
      if blocks_exchange model slot target history
      then err (unfinished history.pending)
      else exchange model slot target (at_key disk slot) disk history
