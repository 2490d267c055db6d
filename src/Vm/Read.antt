-- ===== src/Vm/Read.antt =====
-- QemuVMResource.Read of internal/provider/resource_qemu_vm.go, with readQemuVMState. Of the refreshed model
-- it has the parts that the handler looks at: the name, and the disks with the seed.
pub mod Evidence
pub mod Seed
use terraform_provider_proxm.Prelude.{
  Bool, true, false, not, ◌&&◌, Option, none, some, List, [], ◌∷◌, if◌then◌else◌,
}
use terraform_provider_proxm.Int.{ℤ, pos, eqz}
use terraform_provider_proxm.Text.{Text, codes, text_eq, is_empty}
use terraform_provider_proxm.Value.{Value, null, known, string_value, value_or}
use terraform_provider_proxm.Config.{Float64}
use terraform_provider_proxm.Client.Error.{Error, Result, ok, err, is_not_found}
use terraform_provider_proxm.Device.Disk.{parse_disk}
use terraform_provider_proxm.Vm.Identity.{owned_names, owns_guest}
use terraform_provider_proxm.Vm.Slots.{slot_state_value, project_disk_state}
use terraform_provider_proxm.Vm.Model.{QemuVmModel, nocloud_slot_value}
use terraform_provider_proxm.Vm.SeedUpdate.{SeedAttachment, seed_from_model}
use terraform_provider_proxm.Vm.World.{
  GuestConfig, foreign_warned, Server, World, record_event, reconcile_pending_task,
  get_qemu_vm_config, get_qemu_vm_status, and_then,
}
use terraform_provider_proxm.Vm.Update.Apply.{string_or_null}

-- What Read makes of the resource's state.
pub data Outcome : Type 0 where
  -- the prior state is set again
  unchanged : Outcome
  -- RemoveResource
  removed : Outcome
  -- the refreshed state is set
  refreshed : Outcome

module _ {F : Float64} (server : Server) (state : QemuVmModel F) where
  abbrev pub node : Text
  node = string_value state.node

  abbrev pub vm_id : ℤ
  vm_id = value_or (pos 0) state.vm_id

  -- readQemuVMState: none for a guest that is gone
  abbrev pub with_status : GuestConfig → Result Text × World → Result (Option GuestConfig) × World
  with_status config (ok status, w) = (ok (some config), w)
  with_status config (err e, w) = (if is_not_found e then ok none else err e, w)

  abbrev pub with_config : Result GuestConfig × World → Result (Option GuestConfig) × World
  with_config (ok config, w) = with_status config (get_qemu_vm_status server w)
  with_config (err e, w) = (if is_not_found e then ok none else err e, w)

  abbrev pub read_state : World → Result (Option GuestConfig) × World
  read_state w = with_config (get_qemu_vm_config server node vm_id w)

  -- qemuSeedFromModel of the refreshed model, whose disks are those that the state manages and whose
  -- marker is the state's.
  unfoldable pub observed_seed : GuestConfig → SeedAttachment
  unfolding parse_disk slot_state_value project_disk_state seed_from_model
  observed_seed config = seed_from_model (record state {
    disk = project_disk_state (slot_state_value (parse_disk F) config.disk).0 (some state.disk);
  })

  abbrev pub is_confirmed : SeedAttachment → SeedAttachment → Bool
  is_confirmed history observed =
      text_eq history.node observed.node
      && eqz history.vm_id observed.vm_id
      && text_eq history.slot observed.slot
      && text_eq history.pending observed.volume

  -- A pending exchange whose volume is observed is recorded as attached.
  abbrev pub confirm_pending : SeedAttachment → SeedAttachment → SeedAttachment
  confirm_pending history observed =
      if not (is_empty history.pending) && is_confirmed history observed
      then record history { volume = observed.volume; pending = [] }
      else history

  unfoldable pub refresh_seed : GuestConfig → World → World
  unfolding nocloud_slot_value observed_seed
  refresh_seed config w =
      if is_empty (nocloud_slot_value state)
      then w
      else record w { seed = confirm_pending w.seed (observed_seed config) }

  abbrev pub has_rename : List Text → Bool
  has_rename [] = false
  has_rename (name ∷ []) = false
  has_rename (name ∷ pending ∷ names) = true

  -- The observed name settles an unconfirmed rename.
  abbrev pub settle_rename : List Text → World → World
  settle_rename owned w = if has_rename owned then record w { pending_name = [] } else w

  abbrev pub set_name : Text → World → World
  set_name name w = record w { recorded_name = string_or_null name }

  abbrev pub read_found : List Text → Option GuestConfig → World → Result Outcome × World
  read_found owned none w = (ok removed, w)
  read_found owned (some config) w =
      if owns_guest owned config.name
      then (ok refreshed, set_name config.name (refresh_seed config (settle_rename owned w)))
      else (ok removed, record_event foreign_warned w)

  abbrev pub read_settled : World → Result Outcome × World
  read_settled w = and_then (read_state w) (read_found (owned_names state.name w.pending_name))

  abbrev pub read_classified : Bool → World → Result Outcome × World
  read_classified false w = (ok unchanged, w)
  read_classified true w = read_settled (record w { pending_task = [] })

  unfoldable pub read : World → Result Outcome × World
  unfolding owns_guest owned_names reconcile_pending_task refresh_seed
  read w =
      if is_empty w.pending_task
      then read_settled w
      else and_then (reconcile_pending_task server w.pending_task w) read_classified
