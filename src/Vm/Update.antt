-- ===== src/Vm/Update.antt =====
-- QemuVMResource.Update of internal/provider/resource_qemu_vm.go: its request, and the stages before any
-- change of the configuration. An error is what the diagnostic tells.
pub mod Apply
pub mod Monitor
pub mod Stages
pub mod Ordered
pub mod Keeps
pub mod Named
pub mod Renames
use terraform_provider_proxm.Prelude.{
  Bool, true, false, not, ◌&&◌, ◌||◌, Option, none, some, List, [], ◌∷◌, ◌++◌, if◌then◌else◌,
}
use terraform_provider_proxm.Int.{ℤ, pos}
use terraform_provider_proxm.Text.{Text, codes, text_eq, is_empty}
use terraform_provider_proxm.Value.{Value, null, unknown, known, string_value, value_or}
use terraform_provider_proxm.Config.{Float64}
use terraform_provider_proxm.Diagnostic.{Diagnostic}
use terraform_provider_proxm.Client.Error.{Error, failure, Result, ok, err, is_not_found}
use terraform_provider_proxm.Vm.Identity.{owned_names, owns_guest}
use terraform_provider_proxm.Vm.Slots.{Devices, narrow_device_slots, deleted_device_slots, put}
use terraform_provider_proxm.Vm.Cdrom.{
  Slots, validate_cdrom_ownership, wire_disk_volume, wire_disk_has_media_cdrom,
}
use terraform_provider_proxm.Vm.Request.{
  Form, QemuVmConfigRequest, encode_qemu_vm_fields, empty_form,
}
use terraform_provider_proxm.Vm.Model.{QemuVmModel, nocloud_slot_value, expand}
use terraform_provider_proxm.Vm.ConfigRequest.{Built, refused, built, config_request_from_model}
use terraform_provider_proxm.Vm.SeedUpdate.{
  SeedAttachment, no_attachment, at_key, authorize_seed_update,
}
use terraform_provider_proxm.Vm.Planned.{
  planned_cdroms, planned_wire_cdroms, validate_marker_slot, validate_planned_cdroms,
}
use terraform_provider_proxm.Vm.World.{
  GuestConfig, Server, World, and_then, get_qemu_vm_config, get_qemu_vm_status, update_qemu_vm,
  start_qemu_vm, shutdown_qemu_vm,
}
use terraform_provider_proxm.Vm.Resize.Size.{Arithmetic}
use terraform_provider_proxm.Vm.Resize.{resize_disks}

-- What the seed checks decide: whether the seed is exchanged, for which volume, and the history.
pub record Exchange : Type 0 where
  pub swap : Bool
  pub target : Text
  pub history : SeedAttachment

abbrev pub no_exchange : Exchange
no_exchange = record { swap = false; target = []; history = no_attachment }

-- The seed is exchanged, or an earlier exchange is to be confirmed.
abbrev pub concerns_seed : Exchange → Bool
concerns_seed e = e.swap || not (is_empty e.history.pending)

-- qemuVMPoweredOn
abbrev pub powered_on : Text → Bool
powered_on status = text_eq status (codes "running") || text_eq status (codes "paused")

abbrev pub says {ℓ} : {A : Type ℓ} → Text → World → Result A × World
says message w = (err (failure message), w)

-- A plain result, as a step.
abbrev pub returning {ℓ} : {A : Type ℓ} → World → Result A → Result A × World
returning w r = (r, w)

-- An unknown or null name renames nothing.
abbrev pub is_rename : Value Text → Value Text → Bool
is_rename null old = false
is_rename unknown old = false
is_rename (known name) old = not (text_eq name (string_value old))

abbrev pub of_built {ℓ} : {A : Type ℓ} → Built A → Result A
of_built (built a) = ok a
of_built (refused d ds) = err (failure d.summary)

module _ {F : Float64} where
  abbrev devices_of : QemuVmConfigRequest F → Devices
  devices_of r = record { host_pci = r.host_pci; usb = r.usb; rng = r.rng; virtiofs = r.virtiofs }

  -- The update sends the slots that are new or changed, and deletes devices that left the plan.
  unfoldable pub narrow_request :
      QemuVmConfigRequest F → QemuVmConfigRequest F → QemuVmConfigRequest F
  unfolding narrow_device_slots deleted_device_slots
  narrow_request update prior = record update {
    disk = narrow_device_slots update.disk prior.disk;
    network = narrow_device_slots update.network prior.network;
    host_pci = narrow_device_slots update.host_pci prior.host_pci;
    usb = narrow_device_slots update.usb prior.usb;
    rng = narrow_device_slots update.rng prior.rng;
    virtiofs = narrow_device_slots update.virtiofs prior.virtiofs;
    delete = update.delete ++ deleted_device_slots (devices_of prior) (devices_of update);
  }

  -- The two requests, of the plan and of the prior state, and their difference.
  abbrev pub narrow_built :
      Result (QemuVmConfigRequest F)
      → Result (QemuVmConfigRequest F)
      → Result (QemuVmConfigRequest F)
  narrow_built (err e) prior = err e
  narrow_built (ok update) (err e) = err e
  narrow_built (ok update) (ok prior) = ok (narrow_request update prior)

  unfoldable pub update_request : QemuVmModel F → QemuVmModel F → Result (QemuVmConfigRequest F)
  unfolding config_request_from_model narrow_request
  update_request plan state =
      narrow_built (of_built (config_request_from_model plan))
        (of_built (config_request_from_model state))

module _ {F : Float64} (A : Arithmetic F) (server : Server) (plan state : QemuVmModel F) where
  abbrev pub plan_node : Text
  plan_node = string_value plan.node

  abbrev pub plan_id : ℤ
  plan_id = value_or (pos 0) plan.vm_id

  abbrev pub state_node : Text
  state_node = string_value state.node

  abbrev pub state_id : ℤ
  state_id = value_or (pos 0) state.vm_id

  -- The current configuration, if the guest there is the resource's own.
  abbrev pub check_owned : GuestConfig → World → Result GuestConfig × World
  check_owned current w =
      if owns_guest (owned_names state.name w.pending_name) current.name
      then (ok current, w)
      else says (codes "Proxmox QEMU VM No Longer Exists") w

  unfoldable pub read_current : World → Result GuestConfig × World
  unfolding owns_guest owned_names
  read_current w = and_then (get_qemu_vm_config server state_node state_id w) check_owned

  abbrev pub swap_checked : Slots → Text → SeedAttachment → Slots × Bool → Result Exchange
  swap_checked planned marker history (inherited, swap) =
      elim (validate_cdrom_ownership state_id planned inherited marker) [
        | err e ↦ err e
        | ok _ ↦ ok (record { swap = swap; target = at_key planned marker; history = history })
      ]

  abbrev pub authorized : Slots → Text → SeedAttachment → Result (Slots × Bool) → Result Exchange
  authorized planned marker history (err e) = err e
  authorized planned marker history (ok decided) = swap_checked planned marker history decided

  abbrev pub check_seed : Slots → Text → GuestConfig → World → Result Exchange × World
  check_seed planned marker current w =
      (authorized planned marker w.seed (authorize_seed_update plan planned current.disk w.seed), w)

  abbrev pub check_planned : Slots → Text → GuestConfig → World → Result Exchange × World
  check_planned planned marker current w =
      and_then (validate_planned_cdroms server planned marker w)
        (λ _. check_seed planned marker current)

  abbrev pub check_marked : Text → GuestConfig → World → Result Exchange × World
  check_marked marker current w =
      and_then (validate_marker_slot marker (expand [] plan.disk), w)
        (λ _. check_planned (planned_wire_cdroms plan (planned_cdroms plan) marker) marker current)

  -- The checks of a marked NoCloud slot.
  unfoldable pub seed_stage : GuestConfig → World → Result Exchange × World
  unfolding nocloud_slot_value planned_cdroms planned_wire_cdroms validate_marker_slot
      validate_planned_cdroms authorize_seed_update validate_cdrom_ownership
  seed_stage current w =
      let marker = nocloud_slot_value plan in
      if is_empty marker then (ok no_exchange, w) else check_marked marker current w

  -- powerShutdownTimeoutDefault
  abbrev pub shutdown_timeout : Value ℤ → ℤ
  shutdown_timeout = value_or (pos 60)

  abbrev pub shut_down : World → Result Bool × World
  shut_down w =
      and_then
        (shutdown_qemu_vm server plan_node plan_id (shutdown_timeout plan.power_shutdown_timeout) w)
        (λ _ w1. (ok false, w1))

  abbrev pub reconcile : Bool → Text → World → Result Bool × World
  reconcile true status w = (ok (not (powered_on status)), w)
  reconcile false status w = if powered_on status then shut_down w else (ok false, w)

  -- The declared power: a stop comes before the PUT; the result is whether to start after it.
  abbrev pub power_to : Value Bool → World → Result Bool × World
  power_to null w = (ok false, w)
  power_to unknown w = (ok false, w)
  power_to (known power) w = and_then (get_qemu_vm_status server w) (reconcile power)

  unfoldable pub power_stage : World → Result Bool × World
  unfolding shutdown_qemu_vm
  power_stage w = power_to plan.power w
