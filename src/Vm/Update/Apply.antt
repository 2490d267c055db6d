-- ===== src/Vm/Update/Apply.antt =====
-- QemuVMResource.Update of internal/provider/resource_qemu_vm.go: the stages that change the guest, and the
-- whole. Of the state that a run leaves, the model keeps the name and the private state, by which the
-- guest is known; the last stage sets the name to the observed one.
use terraform_provider_proxm.Prelude.{Bool, true, false, not, ◌||◌, [], ◌∷◌, if◌then◌else◌}
use terraform_provider_proxm.Int.{ℤ}
use terraform_provider_proxm.Text.{Text, codes, text_eq, is_empty}
use terraform_provider_proxm.Value.{Value, null, known, string_value}
use terraform_provider_proxm.Config.{Float64}
use terraform_provider_proxm.Client.Error.{Result, ok, err, is_not_found}
use terraform_provider_proxm.Vm.Slots.{put}
use terraform_provider_proxm.Vm.Cdrom.{wire_disk_volume, wire_disk_has_media_cdrom}
use terraform_provider_proxm.Vm.Request.{QemuVmConfigRequest, encode_qemu_vm_fields, empty_form}
use terraform_provider_proxm.Vm.Model.{QemuVmModel, nocloud_slot_value}
use terraform_provider_proxm.Vm.SeedUpdate.{SeedAttachment, at_key}
use terraform_provider_proxm.Vm.World.{
  GuestConfig, Server, World, and_then, get_qemu_vm_config, get_qemu_vm_status, update_qemu_vm,
  start_qemu_vm,
}
use terraform_provider_proxm.Vm.Resize.Size.{Arithmetic}
use terraform_provider_proxm.Vm.Resize.{resize_disks}
use terraform_provider_proxm.Vm.Update.{
  Exchange, concerns_seed, says, is_rename, update_request, plan_node, plan_id, read_current,
  seed_stage, power_stage,
}

-- stringOrNull
abbrev pub string_or_null : Text → Value Text
string_or_null [] = null
string_or_null (c ∷ s) = known (c ∷ s)

module _ {F : Float64} (A : Arithmetic F) (server : Server) (plan state : QemuVmModel F) where
  abbrev pub node : Text
  node = plan_node A server plan state

  abbrev pub vm_id : ℤ
  vm_id = plan_id A server plan state

  abbrev with_digest : Text → QemuVmConfigRequest F → QemuVmConfigRequest F
  with_digest digest r = record r { extra_config = put (codes "digest") digest r.extra_config }

  -- An exchange is noted before the PUT.
  abbrev pub note_exchange : Exchange → GuestConfig → World → World
  note_exchange e current w =
      if e.swap
      then record w {
        seed = record {
          node = node;
          vm_id = vm_id;
          slot = nocloud_slot_value plan;
          volume = wire_disk_volume (at_key current.disk (nocloud_slot_value plan));
          pending = e.target;
        };
      }
      else w

  abbrev pub guard_digest :
      Exchange
      → GuestConfig
      → QemuVmConfigRequest F
      → World
      → Result (QemuVmConfigRequest F) × World
  guard_digest e current r w =
      let digest = at_key current.extra_config (codes "digest") in
      if is_empty digest
      then says (codes "NoCloud Seed Update Requires Digest") w
      else (ok (with_digest digest r), note_exchange e current w)

  abbrev pub guard_stopped :
      Exchange
      → GuestConfig
      → QemuVmConfigRequest F
      → Text
      → World
      → Result (QemuVmConfigRequest F) × World
  guard_stopped e current r status w =
      if text_eq status (codes "stopped")
      then guard_digest e current r w
      else says (codes "NoCloud Seed Update Requires Stopped VM") w

  -- A seed is exchanged in a stopped guest only, under the digest of its configuration.
  unfoldable pub guard_seed :
      Exchange
      → GuestConfig
      → QemuVmConfigRequest F
      → World
      → Result (QemuVmConfigRequest F) × World
  unfolding nocloud_slot_value wire_disk_volume
  guard_seed e current r w =
      if concerns_seed e
      then and_then (get_qemu_vm_status server w) (guard_stopped e current r)
      else (ok r, w)

  -- A rename is noted before the PUT, and recorded after it.
  abbrev pub note_rename : World → World
  note_rename w =
      if is_rename plan.name state.name
      then record w { pending_name = string_value plan.name }
      else w

  abbrev pub record_rename : World → World
  record_rename w =
      if is_rename plan.name state.name
      then record w { recorded_name = plan.name; pending_name = [] }
      else w

  unfoldable pub put_stage : QemuVmConfigRequest F → World → Result (Unit {0}) × World
  unfolding encode_qemu_vm_fields
  put_stage r w =
      and_then (update_qemu_vm server (encode_qemu_vm_fields F r empty_form) (note_rename w))
        (λ _ w1. (ok tt, record_rename w1))

  abbrev pub is_unconfirmed : Exchange → Text → Bool
  is_unconfirmed e wire =
      not (wire_disk_has_media_cdrom wire) || not (text_eq (wire_disk_volume wire) e.target)

  -- The history as the handler holds it: the exchange, or that which was read.
  abbrev pub held_history : Exchange → SeedAttachment → SeedAttachment
  held_history e written = if e.swap then written else e.history

  abbrev pub confirm_seed : Exchange → GuestConfig → World → Result (Unit {0}) × World
  confirm_seed e live w =
      if is_unconfirmed e (at_key live.disk (nocloud_slot_value plan))
      then says (codes "NoCloud Seed Update Did Not Converge") w
      else (
        ok tt,
        record w { seed = record (held_history e w.seed) { volume = e.target; pending = [] } },
      )

  unfoldable pub verify_seed : Exchange → World → Result (Unit {0}) × World
  unfolding nocloud_slot_value wire_disk_volume wire_disk_has_media_cdrom
  verify_seed e w =
      if concerns_seed e
      then and_then (get_qemu_vm_config server node vm_id w) (confirm_seed e)
      else (ok tt, w)

  abbrev pub start_after : Bool → World → Result (Unit {0}) × World
  start_after true w = start_qemu_vm server node vm_id w
  start_after false w = (ok tt, w)

  abbrev pub refreshed : Value Text → World → Result (Unit {0}) × World
  refreshed name w = (ok tt, record w { recorded_name = name })

  -- readQemuVMState: a guest that is gone refreshes to a null model
  abbrev pub refresh_status : GuestConfig → Result Text × World → Result (Unit {0}) × World
  refresh_status config (ok status, w) = refreshed (string_or_null config.name) w
  refresh_status config (err e, w) = if is_not_found e then refreshed null w else (err e, w)

  abbrev pub refresh_config : Result GuestConfig × World → Result (Unit {0}) × World
  refresh_config (ok config, w) = refresh_status config (get_qemu_vm_status server w)
  refresh_config (err e, w) = if is_not_found e then refreshed null w else (err e, w)

  abbrev pub refresh : World → Result (Unit {0}) × World
  refresh w = refresh_config (get_qemu_vm_config server node vm_id w)

  abbrev pub after_resize : Bool → World → Result (Unit {0}) × World
  after_resize start w = and_then (start_after start w) (λ _. refresh)

  abbrev pub after_seed : Bool → World → Result (Unit {0}) × World
  after_seed start w =
      and_then (resize_disks A server node vm_id plan.disk_resize w) (λ _. after_resize start)

  abbrev pub after_put : Exchange → Bool → World → Result (Unit {0}) × World
  after_put e start w = and_then (verify_seed e w) (λ _. after_seed start)

  -- The stages from the PUT on.
  abbrev pub apply_request :
      Exchange → Bool → QemuVmConfigRequest F → World → Result (Unit {0}) × World
  apply_request e start r w = and_then (put_stage r w) (λ _. after_put e start)

  abbrev pub build_request : Exchange → GuestConfig → World → Result (QemuVmConfigRequest F) × World
  build_request e current w = and_then (update_request plan state, w) (guard_seed e current)

  abbrev pub update_powered : Exchange → GuestConfig → Bool → World → Result (Unit {0}) × World
  update_powered e current start w = and_then (build_request e current w) (apply_request e start)

  abbrev pub update_checked : GuestConfig → Exchange → World → Result (Unit {0}) × World
  update_checked current e w =
      and_then (power_stage A server plan state w) (update_powered e current)

  abbrev pub update_read : GuestConfig → World → Result (Unit {0}) × World
  update_read current w =
      and_then (seed_stage A server plan state current w) (update_checked current)

  unfoldable pub update : World → Result (Unit {0}) × World
  unfolding read_current seed_stage power_stage update_request guard_seed put_stage verify_seed
      resize_disks start_qemu_vm
  update w = and_then (read_current A server plan state w) update_read
