-- ===== src/Vm/Update/Keeps.antt =====
-- QemuVMResource.Update of internal/provider/resource_qemu_vm.go: what its stages keep of the state.
use terraform_provider_proxm.Prelude.{ℕ, Bool, true, false, List, ◌∷◌, Bool-cases, inl, inr}
use terraform_provider_proxm.Int.{ℤ}
use terraform_provider_proxm.Text.{Text, codes, text_eq, is_empty}
use terraform_provider_proxm.Value.{Value, null, unknown, known}
use terraform_provider_proxm.Config.{Float64}
use terraform_provider_proxm.Client.Error.{Result, ok, err}
use terraform_provider_proxm.Vm.Identity.{owned_names, owns_guest}
use terraform_provider_proxm.Vm.World.{
  GuestConfig, NodeStorage, awaited, config_read, status_read, resize_put, start_posted,
  shutdown_posted, storages_read, content_listed, Server, World, record_event, await_on, acked,
  shutdown_reply, start_reply, shutdown_qemu_vm, start_qemu_vm, get_qemu_vm_config,
  get_qemu_vm_status,
}
use terraform_provider_proxm.Vm.SeedUpdate.{SeedAttachment, at_key}
use terraform_provider_proxm.Vm.Request.{QemuVmConfigRequest}
use terraform_provider_proxm.Vm.Model.{QemuVmModel, nocloud_slot_value}
use terraform_provider_proxm.Vm.Resize.Size.{Arithmetic}
use terraform_provider_proxm.Vm.Resize.Rule.{and_then_step}
use terraform_provider_proxm.Vm.Update.{
  Exchange, concerns_seed, powered_on, check_owned, read_current, power_to, power_stage, shut_down,
  shutdown_timeout, reconcile, state_node, state_id,
}
use terraform_provider_proxm.Vm.Update.Apply.{
  node, vm_id, guard_stopped, guard_seed, is_unconfirmed, confirm_seed, verify_seed, start_after,
}

-- A property that every step but the PUT keeps.
pub record IsKept (P : World → Type 0) : Type 0 where
  pub by_await :
      (upid : Text) (r : Result (Unit {0})) (time : ℕ) (w : World)
      → P w
      → P (record w { now = time; log = awaited upid r ∷ w.log })
  pub by_read : (r : Result GuestConfig) (w : World) → P w → P (record_event (config_read r) w)
  pub by_status : (r : Result Text) (w : World) → P w → P (record_event (status_read r) w)
  pub by_storages :
      (r : Result (List NodeStorage)) (w : World) → P w → P (record_event (storages_read r) w)
  pub by_content :
      (s : Text) (r : Result (List Text)) (w : World)
      → P w
      → P (record_event (content_listed s r) w)
  pub by_shutdown :
      (timeout : ℤ) (r : Result Text) (w : World)
      → P w
      → P (record_event (shutdown_posted timeout r) w)
  pub by_start : (r : Result Text) (w : World) → P w → P (record_event (start_posted r) w)
  pub by_resize :
      (slot : Text) (gib : ℤ) (digest : Text) (r : Result Text) (w : World)
      → P w
      → P (record_event (resize_put slot gib digest r) w)
  pub by_seed : (s : SeedAttachment) (w : World) → P w → P (record w { seed = s })

module _ {F : Float64} (A : Arithmetic F) (server : Server) (plan state : QemuVmModel F)
    (P : World → Type 0) (k : IsKept P) where
  pub read_current_keeps : (w : World) → P w → P (read_current A server plan state w).1
  unfolding read_current
  read_current_keeps w h =
      and_then_step P
        (get_qemu_vm_config server (state_node A server plan state) (state_id A server plan state)
          w)
        (check_owned A server plan state) (k.by_read _ w h) (λ config x. checked config _ x)
    where
      checked :
          (config : GuestConfig) (w : World) → P w → P (check_owned A server plan state config w).1
      checked config w h =
          elim (Bool-cases (owns_guest (owned_names state.name w.pending_name) config.name)) [
            | inl e ↦ rw e h
            | inr e ↦ rw e h
          ]

  acked_keeps :
      (upid what : Text) (ack : Result (Unit {0})) (w : World)
      → P w
      → P (acked server (node A server plan state) upid ack what w).1
  unfolding await_on
  acked_keeps upid what (err e) w h = h
  acked_keeps upid what (ok _) w h = k.by_await upid _ _ w h

  shutdown_reply_keeps :
      (reply : Result Text) (w : World)
      → P w
      → P (shutdown_reply server (node A server plan state) (vm_id A server plan state) reply w).1
  shutdown_reply_keeps (err e) w h = h
  shutdown_reply_keeps (ok upid) w h = acked_keeps upid _ _ w h

  shut_down_keeps : (w : World) → P w → P (shut_down A server plan state w).1
  unfolding shutdown_qemu_vm
  shut_down_keeps w h =
      let timeout = shutdown_timeout A server plan state plan.power_shutdown_timeout in
      let reply = server.post_shutdown timeout w.log in
      and_then_step P
        (shutdown_reply server (node A server plan state) (vm_id A server plan state) reply
          (record_event (shutdown_posted timeout reply) w))
        (λ _ w1. (ok false, w1)) (shutdown_reply_keeps reply _ (k.by_shutdown timeout reply w h))
        (λ _ x. x)

  reconcile_keeps :
      (power : Bool) (status : Text) (w : World)
      → P w
      → P (reconcile A server plan state power status w).1
  reconcile_keeps true status w h = h
  reconcile_keeps false status w h = elim (Bool-cases (powered_on status)) [
    | inl e ↦ rw e (shut_down_keeps w h)
    | inr e ↦ rw e h
  ]

  power_to_keeps :
      (power : Value Bool) (w : World) → P w → P (power_to A server plan state power w).1
  power_to_keeps null w h = h
  power_to_keeps unknown w h = h
  power_to_keeps (known power) w h =
      and_then_step P (get_qemu_vm_status server w) (reconcile A server plan state power)
        (k.by_status _ w h) (λ status x. reconcile_keeps power status _ x)

  pub power_stage_keeps : (w : World) → P w → P (power_stage A server plan state w).1
  unfolding power_stage
  power_stage_keeps w h = power_to_keeps plan.power w h

  stopped_keeps :
      (e : Exchange) (current : GuestConfig) (r : QemuVmConfigRequest F) (status : Text) (w : World)
      → P w
      → P (guard_stopped A server plan state e current r status w).1
  stopped_keeps e current r status w h = elim (Bool-cases (text_eq status (codes "stopped"))) [
    | inl x ↦ elim (Bool-cases (is_empty (at_key current.extra_config (codes "digest")))) [
      | inl y ↦ rw (x, y) h
      | inr y ↦ elim (Bool-cases e.swap) [
        | inl z ↦ rw (x, y, z) (k.by_seed _ w h)
        | inr z ↦ rw (x, y, z) h
      ]
    ]
    | inr x ↦ rw x h
  ]

  pub guard_seed_keeps :
      (e : Exchange) (current : GuestConfig) (r : QemuVmConfigRequest F) (w : World)
      → P w
      → P (guard_seed A server plan state e current r w).1
  unfolding guard_seed
  guard_seed_keeps e current r w h = elim (Bool-cases (concerns_seed e)) [
    | inl x ↦ rw x (
        and_then_step P (get_qemu_vm_status server w)
          (guard_stopped A server plan state e current r) (k.by_status _ w h)
          (λ status y. stopped_keeps e current r status _ y))
    | inr x ↦ rw x h
  ]

  confirm_seed_keeps :
      (e : Exchange) (live : GuestConfig) (w : World)
      → P w
      → P (confirm_seed A server plan state e live w).1
  confirm_seed_keeps e live w h =
      elim (Bool-cases
        (is_unconfirmed A server plan state e (at_key live.disk (nocloud_slot_value plan)))) [
          | inl x ↦ rw x h
          | inr x ↦ rw x (k.by_seed _ w h)
        ]

  pub verify_seed_keeps :
      (e : Exchange) (w : World) → P w → P (verify_seed A server plan state e w).1
  unfolding verify_seed
  verify_seed_keeps e w h = elim (Bool-cases (concerns_seed e)) [
    | inl x ↦ rw x (
        and_then_step P
          (get_qemu_vm_config server (node A server plan state) (vm_id A server plan state) w)
          (confirm_seed A server plan state e) (k.by_read _ w h)
          (λ live y. confirm_seed_keeps e live _ y))
    | inr x ↦ rw x h
  ]

  start_reply_keeps :
      (reply : Result Text) (w : World)
      → P w
      → P (start_reply server (node A server plan state) (vm_id A server plan state) reply w).1
  start_reply_keeps (err e) w h = h
  start_reply_keeps (ok upid) w h = acked_keeps upid _ _ w h

  pub start_after_keeps :
      (start : Bool) (w : World) → P w → P (start_after A server plan state start w).1
  unfolding start_qemu_vm
  start_after_keeps false w h = h
  start_after_keeps true w h =
      let reply = server.post_start w.log in
      start_reply_keeps reply (record_event (start_posted reply) w) (k.by_start reply w h)
