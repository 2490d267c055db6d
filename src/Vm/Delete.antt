-- ===== src/Vm/Delete.antt =====
-- QemuVMResource.Delete: what it asks of the server, in which order, and when it stops. A result
-- `ok` lets Terraform drop the resource; an error keeps it in the state.
pub mod Monitor
pub mod Settle
pub mod Safety
pub mod Gone
use terraform_provider_proxm.Prelude.{Bool, true, false, not, List, [], ◌∷◌, ◌&&◌, if◌then◌else◌}
use terraform_provider_proxm.Text.{Text, codes, text_eq, is_empty}
use terraform_provider_proxm.Int.{ℤ}
use terraform_provider_proxm.Value.{Value, value_or}
use terraform_provider_proxm.Client.Error.{Error, Result, ok, err, is_not_found}
use terraform_provider_proxm.Vm.Identity.{owned_names, owns_guest}
use terraform_provider_proxm.Vm.World.{
  GuestConfig, Event, foreign_warned, Server, World, record_event, await_pending_task,
  reconcile_pending_task, get_qemu_vm_config, get_qemu_vm_status, stop_qemu_vm, delete_qemu_vm,
}

-- The fields of the state model that Delete reads, with the private state's pending name.
pub record Tracked : Type 0 where
  pub node : Text
  pub vm_id : ℤ
  pub name : Value Text
  pub pending_name : Text
  pub stop_on_destroy : Value Bool

abbrev pub then_do {ℓ} :
    {A : Type ℓ}
    → Result A × World
    → (World → Result (Unit {0}) × World)
    → (Error → World → Result (Unit {0}) × World)
    → Result (Unit {0}) × World
then_do (ok _, w) next stop = next w
then_do (err e, w) next stop = stop e w

-- AddError, and return.
abbrev pub fail : Error → World → Result (Unit {0}) × World
fail e w = (err e, w)

abbrev pub clear_pending : World → Result (Unit {0}) × World
clear_pending w = (ok tt, record w { pending_task = [] })

module _ (server : Server) where
  abbrev pub settle_classified : Text → Result Bool × World → Result (Unit {0}) × World
  settle_classified upid (err e, w) = (err e, w)
  settle_classified upid (ok true, w) = clear_pending w
  settle_classified upid (ok false, w) =
      then_do (await_pending_task server upid w) clear_pending fail

  -- A retained task is classified, and awaited if it still runs.
  unfoldable pub settle_pending : World → Result (Unit {0}) × World
  settle_pending w =
      if is_empty w.pending_task
      then (ok tt, w)
      else settle_classified w.pending_task (reconcile_pending_task server w.pending_task w)

  abbrev pub stop_running : Text → ℤ → Result Text × World → Result (Unit {0}) × World
  stop_running node vm_id (err e, w) = (if is_not_found e then ok tt else err e, w)
  stop_running node vm_id (ok status, w) =
      if text_eq status (codes "running") then stop_qemu_vm server node vm_id w else (ok tt, w)

  -- stop_on_destroy
  unfoldable pub stop_before_delete : Tracked → World → Result (Unit {0}) × World
  stop_before_delete state w =
      if value_or false state.stop_on_destroy
      then stop_running state.node state.vm_id (get_qemu_vm_status server w)
      else (ok tt, w)

  abbrev pub delete_owned : Tracked → World → Result (Unit {0}) × World
  delete_owned state w =
      then_do (stop_before_delete state w) (delete_qemu_vm server state.node state.vm_id) fail

  abbrev pub delete_read : Tracked → Result GuestConfig × World → Result (Unit {0}) × World
  delete_read state (err e, w) = (if is_not_found e then ok tt else err e, w)
  delete_read state (ok config, w) =
      if owns_guest (owned_names state.name state.pending_name) config.name
      then delete_owned state w
      else (ok tt, record_event foreign_warned w)

  abbrev pub delete_settled : Tracked → World → Result (Unit {0}) × World
  delete_settled state w = delete_read state (get_qemu_vm_config server state.node state.vm_id w)

  unfoldable pub delete : Tracked → World → Result (Unit {0}) × World
  delete state w = then_do (settle_pending w) (delete_settled state) fail
