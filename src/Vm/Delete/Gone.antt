-- ===== src/Vm/Delete/Gone.antt =====
-- QemuVMResource.Delete of internal/provider/resource_qemu_vm.go: the end of its log.
use terraform_provider_proxm.Prelude.{Bool, true, false, ◌∷◌, ◌≡◌, refl, if◌then◌else◌}
use terraform_provider_proxm.Int.{ℤ}
use terraform_provider_proxm.Text.{Text}
use terraform_provider_proxm.Text.Equal.{text_eq_self}
use terraform_provider_proxm.Client.Error.{Result, ok, err, is_ok, is_not_found}
use terraform_provider_proxm.Client.Task.{validate_qemu_task_ack, is_task}
use terraform_provider_proxm.Client.Task.Ack.{validate_qemu_task_ack_names}
use terraform_provider_proxm.Vm.Delete.Monitor.{about_task}
use terraform_provider_proxm.Vm.Identity.{owned_names, owns_guest}
use terraform_provider_proxm.Vm.World.{
  GuestConfig, awaited, config_read, delete_sent, foreign_warned, Log, Server, World, record_event,
  await_on, get_qemu_vm_config, config_reply, delete_reply, acked, delete_qemu_vm,
}
use terraform_provider_proxm.Vm.Delete.{
  Tracked, then_do, fail, delete_read, delete_owned, delete_settled, delete,
}

-- The newest event, and the DELETE before a wait: the configuration is missing, the VMID belongs to
-- another guest, the DELETE found nothing, or its task was seen to succeed.
abbrev pub shows_gone : Log → Bool
shows_gone (config_read (err e) ∷ _) = is_not_found e
shows_gone (foreign_warned ∷ _) = true
shows_gone (delete_sent (err e) ∷ _) = is_not_found e
shows_gone (awaited upid (ok _) ∷ delete_sent (ok sent) ∷ _) = about_task sent upid
shows_gone _ = false

module _ (server : Server) where
  abbrev Gone : Result (Unit {0}) × World → Type 0
  Gone rw' = is_ok rw'.0 ≡ true → shows_gone rw'.1.log ≡ true

  awaited-Gone :
      (node upid : Text) (w : World) {log : Log} (r : Result (Unit {0}))
      → w.log ≡ delete_sent (ok upid) ∷ log
      → is_task upid ≡ true
      → is_ok r ≡ true
      → shows_gone (awaited upid r ∷ w.log) ≡ true
  awaited-Gone node upid w (ok _) same names h = rw (same, text_eq_self upid) names
  awaited-Gone node upid w (err e) same names h = cc

  acked-Gone :
      (node upid what : Text) (ack : Result (Unit {0})) (w : World) {log : Log}
      → validate_qemu_task_ack upid what ≡ ack
      → w.log ≡ delete_sent (ok upid) ∷ log
      → Gone (acked server node upid ack what w)
  unfolding await_on
  acked-Gone node upid what (err e) w acks same h = cc
  acked-Gone node upid what (ok _) w acks same h =
      awaited-Gone node upid w _ same (validate_qemu_task_ack_names upid what acks) h

  delete_reply-Gone :
      (node : Text) (vm_id : ℤ) (reply : Result Text) (w : World) {log : Log}
      → w.log ≡ delete_sent reply ∷ log
      → Gone (delete_reply server node vm_id reply w)
  delete_reply-Gone node vm_id (err e) w same h = by_error (is_not_found e) refl h
    where
      by_error :
          (b : Bool)
          → is_not_found e ≡ b
          → is_ok {0} (if b then ok tt else err e) ≡ true
          → shows_gone w.log ≡ true
      by_error true missing _ = rw (same, missing)
      by_error false _ x = cc
  delete_reply-Gone node vm_id (ok upid) w same h =
      acked-Gone node upid _ (validate_qemu_task_ack upid _) w refl same h

  delete_stopped-Gone :
      (node : Text) (vm_id : ℤ) (r : Result (Unit {0})) (w : World)
      → Gone (then_do (r, w) (delete_qemu_vm server node vm_id) fail)
  unfolding delete_qemu_vm
  delete_stopped-Gone node vm_id (err e) w h = cc
  delete_stopped-Gone node vm_id (ok _) w h =
      delete_reply-Gone node vm_id (server.send_delete w.log)
        (record_event (delete_sent (server.send_delete w.log)) w) refl h

  delete_read-Gone :
      (state : Tracked) (reply : Result GuestConfig) (w : World) {log : Log}
      → w.log ≡ config_read reply ∷ log
      → Gone (delete_read server state (reply, w))
  delete_read-Gone state (err e) w same h = by_error (is_not_found e) refl h
    where
      by_error :
          (b : Bool)
          → is_not_found e ≡ b
          → is_ok {0} (if b then ok tt else err e) ≡ true
          → shows_gone w.log ≡ true
      by_error true missing _ = rw (same, missing)
      by_error false _ x = cc
  delete_read-Gone state (ok config) w same h =
      by_owner (owns_guest (owned_names state.name state.pending_name) config.name) h
    where
      by_owner :
          (b : Bool)
          → Gone (if b then delete_owned server state w else (ok tt, record_event foreign_warned w))
      by_owner true x = delete_stopped-Gone state.node state.vm_id _ _ x
      by_owner false x = refl

  delete_settled-Gone :
      (state : Tracked) (r : Result (Unit {0})) (w : World)
      → Gone (then_do (r, w) (delete_settled server state) fail)
  delete_settled-Gone state (err e) w h = cc
  delete_settled-Gone state (ok _) w h =
      delete_read-Gone state (config_reply state.node state.vm_id (server.get_config w.log))
        (get_qemu_vm_config server state.node state.vm_id w).1 refl h

-- When Delete reports no error, the newest events of the log show that the guest is gone: a
-- missing configuration, a VMID that another guest has, a DELETE that found nothing, or success of
-- the very task that the acknowledgement of the DELETE names, which has a node.
pub delete-gone :
    (server : Server) (state : Tracked) (w : World)
    → is_ok (delete server state w).0 ≡ true
    → shows_gone (delete server state w).1.log ≡ true
unfolding delete
delete-gone server state w h = delete_settled-Gone server state _ _ h
