-- ===== src/Vm/Delete/Safety.antt =====
-- QemuVMResource.Delete of internal/provider/resource_qemu_vm.go: its later stages, under the monitor.
use terraform_provider_proxm.Prelude.{
  Bool, true, false, not, List, [], ◌≡◌, refl, if◌then◌else◌, ◌∙◌, ap,
}
use terraform_provider_proxm.Int.{ℤ}
use terraform_provider_proxm.Text.{Text, codes, text_eq}
use terraform_provider_proxm.Value.{value_or}
use terraform_provider_proxm.Client.Error.{Result, ok, err, is_ok, is_not_found}
use terraform_provider_proxm.Client.Task.{validate_qemu_task_ack}
use terraform_provider_proxm.Client.Task.Ack.{validate_qemu_task_ack_names}
use terraform_provider_proxm.Vm.Identity.{owned_names, owns_guest}
use terraform_provider_proxm.Vm.World.{
  GuestConfig, stop_posted, delete_sent, foreign_warned, Server, World, record_event,
  get_qemu_vm_status, get_qemu_vm_config, config_reply, stop_reply, delete_reply, acked,
  stop_qemu_vm, delete_qemu_vm,
}
use terraform_provider_proxm.Vm.Delete.{
  Tracked, then_do, fail, stop_running, delete_read, delete_owned, delete_settled, settle_pending,
  stop_before_delete, delete,
}
use terraform_provider_proxm.Vm.Delete.Monitor.{
  Monitor, posted, quiet_status, owned_config, monitor, monitor_start,
}
use terraform_provider_proxm.Vm.Delete.Settle.{
  await_on-Awaited, succeeds_itself, Settles, settle_pending-Settles,
}

module _ (server : Server) (owned : List Text) (start : Monitor) where
  abbrev seen : World → Monitor
  seen w = monitor owned start w.log

  -- Before the DELETE: nothing is violated, and success means that it may be sent.
  record Ready (r : Result (Unit {0})) (w : World) : Type 0 where
    violated : (seen w).violated ≡ false
    ready :
        is_ok r ≡ true
        → ((seen w).settled ≡ true) × ((seen w).identified ≡ true) × ((seen w).quiet ≡ true)

  stopped_by_ack :
      (node upid what : Text) (ack : Result (Unit {0})) (m : Monitor) (w : World)
      → validate_qemu_task_ack upid what ≡ ack
      → seen w ≡ record m { stopping = true; quiet = false; task = upid }
      → m.settled ≡ true
      → m.identified ≡ true
      → m.violated ≡ false
      → let rw' = acked server node upid ack what w in Ready rw'.0 rw'.1
  stopped_by_ack node upid what (err e) m w acks same s i v = record {
    violated = rw same v;
    ready = λ h. cc;
  }
  stopped_by_ack node upid what (ok _) m w acks same s i v =
      let a = await_on-Awaited server owned start node upid w in
      let stopping = ap (λ (x : Monitor). x.stopping) same in
      record {
        violated = a.violated ∙ rw same v;
        ready = λ h. (
          (a.held stopping).0 ∙ rw same s,
          a.identified ∙ rw same i,
          (a.held stopping).1
              ∙ succeeds_itself (seen w).task upid _ (ap (λ (x : Monitor). x.task) same)
                  (validate_qemu_task_ack_names upid what acks) h,
        );
      }

  stop_reply-Ready :
      (node : Text) (vm_id : ℤ) (reply : Result Text) (m : Monitor) (w : World)
      → seen w ≡ record m { stopping = true; quiet = false; task = posted reply }
      → m.settled ≡ true
      → m.identified ≡ true
      → m.violated ≡ false
      → let rw' = stop_reply server node vm_id reply w in Ready rw'.0 rw'.1
  stop_reply-Ready node vm_id (err e) m w same s i v = record {
    violated = rw same v;
    ready = λ h. cc;
  }
  stop_reply-Ready node vm_id (ok upid) m w same s i v =
      stopped_by_ack node upid _ (validate_qemu_task_ack upid _) m w refl same s i v

  stop_running-Ready :
      (node : Text) (vm_id : ℤ) (status : Result Text) (m : Monitor) (w : World)
      → seen w ≡ record m { quiet = quiet_status status }
      → m.settled ≡ true
      → m.identified ≡ true
      → m.violated ≡ false
      → let rw' = stop_running server node vm_id (status, w) in Ready rw'.0 rw'.1
  unfolding stop_qemu_vm
  stop_running-Ready node vm_id (err e) m w same s i v = by_error (is_not_found e) refl
    where
      by_error : (b : Bool) → is_not_found e ≡ b → Ready (if b then ok tt else err e) w
      by_error true h = record {
        violated = rw same v;
        ready = λ _. (rw same s, rw same i, rw same h);
      }
      by_error false h = record { violated = rw same v; ready = λ x. cc }
  stop_running-Ready node vm_id (ok status) m w same s i v =
      by_status (text_eq status (codes "running")) refl
    where
      by_status :
          (b : Bool)
          → text_eq status (codes "running") ≡ b
          → let rw' = if b then stop_qemu_vm server node vm_id w else (ok tt, w) in
            Ready rw'.0 rw'.1
      by_status true h =
          stop_reply-Ready node vm_id (server.post_stop w.log) (seen w) (stop_qemu_vm_world w) refl
            (rw same s) (rw same i) (rw same v)
        where
          stop_qemu_vm_world : World → World
          stop_qemu_vm_world x = record_event (stop_posted (server.post_stop x.log)) x
      by_status false h = record {
        violated = rw same v;
        ready = λ _. (rw same s, rw same i, rw (same, h));
      }

  stop_before_delete-Ready :
      (state : Tracked) (w : World)
      → (seen w).quiet ≡ not (value_or false state.stop_on_destroy)
      → (seen w).settled ≡ true
      → (seen w).identified ≡ true
      → (seen w).violated ≡ false
      → let rw' = stop_before_delete server state w in Ready rw'.0 rw'.1
  unfolding stop_before_delete
  stop_before_delete-Ready state w q s i v = by_option (value_or false state.stop_on_destroy) q
    where
      by_option :
          (b : Bool)
          → (seen w).quiet ≡ not b
          → let rw' =
              if b
              then stop_running server state.node state.vm_id (get_qemu_vm_status server w)
              else (ok tt, w) in
            Ready rw'.0 rw'.1
      by_option true e =
          stop_running-Ready state.node state.vm_id (server.get_status w.log) (seen w)
            (get_qemu_vm_status server w).1 refl s i v
      by_option false e = record { violated = v; ready = λ _. (s, i, e) }

  acked_violated :
      (node upid what : Text) (ack : Result (Unit {0})) (w : World)
      → (seen (acked server node upid ack what w).1).violated ≡ (seen w).violated
  acked_violated node upid what (err e) w = refl
  acked_violated node upid what (ok _) w =
      (await_on-Awaited server owned start node upid w).violated

  delete_reply_violated :
      (node : Text) (vm_id : ℤ) (reply : Result Text) (w : World)
      → (seen (delete_reply server node vm_id reply w).1).violated ≡ (seen w).violated
  delete_reply_violated node vm_id (err e) w = refl
  delete_reply_violated node vm_id (ok upid) w =
      acked_violated node upid _ (validate_qemu_task_ack upid _) w

  delete_when-Ready :
      (node : Text) (vm_id : ℤ) (r : Result (Unit {0})) (w : World)
      → Ready r w
      → (seen (then_do (r, w) (delete_qemu_vm server node vm_id) fail).1).violated ≡ false
  unfolding delete_qemu_vm
  delete_when-Ready node vm_id (err e) w h = h.violated
  delete_when-Ready node vm_id (ok _) w h =
      let (s, i, q) = h.ready refl in
      delete_reply_violated node vm_id (server.send_delete w.log)
        (record_event (delete_sent (server.send_delete w.log)) w)
      ∙ rw (h.violated, s, i, q)

  delete_read_violated :
      (state : Tracked) (reply : Result GuestConfig) (m : Monitor) (w : World)
      → owned ≡ owned_names state.name state.pending_name
      → seen w ≡ record m { identified = owned_config owned reply }
      → m.quiet ≡ not (value_or false state.stop_on_destroy)
      → m.settled ≡ true
      → m.violated ≡ false
      → (seen (delete_read server state (reply, w)).1).violated ≡ false
  delete_read_violated state (err e) m w o same q s v = rw same v
  delete_read_violated state (ok config) m w o same q s v =
      by_owner (owns_guest (owned_names state.name state.pending_name) config.name) refl
    where
      by_owner :
          (b : Bool)
          → owns_guest (owned_names state.name state.pending_name) config.name ≡ b
          → (seen
              (if b
                then delete_owned server state w
                else (ok tt, record_event foreign_warned w)).1).violated
            ≡ false
      by_owner true h =
          delete_when-Ready state.node state.vm_id _ _
            (stop_before_delete-Ready state w (rw same q) (rw same s) (rw (same, o) h) (rw same v))
      by_owner false h = rw same v

  delete_settled_violated :
      (state : Tracked) (r : Result (Unit {0})) (w : World) {before : Monitor}
      → owned ≡ owned_names state.name state.pending_name
      → Settles server owned start before r w
      → before.quiet ≡ not (value_or false state.stop_on_destroy)
      → (seen (then_do (r, w) (delete_settled server state) fail).1).violated ≡ false
  delete_settled_violated state (err e) w o h q = h.violated
  delete_settled_violated state (ok _) w o h q =
      delete_read_violated state (config_reply state.node state.vm_id (server.get_config w.log))
        (seen w) (get_qemu_vm_config server state.node state.vm_id w).1 o refl (h.quiet ∙ q)
        (h.settled refl) h.violated

-- In every run of the resource's Delete, from an empty log and against every server, a DELETE is
-- sent only after the retained create or clone task, if there is one, was seen settled, the last
-- configuration read showed a guest that the resource owns (one with the recorded name or with
-- that of an unconfirmed rename; any guest if no name is recorded), and, with stop_on_destroy, the
-- guest was seen not to run or the task that the acknowledgement of the stop names was seen to
-- succeed. A reply about another task identifier, or about one that names no node, shows nothing.
pub delete-safe :
    (server : Server) (state : Tracked) (w : World)
    → w.log ≡ []
    → (monitor
        (owned_names state.name state.pending_name)
        (monitor_start state w.pending_task)
        (delete server state w).1.log).violated
      ≡ false
unfolding delete
delete-safe server state w fresh =
    delete_settled_violated server owned start state (settle_pending server w).0
      (settle_pending server w).1 refl
      (settle_pending-Settles server owned start w (ap (λ (x : Monitor). x.settled) begun)
        (ap (λ (x : Monitor). x.task) begun) (ap (λ (x : Monitor). x.stopping) begun)
        (ap (λ (x : Monitor). x.violated) begun))
      (ap (λ (x : Monitor). x.quiet) begun)
  where
    owned : List Text
    owned = owned_names state.name state.pending_name

    start : Monitor
    start = monitor_start state w.pending_task

    begun : monitor owned start w.log ≡ start
    begun = ap (monitor owned start) fresh
