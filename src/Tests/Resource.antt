-- ===== src/Tests/Resource.antt =====
-- The resource against a small server.
use terraform_provider_proxm.Prelude.{
  ℕ, suc, ◌-◌, ◌≡◌, ◌≢◌, ◌↔◌, refl, true, false, none, some, [], ◌∷◌, arith, if◌then◌else◌, ◌==◌,
}
use terraform_provider_proxm.Int.{pos}
use terraform_provider_proxm.Text.{Text, codes}
use terraform_provider_proxm.Value.{known}
use terraform_provider_proxm.Client.Error.{api_error, failure, ok, err, is_ok}
use terraform_provider_proxm.Client.Task.{
  Poll, returned, out_of_fuel, wait_for_node_task, wait_deadline,
}
use terraform_provider_proxm.Client.Task.Wait.{
  wait_for_node_task_returns, wait_for_node_task-StopsWell, StopsWell,
}
use terraform_provider_proxm.Vm.Allocation.{
  NextId, Submit, allocate_vmid, submit_with_retry, vmid_maximum,
}
use terraform_provider_proxm.Vm.Allocation.FirstFree.{IsFirstFree, allocate_vmid-IsFirstFree}
use terraform_provider_proxm.Vm.Allocation.Retry.{Honest, submit_with_retry-Honest}
use terraform_provider_proxm.Vm.SeedUpdate.{no_attachment}
use terraform_provider_proxm.Vm.Identity.{owned_names, owns_guest}
use terraform_provider_proxm.Vm.World.{
  config_reply, Server, World, reconcile_pending_task, await_pending_task, await_on, stop_qemu_vm,
  delete_qemu_vm,
}
use terraform_provider_proxm.Vm.Delete.{Tracked, delete, settle_pending, stop_before_delete}
use terraform_provider_proxm.Vm.Delete.Monitor.{monitor, monitor_start}
use terraform_provider_proxm.Vm.Delete.Safety.{delete-safe}
use terraform_provider_proxm.Vm.Delete.Gone.{shows_gone, delete-gone}

-- A task that runs at first and is then seen to have stopped well.
abbrev task_poll : ℕ → Poll
task_poll now = record {
  latency = 1;
  reply = ok (record {
    status = if now == 0 then codes "running" else codes "stopped";
    exit_status = codes "OK";
  });
}

abbrev upid : Text
upid = codes "UPID:pve:0001"

wait_for_node_task_returns_example : wait_for_node_task task_poll upid none 0 ≢ out_of_fuel
wait_for_node_task_returns_example = wait_for_node_task_returns task_poll upid none 0

upid_some : upid ≢ []
upid_some = λ e. cc

wait_for_node_task-StopsWell_example :
    ((t : ℕ) × (wait_for_node_task task_poll upid none 0 ≡ returned (ok tt) t))
    ↔ StopsWell task_poll (wait_deadline none 0) 0
wait_for_node_task-StopsWell_example = wait_for_node_task-StopsWell task_poll upid none 0 upid_some

-- The first VMID is taken.
abbrev next_id : NextId
next_id asked (some candidate) =
    if candidate == 100
    then err (api_error 400 [] (codes "VM 100 already exists"))
    else ok (pos candidate)
next_id asked none = ok (pos 200)

allocate_vmid-IsFirstFree_example :
    ((allocate_vmid next_id (pos 100) 0).0 ≡ ok (pos 101))
    ↔ ((d : ℕ) × IsFirstFree next_id (suc vmid_maximum - 100) 100 0 d (pos 101))
allocate_vmid-IsFirstFree_example = allocate_vmid-IsFirstFree next_id 100 0 (pos 101) (omega arith)

-- The first submission conflicts.
abbrev submit : Submit
submit [] vm_id = err (failure (codes "unable to create VM 100: config file already exists"))
submit (a ∷ attempts) vm_id = ok upid

submit_with_retry-Honest_example :
    Honest true 5 0 (submit_with_retry next_id submit (pos 100) true (pos 100) 0)
submit_with_retry-Honest_example =
    submit_with_retry-Honest next_id submit (pos 100) true (pos 100) 0

-- A running guest, whose tasks stop well.
abbrev server : Server
server = record {
  poll = λ node task now. task_poll now;
  get_config = λ log. ok (record { name = codes "web"; disk = []; extra_config = [] });
  get_status = λ log. ok (codes "running");
  post_stop = λ log. ok (codes "UPID:pve:0002");
  send_delete = λ log. ok (codes "UPID:pve:0003");
  put_config = λ form log. ok tt;
  put_resize = λ slot gib digest log. ok (codes "UPID:pve:0004");
  post_start = λ log. ok (codes "UPID:pve:0005");
  post_shutdown = λ timeout log. ok (codes "UPID:pve:0006");
  get_storages = λ log. ok [];
  list_content = λ storage log. ok [];
}

abbrev state : Tracked
state = record {
  node = codes "pve";
  vm_id = pos 100;
  name = known (codes "web");
  pending_name = [];
  stop_on_destroy = known true;
}

abbrev world : World
world = record {
  now = 0;
  log = [];
  pending_task = upid;
  pending_name = [];
  seed = no_attachment;
  recorded_name = known (codes "web");
}

delete-safe_example :
    (monitor
      (owned_names state.name state.pending_name)
      (monitor_start state world.pending_task)
      (delete server state world).1.log).violated
    ≡ false
delete-safe_example = delete-safe server state world refl

deleted : is_ok (delete server state world).0 ≡ true
unfolding delete settle_pending reconcile_pending_task await_pending_task await_on owns_guest
    owned_names stop_before_delete stop_qemu_vm delete_qemu_vm config_reply
deleted = refl

delete-gone_example : shows_gone (delete server state world).1.log ≡ true
delete-gone_example = delete-gone server state world deleted
