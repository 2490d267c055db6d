-- ===== src/Vm/World.antt =====
-- What the handlers of the resource do to the world: a log of the requests with their replies, newest
-- first, the clock, and the private state. The Proxmox server is a parameter.
use terraform_provider_proxm.Prelude.{
  Option, Bool, false, ◌&&◌, ◌==◌, some, ℕ, ◌+◌, none, List, ◌∷◌, ◌++◌, if◌then◌else◌,
}
use terraform_provider_proxm.Text.{contains, Text, codes}
use terraform_provider_proxm.Int.{ℤ}
use terraform_provider_proxm.Text.Decimal.{format_int}
use terraform_provider_proxm.Client.Error.{
  not_found, joined, as_api_error, quote, failure, wrapped, Result, ok, err, is_not_found,
}
use terraform_provider_proxm.Client.Task.{
  TaskStatus, Poll, WaitOutcome, returned, out_of_fuel, task_owner_node, validate_qemu_task_ack,
  node_task_finished, wait_for_node_task,
}
use terraform_provider_proxm.Value.{Value}
use terraform_provider_proxm.Vm.Request.{Form}
use terraform_provider_proxm.Vm.SeedUpdate.{SeedAttachment}

-- The fields of QemuVMConfig that the handlers read.
pub record GuestConfig : Type 0 where
  pub name : Text
  pub disk : List (Text × Text)
  pub extra_config : List (Text × Text)

-- A storage in the listing of a node.
pub record NodeStorage : Type 0 where
  pub storage : Text
  pub enabled : Option Bool
  pub active : Option Bool
  pub content : Text

pub data Event : Type 0 where
  -- one poll that classifies a pending task
  classified : Text → Result Bool → Event
  -- a wait for a task
  awaited : Text → Result (Unit {0}) → Event
  config_read : Result GuestConfig → Event
  status_read : Result Text → Event
  -- POST …/status/stop with its acknowledgement
  stop_posted : Result Text → Event
  -- DELETE …/qemu/{vmid} with its acknowledgement
  delete_sent : Result Text → Event
  -- the warning that another guest has the VMID
  foreign_warned : Event
  -- PUT …/config with its form
  config_put : Form → Result (Unit {0}) → Event
  -- PUT …/resize of a slot to a size in GiB under a digest, with its acknowledgement
  resize_put : Text → ℤ → Text → Result Text → Event
  -- POST …/status/start and POST …/status/shutdown with its timeout, with their acknowledgements
  start_posted : Result Text → Event
  shutdown_posted : ℤ → Result Text → Event
  -- the storages of the node, and the ISO volumes of one of them
  storages_read : Result (List NodeStorage) → Event
  content_listed : Text → Result (List Text) → Event

abbrev pub Log : Type 0
Log = List Event

-- The server answers by what it was asked before; polls by the time.
pub record Server : Type 0 where
  pub poll : Text → Text → ℕ → Poll
  pub get_config : Log → Result GuestConfig
  pub get_status : Log → Result Text
  pub post_stop : Log → Result Text
  pub send_delete : Log → Result Text
  pub put_config : Form → Log → Result (Unit {0})
  pub put_resize : Text → ℤ → Text → Log → Result Text
  pub post_start : Log → Result Text
  pub post_shutdown : ℤ → Log → Result Text
  pub get_storages : Log → Result (List NodeStorage)
  pub list_content : Text → Log → Result (List Text)

pub record World : Type 0 where
  pub now : ℕ
  pub log : Log
  -- the private state: the UPID of an accepted but unawaited create or clone, or empty
  pub pending_task : Text
  -- the private state: the name of an unconfirmed rename, or empty
  pub pending_name : Text
  -- the private state: the NoCloud attachment
  pub seed : SeedAttachment
  -- the name in the resource's state
  pub recorded_name : Value Text

abbrev pub record_event : Event → World → World
record_event e w = record w { log = e ∷ w.log }

abbrev wait_result : WaitOutcome → Result (Unit {0})
wait_result (returned result _) = result
wait_result out_of_fuel = err (failure (codes "out of fuel"))

abbrev wait_end : ℕ → WaitOutcome → ℕ
wait_end now (returned _ time) = time
wait_end now out_of_fuel = now

abbrev pub task_for : Text → ℤ → Text → Text
task_for verb vm_id node =
    verb ++ (codes " task for VM " ++ (format_int vm_id ++ (codes " on node " ++ quote node)))

-- The text by which the API says that a guest has no configuration.
unfoldable pub missing_config : Text → ℤ → Text
unfolding format_int
missing_config node vm_id =
    codes "nodes/"
    ++ (node ++ (codes "/qemu-server/" ++ (format_int vm_id ++ codes ".conf' does not exist")))

abbrev says_missing : Text → Option (ℕ × Text) → Bool
says_missing missing none = false
says_missing missing (some (status, body)) = (status == 500) && contains body missing

-- GetQemuVMConfig: a status 500 with that text is also errNotFound.
unfoldable pub config_reply : Text → ℤ → Result GuestConfig → Result GuestConfig
unfolding contains missing_config
config_reply node vm_id (ok config) = ok config
config_reply node vm_id (err e) =
    if says_missing (missing_config node vm_id) (as_api_error e)
    then err (joined not_found e)
    else err e

module _ (server : Server) where
  -- waitForNodeTask, with no deadline in the context
  unfoldable pub await_on : Text → Text → World → Result (Unit {0}) × World
  unfolding wait_for_node_task
  await_on node upid w =
      let outcome = wait_for_node_task (server.poll node upid) upid none w.now in
      (
        wait_result outcome,
        record w { now = wait_end w.now outcome; log = awaited upid (wait_result outcome) ∷ w.log },
      )

  abbrev pub await_owner : Text → Result Text → World → Result (Unit {0}) × World
  await_owner upid (err e) w = (err e, w)
  await_owner upid (ok node) w = await_on node upid w

  -- awaitQemuVMPendingTask
  unfoldable pub await_pending_task : Text → World → Result (Unit {0}) × World
  unfolding task_owner_node
  await_pending_task upid w = await_owner upid (task_owner_node upid) w

  abbrev pub finished_reply : Text → Result TaskStatus → Result Bool
  finished_reply upid (err e) = err e
  finished_reply upid (ok reply) = node_task_finished reply upid

  abbrev pub classify_on : Text → Text → World → Result Bool × World
  classify_on node upid w =
      let p = server.poll node upid w.now in
      let result = finished_reply upid p.reply in
      (result, record w { now = w.now + p.latency; log = classified upid result ∷ w.log })

  abbrev pub classify_owner : Text → Result Text → World → Result Bool × World
  classify_owner upid (err e) w = (err e, w)
  classify_owner upid (ok node) w = classify_on node upid w

  -- reconcileQemuVMPendingTask: one poll of the node that owns the task
  unfoldable pub reconcile_pending_task : Text → World → Result Bool × World
  unfolding task_owner_node node_task_finished
  reconcile_pending_task upid w = classify_owner upid (task_owner_node upid) w

  abbrev pub get_qemu_vm_config : Text → ℤ → World → Result GuestConfig × World
  get_qemu_vm_config node vm_id w =
      let reply = config_reply node vm_id (server.get_config w.log) in
      (reply, record_event (config_read reply) w)

  abbrev pub get_qemu_vm_status : World → Result Text × World
  get_qemu_vm_status w =
      let reply = server.get_status w.log in (reply, record_event (status_read reply) w)

  abbrev pub acked : Text → Text → Result (Unit {0}) → Text → World → Result (Unit {0}) × World
  acked node upid (err e) what w = (err e, w)
  acked node upid (ok _) what w = await_on node upid w

  -- The acknowledgement is checked before the wait.
  abbrev pub await_acked : Text → Text → Text → World → Result (Unit {0}) × World
  await_acked node upid what w = acked node upid (validate_qemu_task_ack upid what) what w

  abbrev pub stop_reply : Text → ℤ → Result Text → World → Result (Unit {0}) × World
  stop_reply node vm_id (err e) w = (err e, w)
  stop_reply node vm_id (ok upid) w = await_acked node upid (task_for (codes "stop") vm_id node) w

  unfoldable pub stop_qemu_vm : Text → ℤ → World → Result (Unit {0}) × World
  unfolding validate_qemu_task_ack
  stop_qemu_vm node vm_id w =
      let reply = server.post_stop w.log in
      stop_reply node vm_id reply (record_event (stop_posted reply) w)

  -- A guest that is missing at the submission counts as deleted.
  abbrev pub delete_reply : Text → ℤ → Result Text → World → Result (Unit {0}) × World
  delete_reply node vm_id (err e) w = (if is_not_found e then ok tt else err e, w)
  delete_reply node vm_id (ok upid) w =
      await_acked node upid (task_for (codes "delete") vm_id node) w

  unfoldable pub delete_qemu_vm : Text → ℤ → World → Result (Unit {0}) × World
  unfolding validate_qemu_task_ack
  delete_qemu_vm node vm_id w =
      let reply = server.send_delete w.log in
      delete_reply node vm_id reply (record_event (delete_sent reply) w)

  -- UpdateQemuVM, whose form is built by the caller
  abbrev pub update_qemu_vm : Form → World → Result (Unit {0}) × World
  update_qemu_vm form w =
      let reply = server.put_config form w.log in (reply, record_event (config_put form reply) w)

  abbrev pub node_storages : World → Result (List NodeStorage) × World
  node_storages w =
      let reply = server.get_storages w.log in (reply, record_event (storages_read reply) w)

  abbrev pub iso_volumes : Text → World → Result (List Text) × World
  iso_volumes storage w =
      let reply = server.list_content storage w.log in
      (reply, record_event (content_listed storage reply) w)

  abbrev pub start_reply : Text → ℤ → Result Text → World → Result (Unit {0}) × World
  start_reply node vm_id (err e) w = (err e, w)
  start_reply node vm_id (ok upid) w = await_acked node upid (task_for (codes "start") vm_id node) w

  unfoldable pub start_qemu_vm : Text → ℤ → World → Result (Unit {0}) × World
  unfolding validate_qemu_task_ack
  start_qemu_vm node vm_id w =
      let reply = server.post_start w.log in
      start_reply node vm_id reply (record_event (start_posted reply) w)

  abbrev pub shutdown_reply : Text → ℤ → Result Text → World → Result (Unit {0}) × World
  shutdown_reply node vm_id (err e) w = (err e, w)
  shutdown_reply node vm_id (ok upid) w =
      await_acked node upid (task_for (codes "shutdown") vm_id node) w

  -- ShutdownQemuVM, with forceStop
  unfoldable pub shutdown_qemu_vm : Text → ℤ → ℤ → World → Result (Unit {0}) × World
  unfolding validate_qemu_task_ack
  shutdown_qemu_vm node vm_id timeout w =
      let reply = server.post_shutdown timeout w.log in
      shutdown_reply node vm_id reply (record_event (shutdown_posted timeout reply) w)

  abbrev pub resize_task : ℤ → Text → Text
  resize_task vm_id slot =
      codes "resize task for VM " ++ (format_int vm_id ++ (codes " disk " ++ quote slot))

  abbrev pub resize_reply : Text → ℤ → Text → Result Text → World → Result (Unit {0}) × World
  resize_reply node vm_id slot (err e) w = (err e, w)
  resize_reply node vm_id slot (ok upid) w = await_acked node upid (resize_task vm_id slot) w

  -- ResizeQemuDisk, to an absolute size
  unfoldable pub resize_qemu_disk : Text → ℤ → Text → ℤ → Text → World → Result (Unit {0}) × World
  unfolding validate_qemu_task_ack
  resize_qemu_disk node vm_id slot gib digest w =
      let reply = server.put_resize slot gib digest w.log in
      resize_reply node vm_id slot reply (record_event (resize_put slot gib digest reply) w)

-- A step, and the next if it yields a value.
abbrev pub and_then {ℓ κ} :
    {A : Type ℓ} {B : Type κ} → Result A × World → (A → World → Result B × World) → Result B × World
and_then (ok a, w) next = next a w
and_then (err e, w) next = (err e, w)

-- fmt.Errorf("…: %w", err)
abbrev pub explain {ℓ} : {A : Type ℓ} → Text → Result A × World → Result A × World
explain message (ok a, w) = (ok a, w)
explain message (err e, w) = (err (wrapped message e), w)
