-- ===== src/Tests/Update.antt =====
-- Updates against a small server.
use terraform_provider_proxm.Prelude.{
  ℕ, ◌≡◌, ◌≢◌, ◌*◌, ◌^◌, refl, Bool, true, false, some, [], ◌∷◌, ◌++◌, All, ltb, ◌==◌,
  if◌then◌else◌,
}
use terraform_provider_proxm.Int.{ℤ, pos, negsuc}
use terraform_provider_proxm.Text.{Text, codes}
use terraform_provider_proxm.Text.Decimal.{parse_nat, read_digits}
use terraform_provider_proxm.Value.{Value, null, known}
use terraform_provider_proxm.Client.Error.{failure, Result, ok, err, is_ok}
use terraform_provider_proxm.Client.Task.{Poll}
use terraform_provider_proxm.Vm.Identity.{owned_names, owns_guest}
use terraform_provider_proxm.Vm.Slots.{MapOf, find}
use terraform_provider_proxm.Vm.Cdrom.{Slots, lookup, validate_cdrom_ownership}
use terraform_provider_proxm.Vm.Model.{QemuVmModel, nocloud_slot_value}
use terraform_provider_proxm.Vm.SeedUpdate.{SeedAttachment, no_attachment, authorize_seed_update}
use terraform_provider_proxm.Vm.SeedUpdate.Proven.{KeepsProven, authorize_seed_update-KeepsProven}
use terraform_provider_proxm.Vm.World.{
  GuestConfig, resize_put, Log, Server, World, config_reply, await_on,
}
use terraform_provider_proxm.Vm.Resize.Size.{Arithmetic}
use terraform_provider_proxm.Vm.Resize.{targets_of, resize_disks}
use terraform_provider_proxm.Vm.Resize.Grows.{grows_only, resize_disks-grows_only}
use terraform_provider_proxm.Vm.Resize.Converges.{shows_size, resize_disks-shows_size}
use terraform_provider_proxm.Vm.Update.{update_request}
use terraform_provider_proxm.Vm.Update.Named.{leaves_names}
use terraform_provider_proxm.Vm.Update.Apply.{update}
use terraform_provider_proxm.Vm.Update.Monitor.{watch, possible_names}
use terraform_provider_proxm.Vm.Update.Ordered.{update-ordered}
use terraform_provider_proxm.Vm.Update.Renames.{update-Covered}
use terraform_provider_proxm.Tests.Samples.{numbers}

-- Whole numbers in place of float64.
abbrev gib_bytes : ℤ → ℕ
gib_bytes (pos n) = n * 2 ^ 30
gib_bytes (negsuc n) = 0

abbrev whole : Arithmetic numbers
whole = record {
  times_1024 = λ n. n * 1024;
  is_size = λ n. ltb 0 n;
  of_gib = gib_bytes;
  less = ltb;
  same = λ a b. a == b;
}

abbrev finished : Poll
finished = record {
  latency = 1;
  reply = ok (record { status = codes "stopped"; exit_status = codes "OK" });
}

abbrev pub guest : Text → Text → GuestConfig
guest name size = record {
  name = name;
  disk = (codes "scsi0", codes "local:vm-1,size=" ++ size) ∷ [];
  extra_config = (codes "digest", codes "abc") ∷ [];
}

-- The disk has grown once a resize was sent.
abbrev grown : Log → Bool
grown [] = false
grown (e ∷ log) = elim e [ resize_put _ _ _ _ ↦ true | _ ↦ grown log ]

abbrev pub world : World
world = record {
  now = 0;
  log = [];
  pending_task = [];
  pending_name = [];
  seed = no_attachment;
  recorded_name = known (codes "web");
}

-- A server that answers a PUT with the reply.
abbrev pub server : Result (Unit {0}) → Server
server reply = record {
  poll = λ node task now. finished;
  get_config = λ log. ok (guest (codes "web") (if grown log then codes "16G" else codes "8G"));
  get_status = λ log. ok (codes "stopped");
  post_stop = λ log. ok (codes "UPID:pve:0002");
  send_delete = λ log. ok (codes "UPID:pve:0003");
  put_config = λ form log. reply;
  put_resize = λ slot gib digest log. ok (codes "UPID:pve:0004");
  post_start = λ log. ok (codes "UPID:pve:0005");
  post_shutdown = λ timeout log. ok (codes "UPID:pve:0006");
  get_storages = λ log. ok [];
  list_content = λ storage log. ok [];
}

abbrev sizes : Value (MapOf (Value ℤ))
sizes = known ((codes "scsi0", known (pos 16)) ∷ [])

resize_disks-grows_only_example :
    grows_only whole
      (targets_of sizes)
      (resize_disks whole (server (ok tt)) (codes "pve") (pos 100) sizes world).1.log
    ≡ true
resize_disks-grows_only_example =
    resize_disks-grows_only whole (server (ok tt)) (codes "pve") (pos 100) sizes world refl

resized : is_ok (resize_disks whole (server (ok tt)) (codes "pve") (pos 100) sizes world).0 ≡ true
unfolding resize_disks config_reply await_on parse_nat read_digits
resized = refl

sixteen : find (targets_of sizes) (codes "scsi0") ≡ some (pos 16)
sixteen = refl

resize_disks-shows_size_example :
    shows_size whole
      (codes "scsi0")
      (pos 16)
      (resize_disks whole (server (ok tt)) (codes "pve") (pos 100) sizes world).1.log
    ≡ true
resize_disks-shows_size_example =
    resize_disks-shows_size whole (server (ok tt)) (codes "pve") (pos 100) sizes world
      (codes "scsi0") (pos 16) refl sixteen resized

abbrev pub state : QemuVmModel numbers
state = record {
  id = null;
  node = known (codes "pve");
  vm_id = known (pos 100);
  vm_id_start = null;
  name = known (codes "web");
  description = null;
  tags = null;
  template = null;
  pool = null;
  on_boot = null;
  protection = null;
  scsi_hw = null;
  tablet = null;
  startup = null;
  bios = null;
  machine = null;
  agent = null;
  cores = null;
  sockets = null;
  memory = null;
  numa = null;
  vcpus = null;
  cpu_units = null;
  cpu_limit = null;
  balloon = null;
  shares = null;
  hugepages = null;
  cpu = null;
  os_type = null;
  boot = null;
  common = null;
  cloud_init = null;
  network = null;
  disk = null;
  disk_resize = null;
  serial = null;
  host_pci = null;
  usb = null;
  rng = null;
  virtiofs = null;
  efi_disk = null;
  tpm_state = null;
  vga = null;
  raw = null;
  clone = null;
  start_on_create = null;
  stop_on_destroy = null;
  power = null;
  power_shutdown_timeout = null;
  nocloud_cdrom_slot = null;
  nocloud_update_from = null;
  status = null;
  uptime = null;
}

-- A new name, a disk to grow, and the guest to be started.
abbrev pub plan : QemuVmModel numbers
plan = record state { name = known (codes "app"); disk_resize = sizes; power = known true }

update-ordered_example :
    (watch
      (owned_names state.name world.pending_name)
      plan.power
      (update whole (server (ok tt)) plan state world).1.log).violated
    ≡ false
update-ordered_example = update-ordered whole (server (ok tt)) plan state world refl

abbrev lost : Result (Unit {0})
lost = err (failure (codes "unexpected EOF"))

put_lost : is_ok (update whole (server lost) plan state world).0 ≡ false
unfolding update config_reply owns_guest owned_names
put_lost = refl

named : plan.name ≢ known []
named = λ e. cc

no_raw_name : leaves_names numbers (update_request plan state) ≡ true
unfolding update_request
no_raw_name = refl

update-Covered_example :
    let w' = (update whole (server lost) plan state world).1 in
    All
      (λ name. owns_guest (owned_names w'.recorded_name w'.pending_name) name ≡ true)
      (possible_names state.name w'.log)
update-Covered_example =
    update-Covered whole (server lost) plan state world refl refl refl named no_raw_name put_lost

-- A guest whose old seed the history records.
abbrev pub seeded : QemuVmModel numbers
seeded = record state { nocloud_cdrom_slot = known (codes "ide2") }

abbrev pub old_seed : Text
old_seed = codes "local:iso/old.iso"

abbrev pub new_seed : Text
new_seed = codes "local:iso/new.iso"

abbrev pub history : SeedAttachment
history = record {
  node = codes "pve";
  vm_id = pos 100;
  slot = codes "ide2";
  volume = old_seed;
  pending = [];
}

abbrev planned : Slots
planned = (codes "ide2", new_seed) ∷ []

abbrev pub attached : Slots
attached =
    (codes "scsi0", codes "local:vm-1,size=8G")
    ∷ (codes "ide2", old_seed ++ codes ",media=cdrom")
    ∷ []

abbrev inherited : Slots
inherited =
    (codes "ide2", new_seed ++ codes ",media=cdrom")
    ∷ (codes "scsi0", codes "local:vm-1,size=8G")
    ∷ []

marked : nocloud_slot_value seeded ≢ []
unfolding nocloud_slot_value
marked = λ e. cc

marked_planned : lookup planned (nocloud_slot_value seeded) ≡ some new_seed
unfolding nocloud_slot_value
marked_planned = refl

swap_granted : authorize_seed_update seeded planned attached history ≡ ok (inherited, true)
unfolding authorize_seed_update nocloud_slot_value
swap_granted = refl

swap_safe :
    is_ok (validate_cdrom_ownership (pos 100) planned inherited (nocloud_slot_value seeded)) ≡ true
unfolding validate_cdrom_ownership nocloud_slot_value
swap_safe = refl

authorize_seed_update-KeepsProven_example : KeepsProven seeded history (pos 100) planned attached
authorize_seed_update-KeepsProven_example =
    authorize_seed_update-KeepsProven seeded history (pos 100) planned attached inherited true
      new_seed marked marked_planned swap_granted swap_safe
