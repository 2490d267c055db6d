-- ===== src/Vm/Delete/Monitor.antt =====
-- QemuVMResource.Delete of internal/provider/resource_qemu_vm.go: a monitor that reads its log.
use terraform_provider_proxm.Prelude.{
  Bool, true, false, not, ◌&&◌, ◌||◌, List, [], ◌∷◌, if◌then◌else◌,
}
use terraform_provider_proxm.Text.{Text, codes, text_eq, is_empty}
use terraform_provider_proxm.Value.{value_or}
use terraform_provider_proxm.Client.Error.{Result, ok, err, is_ok, is_not_found}
use terraform_provider_proxm.Client.Task.{is_task}
use terraform_provider_proxm.Vm.Identity.{owns_guest}
use terraform_provider_proxm.Vm.World.{
  GuestConfig, Event, classified, awaited, config_read, status_read, stop_posted, delete_sent,
  foreign_warned, config_put, resize_put, start_posted, shutdown_posted, storages_read,
  content_listed, Log,
}
use terraform_provider_proxm.Vm.Delete.{Tracked}

-- What the log shows so far: no create or clone task of the guest still runs; the last read of the
-- configuration showed the tracked guest; the guest need not be stopped, or was seen not to run, or
-- its stop task was seen to succeed; a stop was sent; a DELETE was sent while one of these failed. The
-- task is the retained one, or, once a stop was sent, that of its acknowledgement: a reply about another
-- identifier, or about one that names no task, shows nothing.
pub record Monitor : Type 0 where
  pub settled : Bool
  pub identified : Bool
  pub quiet : Bool
  pub stopping : Bool
  pub task : Text
  pub violated : Bool

abbrev pub quiet_status : Result Text → Bool
quiet_status (ok status) = not (text_eq status (codes "running"))
quiet_status (err e) = is_not_found e

abbrev pub owned_config : List Text → Result GuestConfig → Bool
owned_config owned (ok config) = owns_guest owned config.name
owned_config owned (err e) = false

abbrev pub settled_by : Result Bool → Bool
settled_by (ok b) = b
settled_by (err e) = false

abbrev pub about_task : Text → Text → Bool
about_task task upid = text_eq upid task && is_task upid

-- The task was seen to succeed.
abbrev pub succeeds : Text → Text → Result (Unit {0}) → Bool
succeeds task upid result = is_ok result && about_task task upid

abbrev pub posted : Result Text → Text
posted (ok upid) = upid
posted (err e) = []

abbrev pub monitor_event : List Text → Event → Monitor → Monitor
monitor_event owned (classified upid result) m = record m {
  settled = settled_by result && about_task m.task upid;
}
monitor_event owned (awaited upid result) m =
    if m.stopping
    then record m { quiet = succeeds m.task upid result }
    else record m { settled = succeeds m.task upid result }
monitor_event owned (config_read result) m = record m { identified = owned_config owned result }
monitor_event owned (status_read result) m = record m { quiet = quiet_status result }
monitor_event owned (stop_posted result) m = record m {
  stopping = true;
  quiet = false;
  task = posted result;
}
monitor_event owned (delete_sent result) m = record m {
  violated = m.violated || not (m.settled && m.identified && m.quiet);
}
monitor_event owned foreign_warned m = m
monitor_event owned (config_put form result) m = m
monitor_event owned (resize_put slot gib digest result) m = m
monitor_event owned (start_posted result) m = m
monitor_event owned (shutdown_posted timeout result) m = m
monitor_event owned (storages_read result) m = m
monitor_event owned (content_listed storage result) m = m

-- The log is newest first.
abbrev pub monitor : List Text → Monitor → Log → Monitor
monitor owned start [] = start
monitor owned start (e ∷ log) = monitor_event owned e (monitor owned start log)

-- At the start a retained task is not settled, and a guest to be stopped is not quiet.
abbrev pub monitor_start : Tracked → Text → Monitor
monitor_start state pending = record {
  settled = is_empty pending;
  identified = false;
  quiet = not (value_or false state.stop_on_destroy);
  stopping = false;
  task = pending;
  violated = false;
}
