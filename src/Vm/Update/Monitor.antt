-- ===== src/Vm/Update/Monitor.antt =====
-- QemuVMResource.Update of internal/provider/resource_qemu_vm.go: a monitor that reads its log.
use terraform_provider_proxm.Prelude.{
  Bool, true, false, not, ◌&&◌, ◌||◌, Option, none, some, List, [], ◌∷◌, if◌then◌else◌,
}
use terraform_provider_proxm.Text.{Text}
use terraform_provider_proxm.Value.{Value, null, unknown, known, string_value}
use terraform_provider_proxm.Client.Error.{Result, ok, err, is_ok}
use terraform_provider_proxm.Vm.Delete.Monitor.{owned_config, posted, succeeds}
use terraform_provider_proxm.Vm.World.{
  Event, classified, awaited, config_read, status_read, stop_posted, delete_sent, foreign_warned,
  config_put, resize_put, start_posted, shutdown_posted, storages_read, content_listed, Log,
}
use terraform_provider_proxm.Vm.Update.{powered_on}
use terraform_provider_proxm.Vm.Request.Name.{name_key}

-- What the log shows so far: the last read of the configuration showed the tracked guest; the guest was
-- last seen off, or the task that the acknowledgement of its shutdown names was seen to succeed; a shutdown
-- was sent, and its task; a PUT of the configuration was
-- sent, and accepted; a rule was broken. The rules: one PUT at most, to the tracked guest, that is off if
-- the plan wants it off; no growing of a disk and no start before the PUT is accepted.
pub record Watch : Type 0 where
  pub owned : Bool
  pub halted : Bool
  pub stopping : Bool
  pub task : Text
  pub sent : Bool
  pub written : Bool
  pub violated : Bool

-- The plan wants the guest off.
abbrev pub wants_stop : Value Bool → Bool
wants_stop (known power) = not power
wants_stop null = false
wants_stop unknown = false

abbrev pub is_off : Result Text → Bool
is_off (ok status) = not (powered_on status)
is_off (err e) = false

module _ (owned : List Text) (power : Value Bool) where
  abbrev pub watch_event : Event → Watch → Watch
  watch_event (config_read result) m = record m { owned = owned_config owned result }
  watch_event (status_read result) m = record m { halted = is_off result }
  watch_event (shutdown_posted timeout result) m = record m {
    halted = false;
    stopping = true;
    task = posted result;
  }
  watch_event (awaited upid result) m =
      if m.stopping then record m { halted = succeeds m.task upid result } else m
  watch_event (config_put form result) m = record m {
    sent = true;
    written = is_ok result;
    violated = m.violated || not (m.owned && (m.halted || not (wants_stop power)) && not m.sent);
  }
  watch_event (resize_put slot gib digest result) m = record m {
    violated = m.violated || not m.written;
  }
  watch_event (start_posted result) m = record m { violated = m.violated || not m.written }
  watch_event (classified upid result) m = m
  watch_event (stop_posted result) m = m
  watch_event (delete_sent result) m = m
  watch_event foreign_warned m = m
  watch_event (storages_read result) m = m
  watch_event (content_listed storage result) m = m

  abbrev watch_start : Watch
  watch_start = record {
    owned = false;
    halted = false;
    stopping = false;
    task = [];
    sent = false;
    written = false;
    violated = false;
  }

  -- The log is newest first.
  abbrev pub watch : Log → Watch
  watch [] = watch_start
  watch (e ∷ log) = watch_event e (watch log)

-- The names after a PUT that is accepted, and after one that may have been carried out.
abbrev pub given : Option Text → List Text → List Text
given none names = names
given (some name) names = name ∷ []

abbrev pub may_give : Option Text → List Text → List Text
may_give none names = names
may_give (some name) names = name ∷ names

-- The names that the guest can have: the old one, and those in the forms of the PUTs.
abbrev pub possible_names : Value Text → Log → List Text
possible_names old [] = string_value old ∷ []
possible_names old (config_put form (ok _) ∷ log) = given (form name_key) (possible_names old log)
possible_names old (config_put form (err e) ∷ log) =
    may_give (form name_key) (possible_names old log)
possible_names old (_ ∷ log) = possible_names old log
