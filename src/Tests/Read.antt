-- ===== src/Tests/Read.antt =====
-- Reads of a resource against a small server.
use terraform_provider_proxm.Prelude.{◌≡◌, refl, [], ◌∷◌, ◌++◌}
use terraform_provider_proxm.Text.{codes}
use terraform_provider_proxm.Client.Error.{ok}
use terraform_provider_proxm.Client.Task.{task_owner_node}
use terraform_provider_proxm.Vm.Identity.{owned_names, owns_guest}
use terraform_provider_proxm.Vm.World.{Server, World, config_reply, reconcile_pending_task}
use terraform_provider_proxm.Vm.Read.{removed, read, refresh_seed}
use terraform_provider_proxm.Vm.Read.Evidence.{Absent, read-Absent}
use terraform_provider_proxm.Vm.Read.Seed.{Confirms, read-Confirms}
use terraform_provider_proxm.Tests.Update.{guest, server, world, state, seeded, history, new_seed}

-- The create task has settled, and another guest has the VMID.
abbrev unsettled : World
unsettled = record world { pending_task = codes "UPID:pve:0001" }

abbrev foreign : Server
foreign = record (server (ok tt)) { get_config = λ log. ok (guest (codes "other") (codes "8G")) }

dropped : (read foreign state unsettled).0 ≡ ok removed
unfolding read config_reply owns_guest owned_names reconcile_pending_task task_owner_node
dropped = refl

read-Absent_example :
    Absent (owned_names state.name unsettled.pending_name) (read foreign state unsettled).1
read-Absent_example = read-Absent foreign state unsettled dropped

-- The pending volume of the seed is observed.
abbrev exchanging : World
exchanging = record world { seed = record history { pending = new_seed } }

abbrev swapped : Server
swapped = record (server (ok tt)) {
  get_config = λ log. ok (record {
    name = codes "web";
    disk = (codes "ide2", new_seed ++ codes ",media=cdrom") ∷ [];
    extra_config = [];
  });
}

-- The run confirms it.
confirmed : (read swapped seeded exchanging).1.seed ≡ record history { volume = new_seed }
unfolding read config_reply owns_guest owned_names reconcile_pending_task refresh_seed
confirmed = refl

read-Confirms_example : Confirms exchanging.seed (read swapped seeded exchanging).1.seed
read-Confirms_example = read-Confirms swapped seeded exchanging
