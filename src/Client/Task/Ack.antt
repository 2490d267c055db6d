-- ===== src/Client/Task/Ack.antt =====
-- validateQemuTaskAck of internal/provider/client_task.go: an accepted acknowledgement names a task.
use terraform_provider_proxm.Prelude.{◌≡◌, refl, true, Bool-cases, inl, inr}
use terraform_provider_proxm.Text.{Text, is_empty}
use terraform_provider_proxm.Client.Error.{Result, ok, err, is_ok}
use terraform_provider_proxm.Client.Task.{
  task_owner_node, validate_qemu_task_ack, is_task, acknowledged,
}

acknowledged_ok :
    (what : Text) (owner : Result Text) {x : Unit {0}}
    → acknowledged what owner ≡ ok x
    → is_ok owner ≡ true
acknowledged_ok what (ok node) h = refl
acknowledged_ok what (err e) h = cc

pub validate_qemu_task_ack_names :
    (upid what : Text) {x : Unit {0}}
    → validate_qemu_task_ack upid what ≡ ok x
    → is_task upid ≡ true
unfolding validate_qemu_task_ack
validate_qemu_task_ack_names upid what h = elim (Bool-cases (is_empty upid)) [
  | inl e ↦ cc (rw e at h)
  | inr e ↦ acknowledged_ok what (task_owner_node upid) (rw e at h)
]
