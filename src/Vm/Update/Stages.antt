-- ===== src/Vm/Update/Stages.antt =====
-- QemuVMResource.Update of internal/provider/resource_qemu_vm.go: rules for its steps, and what the stages
-- around the PUT keep.
use terraform_provider_proxm.Prelude.{
  Bool, true, false, List, [], ◌++◌, Bool-cases, inl, inr, if◌then◌else◌,
}
use terraform_provider_proxm.Text.{Text, codes, is_empty}
use terraform_provider_proxm.Config.{Float64, disk_storage_from_volume}
use terraform_provider_proxm.Client.Error.{Result, ok, err, quote}
use terraform_provider_proxm.Vm.World.{
  GuestConfig, NodeStorage, storages_read, content_listed, Server, World, record_event, and_then,
  node_storages, iso_volumes,
}
use terraform_provider_proxm.Vm.Cdrom.{Slots, slots_where, is_extra_planned}
use terraform_provider_proxm.Vm.SeedUpdate.{at_key}
use terraform_provider_proxm.Vm.Model.{QemuVmModel, nocloud_slot_value, expand}
use terraform_provider_proxm.Vm.Planned.{
  validate_planned_cdroms, ensure_iso_storage, check_seed_volume, check_volume, check_listed,
  find_volume, check_single, check_supported, cannot_hold, other_seeds, reject_slots,
  slots_without_cdrom, planned_wire_cdroms, planned_cdroms, validate_marker_slot, mem,
}
use terraform_provider_proxm.Vm.Resize.Size.{Arithmetic}
use terraform_provider_proxm.Vm.Resize.Rule.{and_then_step, step_keeps}
use terraform_provider_proxm.Vm.Update.{
  no_exchange, seed_stage, check_marked, check_planned, check_seed,
}

-- What holds of a step that yields a value, and of one that fails.
abbrev pub Post {ℓ} :
    {A : Type ℓ} → (A → World → Type 0) → (World → Type 0) → Result A × World → Type 0
Post good bad (ok a, w) = good a w
Post good bad (err e, w) = bad w

pub Post-then :
    {A B : Type 0} (good : A → World → Type 0) (good' : B → World → Type 0) (bad : World → Type 0)
    (r : Result A × World) (next : A → World → Result B × World)
    → Post good bad r
    → ((a : A) (w : World) → good a w → Post good' bad (next a w))
    → Post good' bad (and_then r next)
Post-then good good' bad (ok a, w) next h f = f a w h
Post-then good good' bad (err e, w) next h f = h

pub Post-keeps :
    {A : Type 0} (P bad : World → Type 0) (r : Result A × World)
    → ((w : World) → P w → bad w)
    → P r.1
    → Post (λ _. P) bad r
Post-keeps P bad (ok a, w) f h = h
Post-keeps P bad (err e, w) f h = f w h

pub Post-both :
    {A : Type 0} (good good' : A → World → Type 0) (bad bad' : World → Type 0)
    (r : Result A × World)
    → Post good bad r
    → Post good' bad' r
    → Post (λ a w. good a w × good' a w) bad' r
Post-both good good' bad bad' (ok a, w) h h' = (h, h')
Post-both good good' bad bad' (err e, w) h h' = h'

pub Post-world :
    {A : Type 0} (P : World → Type 0) (r : Result A × World) → Post (λ _. P) P r → P r.1
Post-world P (ok a, w) h = h
Post-world P (err e, w) h = h

-- A property that reads of the storages keep.
module _ (server : Server) (P : World → Type 0)
    (by_storages : (r : Result (List NodeStorage)) (w : World)
      → P w
      → P (record_event (storages_read r) w))
    (by_content : (s : Text) (r : Result (List Text)) (w : World)
      → P w
      → P (record_event (content_listed s r) w)) where
  find_volume_keeps : (volume : Text) (w : World) → P w → P (find_volume server volume w).1
  find_volume_keeps volume w h =
      step_keeps P (codes "unable to verify seed volume " ++ quote volume)
        (iso_volumes server (disk_storage_from_volume volume) w) (check_volume server volume)
        (by_content _ _ w h) (λ volumes x. checked volumes _ x)
    where
      checked : (volumes : List Text) (w : World) → P w → P (check_volume server volume volumes w).1
      checked volumes w h = elim (Bool-cases (mem volume volumes)) [
        | inl e ↦ rw e h
        | inr e ↦ rw e h
      ]

  check_seed_volume_keeps :
      (volume : Text) (w : World) → P w → P (check_seed_volume server volume w).1
  unfolding ensure_iso_storage
  check_seed_volume_keeps volume w h =
      let storage = disk_storage_from_volume volume in
      and_then_step P (ensure_iso_storage server storage w) (λ _. find_volume server volume)
        (step_keeps P (codes "unable to read storage status") (node_storages server w)
          (check_listed server storage) (by_storages _ w h) (λ _ x. x))
        (λ _ x. find_volume_keeps volume _ x)

  validate_planned_cdroms_keeps :
      (planned : Slots) (marker : Text) (w : World)
      → P w
      → P (validate_planned_cdroms server planned marker w).1
  unfolding validate_planned_cdroms
  validate_planned_cdroms_keeps planned marker w h =
      and_then_step P (reject_slots server cannot_hold (slots_without_cdrom planned), w)
        (λ _. check_supported server planned marker) h (λ _ x. supported (is_empty marker))
    where
      supported : (b : Bool) → P (if b then (ok tt, w) else check_single server planned marker w).1
      supported true = h
      supported false =
          and_then_step P
            (reject_slots server other_seeds (slots_where (is_extra_planned marker) planned), w)
            (λ _. check_seed_volume server (at_key planned marker)) h
            (λ _ x. check_seed_volume_keeps (at_key planned marker) w x)

  pub seed_stage_keeps :
      {F : Float64} (A : Arithmetic F) (plan state : QemuVmModel F) (current : GuestConfig)
      (w : World)
      → P w
      → P (seed_stage A server plan state current w).1
  unfolding seed_stage
  seed_stage_keeps A plan state current w h = by_marker (is_empty (nocloud_slot_value plan))
    where
      by_marker :
          (b : Bool)
          → P
              (if b
                then (ok no_exchange, w)
                else check_marked A server plan state (nocloud_slot_value plan) current w).1
      by_marker true = h
      by_marker false =
          let marker = nocloud_slot_value plan in
          let planned = planned_wire_cdroms plan (planned_cdroms plan) marker in
          and_then_step P (validate_marker_slot marker (expand [] plan.disk), w)
            (λ _. check_planned A server plan state planned marker current) h
            (λ _ x.
              and_then_step P (validate_planned_cdroms server planned marker w)
                (λ _. check_seed A server plan state planned marker current)
                (validate_planned_cdroms_keeps planned marker w x) (λ _ y. y))
