-- ===== src/Vm/Resize/Grows.antt =====
-- resizeDisks of internal/provider/qemu_vm_resize.go: a monitor that reads its log.
use terraform_provider_proxm.Prelude.{
  ◌≡◌, Bool, true, false, ◌&&◌, Option, none, some, List, [], ◌∷◌, ==_self,
}
use terraform_provider_proxm.Int.{ℤ, pos, negsuc, eqz}
use terraform_provider_proxm.Text.{Text}
use terraform_provider_proxm.Text.Sort.{sorted_strings}
use terraform_provider_proxm.Value.{Value, null, unknown, known}
use terraform_provider_proxm.Config.{Float64}
use terraform_provider_proxm.Client.Error.{ok}
use terraform_provider_proxm.Vm.Slots.{MapOf}
use terraform_provider_proxm.Vm.World.{config_read, resize_put, Log, Server, World}
use terraform_provider_proxm.Vm.Resize.Size.{Arithmetic}
use terraform_provider_proxm.Vm.Resize.{
  known_targets, or_empty, resize_known, targets_of, keys, target_at, resize_slot, resize_slots,
  resize_disks,
}
use terraform_provider_proxm.Vm.Resize.Rule.{lets_grow, resize_slot_keeps, and_then_step}

module _ {F : Float64} (A : Arithmetic F) (targets : MapOf ℤ) where
  -- The event before a resize is a read of the configuration that lets the slot grow.
  abbrev pub last_read_lets : Text → ℤ → Text → Log → Bool
  last_read_lets slot gib digest (config_read (ok config) ∷ log) =
      lets_grow A slot gib digest config
  last_read_lets slot gib digest _ = false

  -- Every resize of a log is to the configured size, and let by the read before it.
  abbrev pub grows_only : Log → Bool
  grows_only [] = true
  grows_only (resize_put slot gib digest reply ∷ log) =
      eqz gib (target_at targets slot) && last_read_lets slot gib digest log && grows_only log
  grows_only (e ∷ log) = grows_only log

eqz_self : (n : ℤ) → eqz n n ≡ true
eqz_self (pos n) = ==_self n
eqz_self (negsuc n) = ==_self n

module _ {F : Float64} (A : Arithmetic F) (server : Server) (node : Text) (vm_id : ℤ)
    (targets : MapOf ℤ) where
  resize_slot-grows_only :
      (slot : Text) (w : World)
      → grows_only A targets w.log ≡ true
      → grows_only A targets (resize_slot A server node vm_id slot (target_at targets slot) w).1.log
        ≡ true
  resize_slot-grows_only slot w h =
      resize_slot_keeps A server node vm_id slot (target_at targets slot)
        (λ x. grows_only A targets x.log ≡ true) (λ upid r time y x. x) (λ r y x. x)
        (λ digest config reply y lets x. rw (eqz_self (target_at targets slot), lets) x) w h

  resize_slots-grows_only :
      (slots : List Text) (w : World)
      → grows_only A targets w.log ≡ true
      → grows_only A targets (resize_slots A server node vm_id targets slots w).1.log ≡ true
  unfolding resize_slots
  resize_slots-grows_only [] w h = h
  resize_slots-grows_only (slot ∷ slots) w h =
      and_then_step (λ x. grows_only A targets x.log ≡ true)
        (resize_slot A server node vm_id slot (target_at targets slot) w)
        (λ _. resize_slots A server node vm_id targets slots) (resize_slot-grows_only slot w h)
        (λ _ x. resize_slots-grows_only slots _ x)

-- Disks only grow: from a log whose resizes are so, against every server, each resize that is sent is to
-- the configured size and directly follows a read of the configuration in which the slot is a hard disk
-- of another size that is not above the configured one, and whose nonempty digest the resize carries.
pub resize_disks-grows_only :
    {F : Float64} (A : Arithmetic F) (server : Server) (node : Text) (vm_id : ℤ)
    (disk_resize : Value (MapOf (Value ℤ))) (w : World)
    → grows_only A (targets_of disk_resize) w.log ≡ true
    → grows_only A (targets_of disk_resize) (resize_disks A server node vm_id disk_resize w).1.log
      ≡ true
unfolding resize_disks
resize_disks-grows_only A server node vm_id null w h = h
resize_disks-grows_only A server node vm_id unknown w h = h
resize_disks-grows_only A server node vm_id (known items) w h = by_targets (known_targets items) h
  where
    by_targets :
        (targets : Option (MapOf ℤ))
        → grows_only A (or_empty targets) w.log ≡ true
        → grows_only A (or_empty targets) (resize_known A server node vm_id targets w).1.log ≡ true
    by_targets none h = h
    by_targets (some targets) h =
        resize_slots-grows_only A server node vm_id targets (sorted_strings (keys targets)) w h
