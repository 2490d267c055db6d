-- ===== src/Vm/Resize/Rule.antt =====
-- resizeDisks of internal/provider/qemu_vm_resize.go: what its steps keep of the log.
use terraform_provider_proxm.Prelude.{
  ℕ, ◌≡◌, refl, sym, subst, Bool, true, false, not, ◌&&◌, Option, none, some, List, [], ◌∷◌,
  Bool-cases, inl, inr,
}
use terraform_provider_proxm.Int.{ℤ}
use terraform_provider_proxm.Text.{Text, codes, text_eq, is_empty}
use terraform_provider_proxm.Text.Equal.{text_eq_self}
use terraform_provider_proxm.Text.Sort.{sorted_strings}
use terraform_provider_proxm.Value.{Value, null, unknown, known}
use terraform_provider_proxm.Config.{Float64}
use terraform_provider_proxm.Client.Error.{Result, ok, err}
use terraform_provider_proxm.Vm.Slots.{MapOf}
use terraform_provider_proxm.Vm.Cdrom.{lookup}
use terraform_provider_proxm.Vm.SeedUpdate.{at_key}
use terraform_provider_proxm.Vm.World.{
  GuestConfig, awaited, config_read, resize_put, Server, World, record_event, config_reply,
  await_on, acked, resize_reply, resize_qemu_disk, get_qemu_vm_config, and_then, explain,
}
use terraform_provider_proxm.Vm.Resize.Size.{Arithmetic, disk_size_bytes}
use terraform_provider_proxm.Vm.Resize.{
  Drive, read_drive, is_resizable, compare_size, grow, verify, verify_size, check_size, resize_wire,
  resize_read, resize_slot, resize_slots, resize_known, resize_disks, known_targets, keys,
  target_at, reading, resizing, verifying,
}

-- A step whose error is explained, and the next.
pub step_keeps :
    {A B : Type 0} (P : World → Type 0) (message : Text) (r : Result A × World)
    (next : A → World → Result B × World)
    → P r.1
    → ((a : A) → P r.1 → P (next a r.1).1)
    → P (and_then (explain message r) next).1
step_keeps P message (ok a, w) next h f = f a h
step_keeps P message (err e, w) next h f = h

module _ {F : Float64} (A : Arithmetic F) where
  -- A hard disk of a size below the target.
  abbrev pub is_below : ℤ → Result F.Float → Bool
  is_below gib (err e) = false
  is_below gib (ok current) =
      not (A.less (A.of_gib gib) current) && not (A.same (A.of_gib gib) current)

  abbrev pub may_grow : ℤ → Option Text → Bool
  may_grow gib none = false
  may_grow gib (some wire) =
      is_resizable (read_drive wire) && is_below gib (disk_size_bytes A (read_drive wire).size)

  -- The configuration lets a slot grow to the size under the digest.
  abbrev pub lets_grow : Text → ℤ → Text → GuestConfig → Bool
  lets_grow slot gib digest config =
      may_grow gib (lookup config.disk slot)
      && not (is_empty digest)
      && text_eq digest (at_key config.extra_config (codes "digest"))

  -- A property of worlds that waits, reads of the configuration, and resizes that the last read lets grow
  -- keep.
  module _ (server : Server) (node : Text) (vm_id : ℤ) (slot : Text) (gib : ℤ) (P : World → Type 0)
      (by_await : (upid : Text) (r : Result (Unit {0})) (time : ℕ) (w : World)
        → P w
        → P (record w { now = time; log = awaited upid r ∷ w.log }))
      (by_read : (r : Result GuestConfig) (w : World) → P w → P (record_event (config_read r) w))
      (by_resize : (digest : Text) (config : GuestConfig) (reply : Result Text) (w : World)
        → lets_grow slot gib digest config ≡ true
        → P (record_event (config_read (ok config)) w)
        → P (
            record_event
              (resize_put slot gib digest reply)
              (record_event (config_read (ok config)) w))) where
    acked_keeps :
        (upid what : Text) (ack : Result (Unit {0})) (w : World)
        → P w
        → P (acked server node upid ack what w).1
    unfolding await_on
    acked_keeps upid what (err e) w h = h
    acked_keeps upid what (ok _) w h = by_await upid _ _ w h

    resize_reply_keeps :
        (reply : Result Text) (w : World) → P w → P (resize_reply server node vm_id slot reply w).1
    resize_reply_keeps (err e) w h = h
    resize_reply_keeps (ok upid) w h = acked_keeps upid _ _ w h

    check_size_keeps :
        (size : Text) (r : Result F.Float) (w : World)
        → P w
        → P (check_size A server node vm_id slot size gib r w).1
    check_size_keeps size (err e) w h = h
    check_size_keeps size (ok actual) w h = elim (Bool-cases (A.same actual (A.of_gib gib))) [
      | inl e ↦ rw e h
      | inr e ↦ rw e h
    ]

    verify_keeps : (w : World) → P w → P (verify A server node vm_id slot gib w).1
    verify_keeps w h =
        step_keeps P (verifying slot) (get_qemu_vm_config server node vm_id w)
          (verify_size A server node vm_id slot gib)
          (by_read (config_reply node vm_id (server.get_config w.log)) w h)
          (λ observed hx. check_size_keeps _ _ _ hx)

    resized_keeps :
        (config : GuestConfig) (digest : Text) (w w0 : World)
        → w ≡ record_event (config_read (ok config)) w0
        → lets_grow slot gib digest config ≡ true
        → P (record_event (config_read (ok config)) w0)
        → P (resize_qemu_disk server node vm_id slot gib digest w).1
    unfolding resize_qemu_disk
    resized_keeps config digest w w0 same lets h =
        let reply = server.put_resize slot gib digest w.log in
        resize_reply_keeps reply (record_event (resize_put slot gib digest reply) w) (
          subst (λ x. P (record_event (resize_put slot gib digest reply) x)) (sym same)
            (by_resize digest config reply w0 lets h))

    grow_keeps :
        (config : GuestConfig) (w w0 : World)
        → w ≡ record_event (config_read (ok config)) w0
        → may_grow gib (lookup config.disk slot) ≡ true
        → P (record_event (config_read (ok config)) w0)
        → P (grow A server node vm_id slot gib (at_key config.extra_config (codes "digest")) w).1
    grow_keeps config w w0 same may h =
        let digest = at_key config.extra_config (codes "digest") in
        elim (Bool-cases (is_empty digest)) [
          | inl e ↦ rw e (subst P (sym same) h)
          | inr e ↦ rw e (
              step_keeps P (resizing slot) (resize_qemu_disk server node vm_id slot gib digest w)
                (λ _. verify A server node vm_id slot gib)
                (resized_keeps config digest w w0 same (rw (may, e, text_eq_self digest) refl) h)
                (λ _ hx. verify_keeps (resize_qemu_disk server node vm_id slot gib digest w).1 hx))
        ]

    compare_keeps :
        (config : GuestConfig) (drive : Drive) (r : Result F.Float) (w w0 : World)
        → w ≡ record_event (config_read (ok config)) w0
        → (is_below gib r ≡ true → may_grow gib (lookup config.disk slot) ≡ true)
        → P (record_event (config_read (ok config)) w0)
        → P
            (compare_size A server node vm_id slot drive.size gib
              (at_key config.extra_config (codes "digest"))
              r
              w).1
    compare_keeps config drive (err e) w w0 same may h = subst P (sym same) h
    compare_keeps config drive (ok current) w w0 same may h =
        elim (Bool-cases (A.less (A.of_gib gib) current)) [
          | inl e ↦ rw e (subst P (sym same) h)
          | inr e ↦ elim (Bool-cases (A.same (A.of_gib gib) current)) [
            | inl e' ↦ rw (e, e') (subst P (sym same) h)
            | inr e' ↦ rw (e, e') (grow_keeps config w w0 same (may (rw (e, e') refl)) h)
          ]
        ]

    wire_keeps :
        (config : GuestConfig) (found : Option Text) (w w0 : World)
        → w ≡ record_event (config_read (ok config)) w0
        → lookup config.disk slot ≡ found
        → P (record_event (config_read (ok config)) w0)
        → P
            (resize_wire A server node vm_id slot gib
              (at_key config.extra_config (codes "digest"))
              found
              w).1
    wire_keeps config none w w0 same e h = subst P (sym same) h
    wire_keeps config (some wire) w w0 same e h =
        let drive = read_drive wire in
        elim (Bool-cases (is_resizable drive)) [
          | inl r ↦ rw r (
              compare_keeps config drive (disk_size_bytes A drive.size) w w0 same (λ b. rw (e, r) b)
                h)
          | inr r ↦ rw r (subst P (sym same) h)
        ]

    -- One round of the loop.
    pub resize_slot_keeps : (w : World) → P w → P (resize_slot A server node vm_id slot gib w).1
    unfolding resize_slot
    resize_slot_keeps w h = by_reply (config_reply node vm_id (server.get_config w.log))
      where
        by_reply :
            (reply : Result GuestConfig)
            → P
                (and_then
                  (explain (reading slot) (reply, record_event (config_read reply) w))
                  (resize_read A server node vm_id slot gib)).1
        by_reply (err e) = by_read (err e) w h
        by_reply (ok config) =
            wire_keeps config (lookup config.disk slot) (record_event (config_read (ok config)) w) w
              refl refl (by_read (ok config) w h)

-- The next step, if the first one passed.
pub and_then_step :
    {B C : Type 0} (P : World → Type 0) (r : Result B × World) (next : B → World → Result C × World)
    → P r.1
    → ((b : B) → P r.1 → P (next b r.1).1)
    → P (and_then r next).1
and_then_step P (ok b, w) next h f = f b h
and_then_step P (err e, w) next h f = h

-- A property of worlds that waits, reads of the configuration and resizes keep.
module _ {F : Float64} (A : Arithmetic F) (server : Server) (node : Text) (vm_id : ℤ)
    (P : World → Type 0)
    (by_await : (upid : Text) (r : Result (Unit {0})) (time : ℕ) (w : World)
      → P w
      → P (record w { now = time; log = awaited upid r ∷ w.log }))
    (by_read : (r : Result GuestConfig) (w : World) → P w → P (record_event (config_read r) w))
    (by_resize : (slot : Text) (gib : ℤ) (digest : Text) (reply : Result Text) (w : World)
      → P w
      → P (record_event (resize_put slot gib digest reply) w)) where
  resize_slots_keep :
      (targets : MapOf ℤ) (slots : List Text) (w : World)
      → P w
      → P (resize_slots A server node vm_id targets slots w).1
  unfolding resize_slots
  resize_slots_keep targets [] w h = h
  resize_slots_keep targets (slot ∷ slots) w h =
      and_then_step P (resize_slot A server node vm_id slot (target_at targets slot) w)
        (λ _. resize_slots A server node vm_id targets slots)
        (resize_slot_keeps A server node vm_id slot (target_at targets slot) P by_await by_read
          (λ digest config reply x lets hx.
            by_resize slot (target_at targets slot) digest reply
              (record_event (config_read (ok config)) x) hx)
          w h)
        (λ _ x. resize_slots_keep targets slots _ x)

  pub resize_disks_keeps :
      (disk_resize : Value (MapOf (Value ℤ))) (w : World)
      → P w
      → P (resize_disks A server node vm_id disk_resize w).1
  unfolding resize_disks
  resize_disks_keeps null w h = h
  resize_disks_keeps unknown w h = h
  resize_disks_keeps (known items) w h = by_targets (known_targets items)
    where
      by_targets : (targets : Option (MapOf ℤ)) → P (resize_known A server node vm_id targets w).1
      by_targets none = h
      by_targets (some targets) = resize_slots_keep targets (sorted_strings (keys targets)) w h
