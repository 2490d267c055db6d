-- ===== src/Vm/Resize/Converges.antt =====
-- resizeDisks of internal/provider/qemu_vm_resize.go: what it has seen when it succeeds.
use terraform_provider_proxm.Prelude.{
  ◌≡◌, refl, sym, ap, ◌∙◌, subst, Bool, true, false, ◌||◌, Option, none, some, List, [], ◌∷◌, All,
  Bool-cases, inl, inr,
}
use terraform_provider_proxm.Int.{ℤ}
use terraform_provider_proxm.Text.{Text, is_empty}
use terraform_provider_proxm.Text.Sort.{sorted_strings}
use terraform_provider_proxm.Value.{Value, null, unknown, known}
use terraform_provider_proxm.Config.{Float64}
use terraform_provider_proxm.Client.Error.{Result, ok, err, is_ok}
use terraform_provider_proxm.Vm.Slots.{MapOf, find}
use terraform_provider_proxm.Vm.Cdrom.{lookup}
use terraform_provider_proxm.Vm.SeedUpdate.{or_blank, at_key}
use terraform_provider_proxm.Vm.World.{
  GuestConfig, Event, config_read, Log, Server, World, record_event, config_reply, and_then,
  explain, resize_qemu_disk,
}
use terraform_provider_proxm.Vm.Resize.Size.{Arithmetic, disk_size_bytes}
use terraform_provider_proxm.Vm.Resize.{
  read_drive, read_size, is_resizable, compare_size, grow, verify, verify_size, check_size,
  resize_wire, resize_read, known_targets, or_empty, resize_known, targets_of, keys, target_at,
  resize_slot, resize_slots, resize_disks, reading, resizing, verifying,
}
use terraform_provider_proxm.Vm.Resize.Reads.{read_drive-size, sorted_strings-All, keys-find}
use terraform_provider_proxm.Vm.Resize.Rule.{resize_slot_keeps, and_then_step}

module _ {F : Float64} (A : Arithmetic F) where
  abbrev is_size_of : ℤ → Result F.Float → Bool
  is_size_of gib (ok actual) = A.same actual (A.of_gib gib) || A.same (A.of_gib gib) actual
  is_size_of gib (err e) = false

  abbrev shown_by : Text → ℤ → Event → Bool
  shown_by slot gib (config_read (ok config)) =
      is_size_of gib (disk_size_bytes A (read_size (at_key config.disk slot)))
  shown_by slot gib _ = false

  -- Some read of the configuration shows the slot at the size.
  abbrev pub shows_size : Text → ℤ → Log → Bool
  shows_size slot gib [] = false
  shows_size slot gib (e ∷ log) = shown_by slot gib e || shows_size slot gib log

or_right : (a b : Bool) → b ≡ true → (a || b) ≡ true
or_right true b h = refl
or_right false b h = h

ok_step :
    {B C : Type 0} (P : World → Type 0) (message : Text) (r : Result B × World)
    (next : B → World → Result C × World)
    → is_ok (and_then (explain message r) next).0 ≡ true
    → ((b : B) → is_ok (next b r.1).0 ≡ true → P (next b r.1).1)
    → P (and_then (explain message r) next).1
ok_step P message (ok b, w) next h f = f b h
ok_step P message (err e, w) next h f = cc

module _ {F : Float64} (A : Arithmetic F) (server : Server) (node : Text) (vm_id : ℤ) (slot : Text)
    (gib : ℤ) where
  abbrev Shows : World → Type 0
  Shows w = shows_size A slot gib w.log ≡ true

  check_size-Shows :
      (size : Text) (r : Result F.Float) (w : World)
      → is_ok (check_size A server node vm_id slot size gib r w).0 ≡ true
      → is_size_of A gib r ≡ true
  check_size-Shows size (err e) w h = cc
  check_size-Shows size (ok actual) w h = elim (Bool-cases (A.same actual (A.of_gib gib))) [
    | inl e ↦ rw e refl
    | inr e ↦ cc (rw e at h)
  ]

  check_size-world :
      (size : Text) (r : Result F.Float) (w : World)
      → (check_size A server node vm_id slot size gib r w).1 ≡ w
  check_size-world size (err e) w = refl
  check_size-world size (ok actual) w = elim (Bool-cases (A.same actual (A.of_gib gib))) [
    | inl e ↦ rw e refl
    | inr e ↦ rw e refl
  ]

  verify-Shows :
      (w : World)
      → is_ok (verify A server node vm_id slot gib w).0 ≡ true
      → Shows (verify A server node vm_id slot gib w).1
  verify-Shows w = by_reply (config_reply node vm_id (server.get_config w.log))
    where
      by_reply :
          (reply : Result GuestConfig)
          → let rw' =
              and_then
                (explain (verifying slot) (reply, record_event (config_read reply) w))
                (verify_size A server node vm_id slot gib) in
            is_ok rw'.0 ≡ true → Shows rw'.1
      by_reply (err e) h = cc
      by_reply (ok observed) h =
          let size = read_size (at_key observed.disk slot) in
          let r = disk_size_bytes A size in
          let w' = record_event (config_read (ok observed)) w in
          subst Shows (sym (check_size-world size r w')) (rw (check_size-Shows size r w' h) refl)

  grow-Shows :
      (digest : Text) (w : World)
      → is_ok (grow A server node vm_id slot gib digest w).0 ≡ true
      → Shows (grow A server node vm_id slot gib digest w).1
  grow-Shows digest w h = elim (Bool-cases (is_empty digest)) [
    | inl e ↦ cc (rw e at h)
    | inr e ↦ rw e (
        ok_step Shows (resizing slot) (resize_qemu_disk server node vm_id slot gib digest w)
          (λ _. verify A server node vm_id slot gib) (rw e at h) (λ _ x. verify-Shows _ x))
  ]

  compare_size-Shows :
      (size digest : Text) (r : Result F.Float) (w : World)
      → (is_size_of A gib r ≡ true → Shows w)
      → is_ok (compare_size A server node vm_id slot size gib digest r w).0 ≡ true
      → Shows (compare_size A server node vm_id slot size gib digest r w).1
  compare_size-Shows size digest (err e) w s h = cc
  compare_size-Shows size digest (ok current) w s h =
      elim (Bool-cases (A.less (A.of_gib gib) current)) [
        | inl e ↦ cc (rw e at h)
        | inr e ↦ elim (Bool-cases (A.same (A.of_gib gib) current)) [
          | inl e' ↦ rw (e, e') (s (or_right (A.same current (A.of_gib gib)) _ e'))
          | inr e' ↦ rw (e, e') (grow-Shows digest w (rw (e, e') at h))
        ]
      ]

  wire-Shows :
      (config : GuestConfig) (found : Option Text) (digest : Text) (w : World) (log : Log)
      → w.log ≡ config_read (ok config) ∷ log
      → lookup config.disk slot ≡ found
      → is_ok (resize_wire A server node vm_id slot gib digest found w).0 ≡ true
      → Shows (resize_wire A server node vm_id slot gib digest found w).1
  wire-Shows config none digest w log same e h = cc
  wire-Shows config (some wire) digest w log same e h =
      let drive = read_drive wire in
      elim (Bool-cases (is_resizable drive)) [
        | inl r ↦ rw r (
            compare_size-Shows drive.size digest (disk_size_bytes A drive.size) w
              (λ x. rw same (
                subst
                  (λ s.
                    (is_size_of A gib (disk_size_bytes A s) || shows_size A slot gib log) ≡ true)
                  (read_drive-size wire ∙ ap read_size (sym (found e))) (rw x refl)))
              (rw r at h))
        | inr r ↦ cc (rw r at h)
      ]
    where
      found : lookup config.disk slot ≡ some wire → at_key config.disk slot ≡ wire
      found x = ap or_blank x

  resize_slot-Shows :
      (w : World)
      → is_ok (resize_slot A server node vm_id slot gib w).0 ≡ true
      → Shows (resize_slot A server node vm_id slot gib w).1
  unfolding resize_slot
  resize_slot-Shows w = by_reply (config_reply node vm_id (server.get_config w.log))
    where
      by_reply :
          (reply : Result GuestConfig)
          → let rw' =
              and_then
                (explain (reading slot) (reply, record_event (config_read reply) w))
                (resize_read A server node vm_id slot gib) in
            is_ok rw'.0 ≡ true → Shows rw'.1
      by_reply (err e) h = cc
      by_reply (ok config) h =
          wire-Shows config (lookup config.disk slot) _ (record_event (config_read (ok config)) w)
            w.log refl refl h

module _ {F : Float64} (A : Arithmetic F) (server : Server) (node : Text) (vm_id : ℤ)
    (targets : MapOf ℤ) where
  abbrev Shown : Log → Text → Type 0
  Shown log slot = shows_size A slot (target_at targets slot) log ≡ true

  -- Later rounds keep what a read has shown.
  resize_slots-keeps :
      (shown : Text) (slots : List Text) (w : World)
      → Shown w.log shown
      → Shown (resize_slots A server node vm_id targets slots w).1.log shown
  unfolding resize_slots
  resize_slots-keeps shown [] w h = h
  resize_slots-keeps shown (slot ∷ slots) w h =
      and_then_step (λ x. Shown x.log shown)
        (resize_slot A server node vm_id slot (target_at targets slot) w)
        (λ _. resize_slots A server node vm_id targets slots)
        (resize_slot_keeps A server node vm_id slot (target_at targets slot)
          (λ x. Shown x.log shown) (λ upid r time y x. x)
          (λ r y x. or_right (shown_by A shown (target_at targets shown) (config_read r)) _ x)
          (λ digest config reply y lets x. x) w h)
        (λ _ x. resize_slots-keeps shown slots _ x)

  resize_slots-Shown :
      (slots : List Text) (w : World)
      → is_ok (resize_slots A server node vm_id targets slots w).0 ≡ true
      → All (Shown (resize_slots A server node vm_id targets slots w).1.log) slots
  unfolding resize_slots
  resize_slots-Shown [] w h = tt
  resize_slots-Shown (slot ∷ slots) w h =
      after (resize_slot A server node vm_id slot (target_at targets slot) w)
        (resize_slot-Shows A server node vm_id slot (target_at targets slot) w)
        (λ x. resize_slots-Shown slots x) h
    where
      after :
          (r : Result (Unit {0}) × World)
          → (is_ok r.0 ≡ true → Shown r.1.log slot)
          → ((x : World)
              → is_ok (resize_slots A server node vm_id targets slots x).0 ≡ true
              → All (Shown (resize_slots A server node vm_id targets slots x).1.log) slots)
          → let rw' = and_then r (λ _. resize_slots A server node vm_id targets slots) in
            is_ok rw'.0 ≡ true → All (Shown rw'.1.log) (slot ∷ slots)
      after (ok _, x) s rest h = (resize_slots-keeps slot slots x (s refl), rest x h)
      after (err e, x) s rest h = cc

-- When the growing of disks succeeds from an empty log, some read of the configuration has shown every
-- slot with a configured size at exactly that size.
pub resize_disks-shows_size :
    {F : Float64} (A : Arithmetic F) (server : Server) (node : Text) (vm_id : ℤ)
    (disk_resize : Value (MapOf (Value ℤ))) (w : World) (slot : Text) (gib : ℤ)
    → w.log ≡ []
    → find (targets_of disk_resize) slot ≡ some gib
    → is_ok (resize_disks A server node vm_id disk_resize w).0 ≡ true
    → shows_size A slot gib (resize_disks A server node vm_id disk_resize w).1.log ≡ true
unfolding resize_disks
resize_disks-shows_size A server node vm_id null w slot gib start e h = cc
resize_disks-shows_size A server node vm_id unknown w slot gib start e h = cc
resize_disks-shows_size A server node vm_id (known items) w slot gib start e h =
    by_targets (known_targets items) e h
  where
    by_targets :
        (targets : Option (MapOf ℤ))
        → find (or_empty targets) slot ≡ some gib
        → is_ok (resize_known A server node vm_id targets w).0 ≡ true
        → shows_size A slot gib (resize_known A server node vm_id targets w).1.log ≡ true
    by_targets none e h = cc
    by_targets (some targets) e h =
        let slots = sorted_strings (keys targets) in
        let log = (resize_slots A server node vm_id targets slots w).1.log in
        let shown : Shown A server node vm_id targets log slot =
          keys-find (Shown A server node vm_id targets log) targets slot gib e (
            sorted_strings-All (Shown A server node vm_id targets log) (keys targets)
              (resize_slots-Shown A server node vm_id targets slots w h)) in
        subst (λ n. shows_size A slot n log ≡ true) (configured targets e) shown
      where
        configured :
            (targets : MapOf ℤ) → find targets slot ≡ some gib → target_at targets slot ≡ gib
        configured targets x = rw (target_at, x) refl
