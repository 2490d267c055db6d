-- ===== src/Vm/SeedUpdate/Proven.antt =====
-- authorizeQemuSeedUpdate of internal/provider/qemu_vm_seed_update.go, followed by the ownership check.
use terraform_provider_proxm.Prelude.{
  ◌≡◌, ◌≢◌, ◌⊎◌, inl, inr, refl, sym, ap, subst, ◌∙◌, Bool, true, false, not, ◌&&◌, ◌||◌, some, [],
  ◌∷◌, ◌++◌, All, Bool-cases, if◌then◌else◌,
}
use terraform_provider_proxm.Int.{ℤ, pos, eqz, eqz→eq}
use terraform_provider_proxm.Text.{Text, codes, text_eq, is_empty}
use terraform_provider_proxm.Text.Equal.{text_eq→eq}
use terraform_provider_proxm.Value.{string_value, value_or}
use terraform_provider_proxm.Config.{Float64}
use terraform_provider_proxm.Client.Error.{Error, Result, ok, err, is_ok}
use terraform_provider_proxm.Vm.Slots.{put, drop_key}
use terraform_provider_proxm.Vm.Cdrom.{
  Slots, lookup, may_attach, is_extra_inherited, is_extra_planned, wire_disk_volume,
  validate_cdrom_ownership,
}
use terraform_provider_proxm.Vm.Cdrom.Ownership.{KeepsMedia, validate_cdrom_ownership-KeepsMedia}
use terraform_provider_proxm.Vm.Model.{QemuVmModel, nocloud_slot_value}
use terraform_provider_proxm.Vm.SeedUpdate.{
  SeedAttachment, at_key, is_same_slot, blocks_exchange, is_owned, is_explicit, holds_iso, swap_iso,
  exchange, authorize_seed_update, unproven,
}

lookup-drop_key :
    (slot name : Text) (disk : Slots)
    → text_eq slot name ≡ false
    → lookup (drop_key slot disk) name ≡ lookup disk name
lookup-drop_key slot name [] h = refl
lookup-drop_key slot name ((s, v) ∷ disk) h = elim (Bool-cases (text_eq s slot)) [
  | inl same ↦
      rw (same, ap (λ x. text_eq x name) (text_eq→eq s slot same) ∙ h)
        (lookup-drop_key slot name disk h)
  | inr other ↦ rw other (keep (text_eq s name) (lookup-drop_key slot name disk h))
]
  where
    keep :
        (b : Bool)
        → lookup (drop_key slot disk) name ≡ lookup disk name
        → (if b then some v else lookup (drop_key slot disk) name)
          ≡ (if b then some v else lookup disk name)
    keep true e = refl
    keep false e = e

lookup-put :
    (slot name value : Text) (disk : Slots)
    → text_eq slot name ≡ false
    → lookup (put slot value disk) name ≡ lookup disk name
lookup-put slot name value disk h = rw h (lookup-drop_key slot name disk h)

-- What holds of all other entries and of those at the slot holds of all.
drop_key-All :
    (P : Text × Text → Type 0) (slot : Text) (disk : Slots)
    → ((value : Text) → P (slot, value))
    → All P (drop_key slot disk)
    → All P disk
drop_key-All P slot [] mine h = tt
drop_key-All P slot ((s, v) ∷ disk) mine h = elim (Bool-cases (text_eq s slot)) [
  | inl same ↦ (
    subst (λ x. P (x, v)) (sym (text_eq→eq s slot same)) (mine v),
    drop_key-All P slot disk mine (rw same at h),
  )
  | inr other ↦ let (here, rest) = rw other at h in (here, drop_key-All P slot disk mine rest)
]

All-map :
    {P Q : Text × Text → Type 0} (xs : Slots)
    → ((x : Text × Text) → P x → Q x)
    → All P xs
    → All Q xs
All-map [] f h = tt
All-map (x ∷ xs) f (px, hx) = (f x px, All-map xs f hx)

-- Why a seed may be exchanged: the history records it for this very slot of this guest, as attached or
-- as pending, or the configuration names it.
pub record IsOwned {F : Float64} (model : QemuVmModel F) (slot volume : Text)
    (history : SeedAttachment) : Type 0 where
  pub node : history.node ≡ string_value model.node
  pub vm_id : history.vm_id ≡ value_or (pos 0) model.vm_id
  pub slot_same : history.slot ≡ slot
  pub recorded : (volume ≡ history.volume) ⊎ (volume ≡ history.pending)

abbrev pub IsProven : {F : Float64} → QemuVmModel F → Text → Text → SeedAttachment → Type 0
IsProven model slot volume history =
    IsOwned model slot volume history
    ⊎ ((volume ≢ []) × (string_value model.nocloud_update_from ≡ volume))

and_parts : (a b : Bool) → (a && b) ≡ true → (a ≡ true) × (b ≡ true)
and_parts true b h = (refl, h)
and_parts false b h = cc

or_parts : (a b : Bool) → (a || b) ≡ true → (a ≡ true) ⊎ (b ≡ true)
or_parts true b h = inl refl
or_parts false b h = inr h

module _ {F : Float64} (model : QemuVmModel F) (history : SeedAttachment) where
  is_owned-IsOwned :
      (slot volume : Text)
      → is_owned model slot volume history ≡ true
      → IsOwned model slot volume history
  is_owned-IsOwned slot volume h =
      let (same, recorded) = and_parts (is_same_slot model slot history) _ h in
      let (node, rest) = and_parts (text_eq history.node (string_value model.node)) _ same in
      let (vm_id, here) = and_parts (eqz history.vm_id (value_or (pos 0) model.vm_id)) _ rest in
      record {
        node = text_eq→eq history.node _ node;
        vm_id = eqz→eq history.vm_id _ vm_id;
        slot_same = text_eq→eq history.slot slot here;
        recorded = elim (or_parts (text_eq volume history.volume) _ recorded) [
          | inl a ↦ inl (text_eq→eq volume history.volume a)
          | inr b ↦ inr (text_eq→eq volume history.pending b)
        ];
      }

  is_explicit-names :
      (volume : Text)
      → is_explicit model volume ≡ true
      → (volume ≢ []) × (string_value model.nocloud_update_from ≡ volume)
  is_explicit-names volume h =
      let (full, same) = and_parts (not (is_empty (string_value model.nocloud_update_from))) _ h in
      let e = text_eq→eq (string_value model.nocloud_update_from) volume same in
      (nonempty volume (subst (λ x. not (is_empty x) ≡ true) e full), e)
    where
      nonempty : (s : Text) → not (is_empty s) ≡ true → s ≢ []
      nonempty [] x = cc
      nonempty (c ∷ s) x = λ e. cc

  -- What an authorization shows of the disks that it returns.
  data Authorized (slot : Text) (disk : Slots) : Slots → Type 0 where
    unchanged : Authorized slot disk disk
    swapped :
        (value : Text)
        → IsProven model slot (wire_disk_volume (at_key disk slot)) history
        → Authorized slot disk (put slot value disk)

  abbrev Authorizes : Text → Slots → Result (Slots × Bool) → Type 0
  Authorizes slot disk (ok (inherited, swap)) = Authorized slot disk inherited
  Authorizes slot disk (err e) = Unit

  swap_iso-Authorizes :
      (slot target : Text) (disk : Slots)
      → Authorizes slot disk
          (swap_iso model slot target (wire_disk_volume (at_key disk slot)) disk history)
  swap_iso-Authorizes slot target disk =
      let volume = wire_disk_volume (at_key disk slot) in
      by_grant (is_owned model slot volume history) (is_explicit model volume)
        (λ e. inl (is_owned-IsOwned slot volume e)) (λ e. inr (is_explicit-names volume e))
    where
      by_grant :
          (a b : Bool)
          → (a ≡ true → IsProven model slot (wire_disk_volume (at_key disk slot)) history)
          → (b ≡ true → IsProven model slot (wire_disk_volume (at_key disk slot)) history)
          → Authorizes slot disk (
              if a || b
              then ok (put slot (target ++ codes ",media=cdrom") disk, true)
              else err (unproven slot (wire_disk_volume (at_key disk slot))))
      by_grant true b f g = swapped _ (f refl)
      by_grant false true f g = swapped _ (g refl)
      by_grant false false f g = tt

  exchange-Authorizes :
      (slot target : Text) (disk : Slots)
      → Authorizes slot disk (exchange model slot target (at_key disk slot) disk history)
  exchange-Authorizes slot target disk =
      by_medium (text_eq target (wire_disk_volume (at_key disk slot)))
        (holds_iso (at_key disk slot)) _ (swap_iso-Authorizes slot target disk)
    where
      by_medium :
          (same iso : Bool) (r : Result (Slots × Bool))
          → Authorizes slot disk r
          → Authorizes slot disk
              (if same then ok (disk, false) else if not iso then ok (disk, true) else r)
      by_medium true iso r h = unchanged
      by_medium false true r h = h
      by_medium false false r h = unchanged

  authorize_seed_update-Authorizes :
      (planned disk : Slots)
      → Authorizes
          (nocloud_slot_value model)
          disk
          (authorize_seed_update model planned disk history)
  unfolding authorize_seed_update
  authorize_seed_update-Authorizes planned disk =
      unblocked
        (blocks_exchange model (nocloud_slot_value model)
          (at_key planned (nocloud_slot_value model)) history)
        _ _ (exchange-Authorizes (nocloud_slot_value model) _ disk)
    where
      unblocked :
          (b : Bool) (e : Error) (r : Result (Slots × Bool))
          → Authorizes (nocloud_slot_value model) disk r
          → Authorizes (nocloud_slot_value model) disk (if b then err e else r)
      unblocked true e r h = tt
      unblocked false e r h = h

-- What an update that is authorized and passes the ownership check finds in the current guest: a
-- planned slot may be attached over what is there, or is the marked slot with a proven seed; the only
-- planned volume is the marked one; no CD-ROM outside the planned slots has a volume.
pub record KeepsProven {F : Float64} (model : QemuVmModel F) (history : SeedAttachment) (vm_id : ℤ)
    (planned disk : Slots) : Type 0 where
  pub attached :
      All
        (λ p.
          (may_attach vm_id p.1 (lookup disk p.0) ≡ true)
          ⊎ ((nocloud_slot_value model ≡ p.0)
              × IsProven model
                  (nocloud_slot_value model)
                  (wire_disk_volume (at_key disk (nocloud_slot_value model)))
                  history))
        planned
  pub single : All (λ p. is_extra_planned (nocloud_slot_value model) p ≡ false) planned
  pub alone : All (λ p. is_extra_inherited planned p ≡ false) disk

keeps_proven :
    {F : Float64} (model : QemuVmModel F) (history : SeedAttachment) (vm_id : ℤ)
    (planned disk inherited : Slots) (target : Text)
    → lookup planned (nocloud_slot_value model) ≡ some target
    → Authorized model history (nocloud_slot_value model) disk inherited
    → KeepsMedia vm_id planned inherited (nocloud_slot_value model)
    → KeepsProven model history vm_id planned disk
keeps_proven model history vm_id planned disk _ target e unchanged k = record {
  attached = All-map planned (λ p h. inl h) k.attached;
  single = k.single;
  alone = k.alone;
}
keeps_proven model history vm_id planned disk _ target e (swapped value proven) k = record {
  attached =
      All-map planned
        (λ p h. elim (Bool-cases (text_eq (nocloud_slot_value model) p.0)) [
          | inl same ↦ inr (text_eq→eq _ p.0 same, proven)
          | inr other ↦ inl (
              subst (λ x. may_attach vm_id p.1 x ≡ true)
                (lookup-put (nocloud_slot_value model) p.0 value disk other) h)
        ])
        k.attached;
  single = k.single;
  alone =
      drop_key-All (λ p. is_extra_inherited planned p ≡ false) (nocloud_slot_value model) disk
        (λ v. rw e refl) k.alone.1;
}

-- When an update of a guest with a marked slot, which is planned, is authorized and passes the
-- ownership check on what the authorization returns, then in the current configuration every planned
-- slot is unused, holds the planned volume, an empty bay or the guest's own cloud-init drive, or is the
-- marked slot with a seed that the history of this very slot or the configuration names; no other
-- planned slot has a volume, and no CD-ROM outside the planned slots has one.
pub authorize_seed_update-KeepsProven :
    {F : Float64} (model : QemuVmModel F) (history : SeedAttachment) (vm_id : ℤ)
    (planned disk inherited : Slots) (swap : Bool) (target : Text)
    → nocloud_slot_value model ≢ []
    → lookup planned (nocloud_slot_value model) ≡ some target
    → authorize_seed_update model planned disk history ≡ ok (inherited, swap)
    → is_ok (validate_cdrom_ownership vm_id planned inherited (nocloud_slot_value model)) ≡ true
    → KeepsProven model history vm_id planned disk
authorize_seed_update-KeepsProven model history vm_id planned disk inherited swap target marked e a
      v =
    keeps_proven model history vm_id planned disk inherited target e
      (subst (Authorizes model history (nocloud_slot_value model) disk) a
        (authorize_seed_update-Authorizes model history planned disk))
      ((validate_cdrom_ownership-KeepsMedia vm_id planned inherited (nocloud_slot_value model)
          marked).0
        v)
