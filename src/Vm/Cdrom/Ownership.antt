-- ===== src/Vm/Cdrom/Ownership.antt =====
-- validateQemuVMCDROMOwnership of internal/provider/resource_qemu_vm.go, against its three conditions.
use terraform_provider_proxm.Prelude.{
  ◌≡◌, ◌≢◌, ◌↔◌, refl, Bool, true, false, List, [], ◌∷◌, ◌++◌, All, if◌then◌else◌,
}
use terraform_provider_proxm.Int.{ℤ}
use terraform_provider_proxm.Text.{Text}
use terraform_provider_proxm.Client.Error.{Error, Result, ok, err, is_ok}
use terraform_provider_proxm.Vm.Cdrom.{
  Slots, lookup, may_attach, is_extra_planned, is_extra_inherited, check_attachments, slots_where,
  extra_seeds, reject_extra, then_reject, validate_cdrom_ownership,
}

-- Every planned slot may be attached over what the guest holds there; the only planned volume is the
-- marked one; every CD-ROM of the guest in another slot is without a volume.
pub record KeepsMedia (vm_id : ℤ) (planned inherited : Slots) (marker : Text) : Type 0 where
  pub attached : All (λ p. may_attach vm_id p.1 (lookup inherited p.0) ≡ true) planned
  pub single : All (λ p. is_extra_planned marker p ≡ false) planned
  pub alone : All (λ p. is_extra_inherited planned p ≡ false) inherited

check_attachments_sound :
    (vm_id : ℤ) (inherited planned : Slots)
    → is_ok (check_attachments vm_id inherited planned) ≡ true
    → All (λ p. may_attach vm_id p.1 (lookup inherited p.0) ≡ true) planned
unfolding check_attachments
check_attachments_sound vm_id inherited [] h = tt
check_attachments_sound vm_id inherited ((slot, volume) ∷ planned) h =
    step (may_attach vm_id volume (lookup inherited slot)) _ _ h
      (check_attachments_sound vm_id inherited planned)
  where
    step :
        (b : Bool) (rest : Result (Unit {0})) (e : Error) {P : Type 0}
        → is_ok (if b then rest else err e) ≡ true
        → (is_ok rest ≡ true → P)
        → (b ≡ true) × P
    step true rest e x k = (refl, k x)
    step false rest e x k = cc

check_attachments_complete :
    (vm_id : ℤ) (inherited planned : Slots)
    → All (λ p. may_attach vm_id p.1 (lookup inherited p.0) ≡ true) planned
    → check_attachments vm_id inherited planned ≡ ok tt
unfolding check_attachments
check_attachments_complete vm_id inherited [] h = refl
check_attachments_complete vm_id inherited ((slot, volume) ∷ planned) (h, hs) =
    rw h (check_attachments_complete vm_id inherited planned hs)

slots_where-nil :
    (p : Text × Text → Bool) (slots : Slots)
    → slots_where p slots ≡ []
    → All (λ s. p s ≡ false) slots
slots_where-nil p [] h = tt
slots_where-nil p ((slot, value) ∷ slots) h = step (p (slot, value)) _ h (slots_where-nil p slots)
  where
    step :
        (b : Bool) (rest : List Text) {P : Type 0}
        → (if b then slot ∷ rest else rest) ≡ []
        → (rest ≡ [] → P)
        → (b ≡ false) × P
    step true rest x k = cc
    step false rest x k = (refl, k x)

slots_where-none :
    (p : Text × Text → Bool) (slots : Slots)
    → All (λ s. p s ≡ false) slots
    → slots_where p slots ≡ []
slots_where-none p [] h = refl
slots_where-none p ((slot, value) ∷ slots) (h, hs) = rw h (slots_where-none p slots hs)

append_nil_parts : (a b : List Text) → a ++ b ≡ [] → (a ≡ []) × (b ≡ [])
append_nil_parts [] b h = (refl, h)
append_nil_parts (x ∷ a) b h = cc

accepted_parts :
    (r : Result (Unit {0})) (marker : Text) (extra : List Text)
    → is_ok (then_reject r (reject_extra marker extra)) ≡ true
    → (is_ok r ≡ true) × (extra ≡ [])
accepted_parts (ok _) marker [] h = (refl, refl)
accepted_parts (ok _) marker (s ∷ extra) h = cc
accepted_parts (err e) marker extra h = cc

-- With a marked slot, the ownership check passes exactly when every planned slot is unused in the
-- guest or holds the same volume, an empty bay or the cloud-init drive that Proxmox generated for this
-- very guest; when no other planned slot has a volume; and when no CD-ROM of the guest outside the
-- planned slots has one.
pub validate_cdrom_ownership-KeepsMedia :
    (vm_id : ℤ) (planned inherited : Slots) (marker : Text)
    → marker ≢ []
    → (is_ok (validate_cdrom_ownership vm_id planned inherited marker) ≡ true)
      ↔ KeepsMedia vm_id planned inherited marker
unfolding validate_cdrom_ownership extra_seeds
validate_cdrom_ownership-KeepsMedia vm_id planned inherited [] ne = absurd (ne refl)
validate_cdrom_ownership-KeepsMedia vm_id planned inherited (c ∷ marker) ne = (sound, complete)
  where
    sound :
        is_ok (validate_cdrom_ownership vm_id planned inherited (c ∷ marker)) ≡ true
        → KeepsMedia vm_id planned inherited (c ∷ marker)
    sound h =
        let (passed, extra) =
          accepted_parts (check_attachments vm_id inherited planned) (c ∷ marker)
            (extra_seeds planned inherited (c ∷ marker)) h in
        let (mine, theirs) =
          append_nil_parts (slots_where (is_extra_planned (c ∷ marker)) planned)
            (slots_where (is_extra_inherited planned) inherited) extra in
        record {
          attached = check_attachments_sound vm_id inherited planned passed;
          single = slots_where-nil (is_extra_planned (c ∷ marker)) planned mine;
          alone = slots_where-nil (is_extra_inherited planned) inherited theirs;
        }

    complete :
        KeepsMedia vm_id planned inherited (c ∷ marker)
        → is_ok (validate_cdrom_ownership vm_id planned inherited (c ∷ marker)) ≡ true
    complete k =
        rw
          (
            check_attachments_complete vm_id inherited planned k.attached,
            slots_where-none (is_extra_planned (c ∷ marker)) planned k.single,
            slots_where-none (is_extra_inherited planned) inherited k.alone,
          )
          refl
