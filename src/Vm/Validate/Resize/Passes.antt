-- ===== src/Vm/Validate/Resize/Passes.antt =====
-- What validateQemuVMDiskResize of internal/provider/qemu_vm_resize.go accepts.
use terraform_provider_proxm.Prelude.{
  ◌≡◌, ◌≤◌, ◌↔◌, refl, Bool, true, false, not, Option, none, some, List, [], ◌∷◌, ◌++◌, All, arith,
}
use terraform_provider_proxm.Int.{ℤ, pos, negsuc}
use terraform_provider_proxm.Text.{Text}
use terraform_provider_proxm.Value.{Value, null, unknown, known}
use terraform_provider_proxm.Config.{Float64}
use terraform_provider_proxm.Diagnostic.{Diagnostic, report}
use terraform_provider_proxm.Vm.Slots.{MapOf, find, is_missing}
use terraform_provider_proxm.Vm.Model.{QemuVmModel, expand}
use terraform_provider_proxm.Vm.Validate.Resize.{
  is_resize_slot, is_bad_size, extra, is_entry, check_entry, check_entries, validate_disk_resize,
}

-- A size to be computed, or one from 1 GiB to 1 PiB.
abbrev pub IsSize : Value ℤ → Type 0
IsSize null = ⊥
IsSize unknown = Unit
IsSize (known (pos n)) = (1 ≤ n) × (n ≤ 1048576)
IsSize (known (negsuc n)) = ⊥

-- An entry that may grow a disk: a disk slot with a size, which nothing else of the model configures.
pub record Growable {F : Float64} (model : QemuVmModel F) (entry : Text × Value ℤ) : Type 0 where
  pub slot : is_resize_slot entry.0 ≡ true
  pub size : IsSize entry.1
  pub no_disk : find (expand [] model.disk) entry.0 ≡ none
  pub no_raw : find (extra model) entry.0 ≡ none

IsSize-sound : (size : Value ℤ) → is_bad_size size ≡ false → IsSize size
IsSize-sound null h = cc
IsSize-sound unknown h = tt
IsSize-sound (known (pos n)) h = (ground arith, ground arith)
IsSize-sound (known (negsuc n)) h = cc

IsSize-complete : (size : Value ℤ) → IsSize size → is_bad_size size ≡ false
IsSize-complete null h = absurd h
IsSize-complete unknown h = refl
IsSize-complete (known (pos n)) (a, b) = ground arith
IsSize-complete (known (negsuc n)) h = absurd h

find_free {ℓ} : {A : Type ℓ} (found : Option A) → not (is_missing found) ≡ false → found ≡ none
find_free none h = refl
find_free (some a) h = cc

append_nil {ℓ} : {A : Type ℓ} (xs ys : List A) → xs ++ ys ≡ [] → (xs ≡ []) × (ys ≡ [])
append_nil [] ys h = (refl, h)
append_nil (x ∷ xs) ys h = cc

-- Four tests that report nothing.
reports_nil :
    (a b c d : Bool) (w x y z : Diagnostic)
    → report a (w ∷ []) ++ report b (x ∷ []) ++ report c (y ∷ []) ++ report d (z ∷ []) ≡ []
    → (a ≡ false) × (b ≡ false) × (c ≡ false) × (d ≡ false)
reports_nil true b c d w x y z h = cc
reports_nil false true c d w x y z h = cc
reports_nil false false true d w x y z h = cc
reports_nil false false false true w x y z h = cc
reports_nil false false false false w x y z h = (refl, refl, refl, refl)

true_of : (b : Bool) → not b ≡ false → b ≡ true
true_of true h = refl
true_of false h = cc

module _ {F : Float64} (model : QemuVmModel F) where
  check_entry_sound : (entry : Text × Value ℤ) → check_entry model entry ≡ [] → Growable model entry
  check_entry_sound (slot, size) h =
      let (a, b, c, d) =
        reports_nil (not (is_resize_slot slot)) (is_bad_size size)
          (is_entry model (expand [] model.disk) slot) (is_entry model (extra model) slot) _ _ _ _
          h in
      record {
        slot = true_of (is_resize_slot slot) a;
        size = IsSize-sound size b;
        no_disk = find_free (find (expand [] model.disk) slot) c;
        no_raw = find_free (find (extra model) slot) d;
      }

  check_entry_complete :
      (entry : Text × Value ℤ) → Growable model entry → check_entry model entry ≡ []
  check_entry_complete (slot, size) g =
      rw (g.slot, IsSize-complete size g.size, g.no_disk, g.no_raw) refl

  check_entries_sound :
      (entries : MapOf (Value ℤ)) → check_entries model entries ≡ [] → All (Growable model) entries
  check_entries_sound [] h = tt
  check_entries_sound (entry ∷ entries) h =
      let (a, b) = append_nil (check_entry model entry) (check_entries model entries) h in
      (check_entry_sound entry a, check_entries_sound entries b)

  check_entries_complete :
      (entries : MapOf (Value ℤ)) → All (Growable model) entries → check_entries model entries ≡ []
  check_entries_complete [] h = refl
  check_entries_complete (entry ∷ entries) (g, h) =
      rw (check_entry_complete entry g, check_entries_complete entries h) refl

  -- The disks to grow pass exactly when every entry names an ide, sata, scsi or virtio slot in the range
  -- of its family, with a size that is unknown or from 1 to 1048576 GiB, and neither `disk` nor
  -- `raw.extra_config` configures that slot.
  pub validate_disk_resize-Growable :
      (validate_disk_resize model ≡ []) ↔ All (Growable model) (expand [] model.disk_resize)
  unfolding validate_disk_resize
  validate_disk_resize-Growable = (
    check_entries_sound (expand [] model.disk_resize),
    check_entries_complete (expand [] model.disk_resize),
  )
