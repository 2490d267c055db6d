-- ===== src/Vm/Validate/Resize.antt =====
-- validateQemuVMDiskResize of internal/provider/qemu_vm_resize.go: which disks a configuration may grow.
pub mod Passes
use terraform_provider_proxm.Prelude.{
  ℕ, Bool, true, false, not, ◌&&◌, ◌||◌, ◌==◌, leb, Option, none, some, List, [], ◌∷◌, ◌++◌,
}
use terraform_provider_proxm.Int.{ℤ, pos, negsuc}
use terraform_provider_proxm.Text.{Text, codes, after}
use terraform_provider_proxm.Text.Decimal.{is_digit}
use terraform_provider_proxm.Value.{Value, null, unknown, known}
use terraform_provider_proxm.Config.{Float64}
use terraform_provider_proxm.Client.Error.{quote}
use terraform_provider_proxm.Diagnostic.{Diagnostic, attribute_error, report}
use terraform_provider_proxm.Vm.Slots.{MapOf, find, is_missing}
use terraform_provider_proxm.Vm.Model.{QemuVmModel, Raw, no_raw, expand}
use terraform_provider_proxm.Vm.Validate.{outside}

-- The alternatives of the pattern for the number of a slot.
abbrev one_digit : ℕ → Text → Bool
one_digit top (c ∷ []) = leb b'0' c && leb c top
one_digit top _ = false

abbrev two_digits : ℕ → ℕ → ℕ → Text → Bool
two_digits first last top (c ∷ d ∷ []) = leb first c && leb c last && leb b'0' d && leb d top
two_digits first last top _ = false

abbrev numbered : Text → (Text → Bool) → Text → Bool
numbered family p slot = elim (after family slot) [ none ↦ false | some rest ↦ p rest ]

-- qemuResizeSlot
unfoldable pub is_resize_slot : Text → Bool
unfolding after
is_resize_slot slot =
    numbered (codes "ide") (one_digit b'3') slot
    || numbered (codes "sata") (one_digit b'5') slot
    || numbered (codes "scsi")
        (λ n. one_digit b'9' n || two_digits b'1' b'2' b'9' n || two_digits b'3' b'3' b'0' n) slot
    || numbered (codes "virtio") (λ n. one_digit b'9' n || two_digits b'1' b'1' b'5' n) slot

-- A size that is null, or known and outside the bounds.
abbrev pub is_bad_size : Value ℤ → Bool
is_bad_size null = true
is_bad_size unknown = false
is_bad_size (known n) = outside (pos 1) (pos 1048576) (known n)

module _ {F : Float64} (model : QemuVmModel F) where
  abbrev pub extra : MapOf Text
  extra = expand [] (expand no_raw model.raw).extra_config

  abbrev pub is_entry {ℓ} : {A : Type ℓ} → MapOf A → Text → Bool
  is_entry map slot = not (is_missing (find map slot))

  abbrev pub resize_error : Text → Text → List Diagnostic
  resize_error slot summary =
      attribute_error (codes "disk_resize[" ++ quote slot ++ codes "]") summary

  -- The body of the loop.
  abbrev pub check_entry : Text × Value ℤ → List Diagnostic
  check_entry (slot, size) =
      report (not (is_resize_slot slot)) (resize_error slot (codes "Invalid resize slot"))
      ++ report (is_bad_size size) (resize_error slot (codes "Invalid resize size"))
      ++ report (is_entry (expand [] model.disk) slot)
          (resize_error slot (codes "Conflicting disk configuration"))
      ++ report (is_entry extra slot) (resize_error slot (codes "Conflicting raw disk"))

  abbrev pub check_entries : MapOf (Value ℤ) → List Diagnostic
  check_entries [] = []
  check_entries (entry ∷ entries) = check_entry entry ++ check_entries entries

  unfoldable pub validate_disk_resize : List Diagnostic
  unfolding is_resize_slot
  validate_disk_resize = check_entries (expand [] model.disk_resize)
