-- ===== src/Vm/Import/RoundTrip.antt =====
-- parseQemuVMImportID after qemuVMID (internal/provider/qemu_vm_mapping.go).
use terraform_provider_proxm.Prelude.{◌≡◌, ◌≢◌, refl, ap, ◌∙◌, false, [], ◌∷◌}
use terraform_provider_proxm.Int.{ℤ, IsInt64}
use terraform_provider_proxm.Text.{Text, is_empty, IsTrimmed, Lacks}
use terraform_provider_proxm.Text.Trim.{trim_space_self}
use terraform_provider_proxm.Text.Split.{split-append, split-Lacks}
use terraform_provider_proxm.Text.Decimal.{
  format_int, parse_int-format_int, format_int-IsTrimmed, format_int-ne-nil, format_int-Lacks-slash,
}
use terraform_provider_proxm.Client.Error.{ok}
use terraform_provider_proxm.Vm.Import.{qemu_vm_id, import_parts, parse_import_id}

is_empty-ne-nil : (s : Text) → s ≢ [] → is_empty s ≡ false
is_empty-ne-nil [] h = absurd (h refl)
is_empty-ne-nil (c ∷ s) h = refl

import_parts-pair :
    (node : Text) (vm_id : ℤ)
    → node ≢ []
    → IsTrimmed node
    → IsInt64 vm_id
    → import_parts (node ∷ format_int vm_id ∷ []) ≡ ok (node, vm_id)
import_parts-pair node vm_id ne trimmed fits =
    rw
      (
        trim_space_self node trimmed,
        trim_space_self (format_int vm_id) (format_int-IsTrimmed vm_id),
        is_empty-ne-nil node ne,
        is_empty-ne-nil (format_int vm_id) (format_int-ne-nil vm_id),
        parse_int-format_int vm_id fits,
      )
      refl

-- The identifier of a guest is read back by an import as its node and VMID, if the node's name is not
-- empty, has no slash and no space at its ends, and the VMID fits int64.
pub parse_import_id-qemu_vm_id :
    (node : Text) (vm_id : ℤ)
    → node ≢ []
    → IsTrimmed node
    → Lacks b'/' node
    → IsInt64 vm_id
    → parse_import_id (qemu_vm_id node vm_id) ≡ ok (node, vm_id)
unfolding parse_import_id qemu_vm_id
parse_import_id-qemu_vm_id node vm_id ne trimmed free fits =
    ap import_parts (
      split-append node (format_int vm_id) b'/' free
      ∙ ap (λ r. node ∷ r) (split-Lacks (format_int vm_id) b'/' (format_int-Lacks-slash vm_id)))
    ∙ import_parts-pair node vm_id ne trimmed fits
