-- ===== src/Vm/Import.antt =====
-- internal/provider/qemu_vm_mapping.go: qemuVMID and parseQemuVMImportID.
pub mod RoundTrip
use terraform_provider_proxm.Prelude.{
  Bool, ◌||◌, Option, none, some, List, [], ◌∷◌, ◌++◌, if◌then◌else◌,
}
use terraform_provider_proxm.Int.{ℤ}
use terraform_provider_proxm.Text.{Text, codes, is_empty, trim_space, split}
use terraform_provider_proxm.Text.Decimal.{format_int, parse_int}
use terraform_provider_proxm.Client.Error.{Error, failure, wrapped, Result, ok, err, quote}

unfoldable pub qemu_vm_id : Text → ℤ → Text
unfolding format_int
qemu_vm_id node vm_id = node ++ (b'/' ∷ format_int vm_id)

abbrev bad_form : Result (Text × ℤ)
bad_form = err (failure (codes "expected import identifier in node/vmid form"))

-- The error of strconv.ParseInt itself is not modelled further.
abbrev read_vm_id : Text → Text → Option ℤ → Result (Text × ℤ)
read_vm_id node digits none =
    err (wrapped (codes "invalid vmid " ++ quote digits) (failure (codes "strconv.ParseInt")))
read_vm_id node digits (some vm_id) = ok (node, vm_id)

abbrev pub import_parts : List Text → Result (Text × ℤ)
import_parts (node ∷ digits ∷ []) =
    if is_empty (trim_space node) || is_empty (trim_space digits)
    then bad_form
    else read_vm_id (trim_space node) (trim_space digits) (parse_int (trim_space digits))
import_parts _ = bad_form

unfoldable pub parse_import_id : Text → Result (Text × ℤ)
unfolding split trim_space parse_int
parse_import_id id = import_parts (split id b'/')
