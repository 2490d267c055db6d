-- ===== src/Vm/Identity.antt =====
-- internal/provider/qemu_vm_identity.go: a guest at the tracked VMID is the tracked guest if it has
-- the recorded name, or that of an unconfirmed rename.
use terraform_provider_proxm.Prelude.{Bool, true, false, ◌||◌, List, [], ◌∷◌, if◌then◌else◌}
use terraform_provider_proxm.Text.{Text, text_eq, is_empty}
use terraform_provider_proxm.Value.{Value, string_value}

abbrev pub mem_text : List Text → Text → Bool
mem_text [] name = false
mem_text (n ∷ names) name = text_eq n name || mem_text names name

-- `pending` is the private state's unconfirmed name, empty if there is none.
unfoldable pub owned_names : Value Text → Text → List Text
owned_names name pending =
    if is_empty (string_value name)
    then []
    else string_value name ∷ (if is_empty pending then [] else pending ∷ [])

abbrev no_names : List Text → Bool
no_names [] = true
no_names (_ ∷ _) = false

unfoldable pub owns_guest : List Text → Text → Bool
owns_guest owned live_name = no_names owned || mem_text owned live_name
