-- ===== src/Vm/Request.antt =====
-- internal/provider/client_qemu.go: the form of a create or update of a guest's configuration.
pub mod Empty
pub mod Name
use terraform_provider_proxm.Prelude.{
  ℕ, Bool, true, false, ◌&&◌, Option, none, some, List, [], ◌∷◌, ◌++◌, if◌then◌else◌,
}
use terraform_provider_proxm.Int.{ℤ}
use terraform_provider_proxm.Text.{Text, codes, text_eq, join}
use terraform_provider_proxm.Text.Sort.{sorted_strings}
use terraform_provider_proxm.Text.Decimal.{format_int}
use terraform_provider_proxm.Config.{Float64, bool_to_form_value}

-- A Go map from names to wire values; the keys are distinct.
abbrev pub Slots : Type 0
Slots = List (Text × Text)

-- url.Values, of which the code sets each key to a single value
abbrev pub Form : Type 0
Form = Text → Option Text

abbrev pub empty_form : Form
empty_form key = none

abbrev pub set_value : Form → Text → Text → Form
set_value form name value key = if text_eq name key then some value else form key

abbrev pub is_none {ℓ} : {A : Type ℓ} → Option A → Bool
is_none none = true
is_none (some _) = false

abbrev pub no_entries {ℓ} : {A : Type ℓ} → List A → Bool
no_entries [] = true
no_entries (_ ∷ _) = false

abbrev pub set_option {ℓ} : {A : Type ℓ} → (A → Text) → Form → Text → Option A → Form
set_option show form name none = form
set_option show form name (some a) = set_value form name (show a)

unfoldable pub set_optional_string : Form → Text → Option Text → Form
set_optional_string = set_option (λ s. s)

unfoldable pub set_optional_bool : Form → Text → Option Bool → Form
set_optional_bool = set_option bool_to_form_value

unfoldable pub set_optional_int64 : Form → Text → Option ℤ → Form
unfolding format_int
set_optional_int64 = set_option format_int

-- The keys are set in some order; they are distinct, so that the order does not matter.
unfoldable pub set_sorted_string_map : Form → Slots → Form
set_sorted_string_map form [] = form
set_sorted_string_map form ((name, value) ∷ slots) =
    set_value (set_sorted_string_map form slots) name value

-- The keys to remove.
unfoldable pub set_delete : Form → List Text → Form
unfolding join sorted_strings
set_delete form [] = form
set_delete form (name ∷ names) =
    set_value form (codes "delete") (join (sorted_strings (name ∷ names)) b',')

module _ (F : Float64) where
  unfoldable pub set_optional_float64 : Form → Text → Option F.Float → Form
  set_optional_float64 = set_option F.format_float

  pub record QemuVmConfigRequest : Type 0 where
    pub name : Option Text
    pub description : Option Text
    pub tags : Option Text
    pub pool : Option Text
    pub on_boot : Option Bool
    pub protection : Option Bool
    pub scsi_hw : Option Text
    pub tablet : Option Bool
    pub startup : Option Text
    pub bios : Option Text
    pub machine : Option Text
    pub agent : Option Text
    pub cores : Option ℤ
    pub sockets : Option ℤ
    pub memory : Option ℤ
    pub numa : Option Bool
    pub vcpus : Option ℤ
    pub cpu_units : Option ℤ
    pub cpu_limit : Option F.Float
    pub balloon : Option ℤ
    pub shares : Option ℤ
    pub hugepages : Option Text
    pub cpu : Option Text
    pub os_type : Option Text
    pub boot : Option Text
    pub hotplug : Option Text
    pub ci_custom : Option Text
    pub ci_password : Option Text
    pub ci_type : Option Text
    pub ci_upgrade : Option Bool
    pub ci_user : Option Text
    pub ssh_keys : Option Text
    pub ip_config : Slots
    pub network : Slots
    pub disk : Slots
    pub serial : Slots
    pub host_pci : Slots
    pub usb : Slots
    pub rng : Slots
    pub virtiofs : Slots
    pub delete : List Text
    pub extra_config : Slots

  -- UpdateQemuVMRequest.IsEmpty
  unfoldable pub request_is_empty : QemuVmConfigRequest → Bool
  request_is_empty r =
      is_none r.name
      && is_none r.description
      && is_none r.tags
      && is_none r.pool
      && is_none r.on_boot
      && is_none r.protection
      && is_none r.scsi_hw
      && is_none r.tablet
      && is_none r.startup
      && is_none r.bios
      && is_none r.machine
      && is_none r.agent
      && is_none r.cores
      && is_none r.sockets
      && is_none r.memory
      && is_none r.numa
      && is_none r.vcpus
      && is_none r.cpu_units
      && is_none r.cpu_limit
      && is_none r.balloon
      && is_none r.shares
      && is_none r.hugepages
      && is_none r.cpu
      && is_none r.os_type
      && is_none r.boot
      && is_none r.hotplug
      && is_none r.ci_custom
      && is_none r.ci_password
      && is_none r.ci_type
      && is_none r.ci_upgrade
      && is_none r.ci_user
      && is_none r.ssh_keys
      && no_entries r.ip_config
      && no_entries r.network
      && no_entries r.disk
      && no_entries r.serial
      && no_entries r.extra_config

  -- The statements of encodeQemuVMFields.
  pub data Statement : Type 0 where
    optional_string : Text → Option Text → Statement
    optional_bool : Text → Option Bool → Statement
    optional_int64 : Text → Option ℤ → Statement
    optional_float64 : Text → Option F.Float → Statement
    sorted_string_map : Slots → Statement

  abbrev pub run : List Statement → Form → Form
  run [] form = form
  run (optional_string name value ∷ rest) form = run rest (set_optional_string form name value)
  run (optional_bool name value ∷ rest) form = run rest (set_optional_bool form name value)
  run (optional_int64 name value ∷ rest) form = run rest (set_optional_int64 form name value)
  run (optional_float64 name value ∷ rest) form = run rest (set_optional_float64 form name value)
  run (sorted_string_map slots ∷ rest) form = run rest (set_sorted_string_map form slots)

  -- The statements before those of the devices.
  abbrev pub field_statements : QemuVmConfigRequest → List Statement
  field_statements r =
      optional_string (codes "name") r.name
      ∷ optional_string (codes "description") r.description
      ∷ optional_string (codes "tags") r.tags
      ∷ optional_string (codes "pool") r.pool
      ∷ optional_bool (codes "onboot") r.on_boot
      ∷ optional_bool (codes "protection") r.protection
      ∷ optional_string (codes "scsihw") r.scsi_hw
      ∷ optional_bool (codes "tablet") r.tablet
      ∷ optional_string (codes "startup") r.startup
      ∷ optional_string (codes "bios") r.bios
      ∷ optional_string (codes "machine") r.machine
      ∷ optional_string (codes "agent") r.agent
      ∷ optional_int64 (codes "cores") r.cores
      ∷ optional_int64 (codes "sockets") r.sockets
      ∷ optional_int64 (codes "memory") r.memory
      ∷ optional_bool (codes "numa") r.numa
      ∷ optional_int64 (codes "vcpus") r.vcpus
      ∷ optional_int64 (codes "cpuunits") r.cpu_units
      ∷ optional_float64 (codes "cpulimit") r.cpu_limit
      ∷ optional_int64 (codes "balloon") r.balloon
      ∷ optional_int64 (codes "shares") r.shares
      ∷ optional_string (codes "hugepages") r.hugepages
      ∷ optional_string (codes "cpu") r.cpu
      ∷ optional_string (codes "ostype") r.os_type
      ∷ optional_string (codes "boot") r.boot
      ∷ optional_string (codes "hotplug") r.hotplug
      ∷ optional_string (codes "cicustom") r.ci_custom
      ∷ optional_string (codes "cipassword") r.ci_password
      ∷ optional_string (codes "citype") r.ci_type
      ∷ optional_bool (codes "ciupgrade") r.ci_upgrade
      ∷ optional_string (codes "ciuser") r.ci_user
      ∷ optional_string (codes "sshkeys") r.ssh_keys
      ∷ sorted_string_map r.ip_config
      ∷ sorted_string_map r.network
      ∷ sorted_string_map r.disk
      ∷ sorted_string_map r.serial
      ∷ []

  abbrev pub device_statements : QemuVmConfigRequest → List Statement
  device_statements r =
      sorted_string_map r.host_pci
      ∷ sorted_string_map r.usb
      ∷ sorted_string_map r.rng
      ∷ sorted_string_map r.virtiofs
      ∷ []

  unfoldable pub encode_qemu_vm_fields : QemuVmConfigRequest → Form → Form
  unfolding set_delete set_sorted_string_map set_optional_string set_optional_bool
      set_optional_int64 set_optional_float64
  encode_qemu_vm_fields r form =
      set_sorted_string_map
        (set_delete (run (device_statements r) (run (field_statements r) form)) r.delete)
        r.extra_config
