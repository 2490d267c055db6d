-- ===== src/Device/Pattern.antt =====
-- internal/provider/qemu_vm_devices.go: the regular expressions that slots and device fields must match.
pub mod Safe
use terraform_provider_proxm.Prelude.{
  ℕ, zero, suc, ◌+◌, Bool, true, false, ◌&&◌, ◌||◌, not, Option, none, some, List, [], ◌∷◌, ◌==◌,
  leb, if◌then◌else◌, ◌>>=◌,
}
use terraform_provider_proxm.Text.{Text, codes, text_eq, is_empty, split, cut, after}
use terraform_provider_proxm.Text.Decimal.{is_digit}

abbrev pub all_of : (ℕ → Bool) → Text → Bool
all_of p [] = true
all_of p (c ∷ s) = p c && all_of p s

-- p+
abbrev pub some_of : (ℕ → Bool) → Text → Bool
some_of p [] = false
some_of p (c ∷ s) = p c && all_of p s

abbrev pub all_parts : (Text → Bool) → List Text → Bool
all_parts p [] = true
all_parts p (s ∷ ss) = p s && all_parts p ss

abbrev pub is_hex : ℕ → Bool
is_hex c = is_digit c || (leb b'a' c && leb c b'f') || (leb b'A' c && leb c b'F')

abbrev pub is_letter : ℕ → Bool
is_letter c = (leb b'a' c && leb c b'z') || (leb b'A' c && leb c b'Z')

-- p{n}, with what follows it
abbrev pub exactly : (ℕ → Bool) → ℕ → Text → Option Text
exactly p zero s = some s
exactly p (suc n) [] = none
exactly p (suc n) (c ∷ s) = let rest = exactly p n s in if p c then rest else none

abbrev pub literal : ℕ → Text → Option Text
literal c [] = none
literal c (d ∷ s) = if d == c then some s else none

-- $
abbrev pub at_end : Option Text → Bool
at_end none = false
at_end (some s) = is_empty s

-- (1[0-k]|[0-9])
abbrev numbered_below_20 : ℕ → Text → Bool
numbered_below_20 k (c ∷ []) = is_digit c
numbered_below_20 k (c ∷ d ∷ []) = (c == b'1') && leb b'0' d && leb d k
numbered_below_20 k _ = false

abbrev is_one_digit : Text → Bool
is_one_digit (c ∷ []) = is_digit c
is_one_digit _ = false

abbrev after_prefix : (Text → Bool) → Option Text → Bool
after_prefix p none = false
after_prefix p (some rest) = p rest

-- qemuVMHostPciSlot
unfoldable pub is_host_pci_key : Text → Bool
unfolding after
is_host_pci_key key = after_prefix (numbered_below_20 b'5') (after (codes "hostpci") key)

-- qemuVMUSBSlot
unfoldable pub is_usb_key : Text → Bool
unfolding after
is_usb_key key = after_prefix (numbered_below_20 b'3') (after (codes "usb") key)

-- qemuVMRNGSlot
unfoldable pub is_rng_key : Text → Bool
is_rng_key key = text_eq key (codes "rng0")

-- qemuVMVirtiofsSlot
unfoldable pub is_virtiofs_key : Text → Bool
unfolding after
is_virtiofs_key key = after_prefix is_one_digit (after (codes "virtiofs") key)

-- domain:bus:device.function
abbrev pub is_pci_address : Text → Bool
is_pci_address s = at_end (
    exactly is_hex 4 s
    >>= literal b':'
    >>= exactly is_hex 2
    >>= literal b':'
    >>= exactly is_hex 2
    >>= literal b'.'
    >>= exactly is_hex 1)

-- qemuVMHostPCIHost: addresses between semicolons
unfoldable pub is_host_pci_host : Text → Bool
unfolding split
is_host_pci_host s = all_parts is_pci_address (split s b';')

abbrev pub is_usb_path : Option (Text × Text) → Bool
is_usb_path none = false
is_usb_path (some (bus, ports)) =
    some_of is_digit bus && all_parts (some_of is_digit) (split ports b'.')

abbrev pub is_usb_id : Text → Bool
is_usb_id s = at_end (exactly is_hex 4 s >>= literal b':' >>= exactly is_hex 4)

-- A text in either case of its letters.
abbrev pub in_any_case : Text → Text → Bool
in_any_case [] [] = true
in_any_case (u ∷ us) (c ∷ s) = ((c == u) || (c == u + 32)) && in_any_case us s
in_any_case _ _ = false

-- qemuVMUSBHost
unfoldable pub is_usb_host : Text → Bool
unfolding split cut
is_usb_host s = is_usb_path (cut s b'-') || is_usb_id s || in_any_case (codes "SPICE") s

-- qemuVMHostPCIMdev
unfoldable pub is_mdev : Text → Bool
is_mdev = some_of (λ c. not ((c == b'/') || (c == b'.') || (c == b':')))

-- qemuVMHostPCIRomFile
unfoldable pub is_rom_file : Text → Bool
is_rom_file = some_of (λ c. not ((c == b',') || (c == b';')))

-- qemuVMHostPCIID
unfoldable pub is_pci_id : Text → Bool
is_pci_id s = at_end (literal b'0' s >>= literal b'x' >>= exactly is_hex 4)

abbrev pub is_id_char : ℕ → Bool
is_id_char c = is_letter c || is_digit c || (c == b'_') || (c == b'-')

-- qemuVMVirtiofsDirID
unfoldable pub is_dir_id : Text → Bool
is_dir_id [] = false
is_dir_id (c ∷ s) = is_letter c && some_of is_id_char s

-- slices.Contains
abbrev pub one_of : List Text → Text → Bool
one_of [] s = false
one_of (t ∷ ts) s = text_eq t s || one_of ts s
