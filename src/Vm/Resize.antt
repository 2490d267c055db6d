-- ===== src/Vm/Resize.antt =====
-- internal/provider/qemu_vm_resize.go: disks grown to absolute sizes.
pub mod Size
pub mod Rule
pub mod Grows
pub mod Reads
pub mod Converges
use terraform_provider_proxm.Prelude.{
  Bool, true, false, not, ◌&&◌, ◌||◌, Option, none, some, List, [], ◌∷◌, ◌++◌, if◌then◌else◌,
}
use terraform_provider_proxm.Int.{ℤ, pos}
use terraform_provider_proxm.Text.{Text, codes, text_eq, is_empty, contains, has_suffix}
use terraform_provider_proxm.Text.Sort.{sorted_strings}
use terraform_provider_proxm.Text.Decimal.{format_int}
use terraform_provider_proxm.Value.{Value, null, unknown, known, string_value, value_or}
use terraform_provider_proxm.Config.{Float64, split_config_segments, split_config_key_value}
use terraform_provider_proxm.Client.Error.{Error, failure, wrapped, Result, ok, err, quote}
use terraform_provider_proxm.Vm.Slots.{MapOf, find}
use terraform_provider_proxm.Vm.Cdrom.{lookup}
use terraform_provider_proxm.Vm.SeedUpdate.{at_key}
use terraform_provider_proxm.Vm.World.{
  GuestConfig, Server, World, and_then, explain, get_qemu_vm_config, resize_qemu_disk,
}
use terraform_provider_proxm.Vm.Resize.Size.{Arithmetic, disk_size_bytes}

-- What the loop over the segments of a wire value keeps.
pub record Drive : Type 0 where
  pub volume : Text
  pub size : Text
  pub media : Text

abbrev no_drive : Drive
no_drive = record { volume = []; size = []; media = [] }

-- The `switch key`.
abbrev set_key : Text → Text → Drive → Drive
set_key key value drive =
    if text_eq key (codes "file") || text_eq key (codes "volume")
    then record drive { volume = value }
    else if text_eq key (codes "size")
    then record drive { size = value }
    else if text_eq key (codes "media")
    then record drive { media = value }
    else drive

-- A segment; the first one may stand without a key.
abbrev add_segment : Bool → Text → Option (Text × Text) → Drive → Drive
add_segment first segment none drive = if first then record drive { volume = segment } else drive
add_segment first segment (some (key, value)) drive = set_key key value drive

unfoldable pub add_segments : Bool → List Text → Drive → Drive
unfolding split_config_key_value
add_segments first [] drive = drive
add_segments first (segment ∷ segments) drive =
    add_segments false segments (add_segment first segment (split_config_key_value segment) drive)

unfoldable pub read_drive : Text → Drive
unfolding add_segments split_config_segments
read_drive wire = add_segments true (split_config_segments wire) no_drive

abbrev add_size : Option (Text × Text) → Text → Text
add_size none size = size
add_size (some (key, value)) size = if text_eq key (codes "size") then value else size

unfoldable pub last_size : List Text → Text → Text
unfolding split_config_key_value
last_size [] size = size
last_size (segment ∷ segments) size =
    last_size segments (add_size (split_config_key_value segment) size)

-- The loop of the verification.
unfoldable pub read_size : Text → Text
unfolding last_size split_config_segments
read_size wire = last_size (split_config_segments wire) []

-- A hard disk on a volume: not a CD-ROM, a cloud-init drive or an ISO.
unfoldable pub is_resizable : Drive → Bool
unfolding contains has_suffix
is_resizable drive =
    not (text_eq drive.media (codes "cdrom"))
    && contains drive.volume (codes ":")
    && not (contains drive.volume (codes "cloudinit"))
    && not (has_suffix drive.volume (codes ".iso"))

abbrev disk_slot : Text → Text
disk_slot slot = codes "disk " ++ slot

abbrev cannot_shrink : Text → Text → ℤ → Error
cannot_shrink slot size gib = failure (
    disk_slot slot
    ++ (codes " cannot shrink from " ++ (size ++ (codes " to " ++ (format_int gib ++ codes "G")))))

abbrev not_converged : Text → Text → ℤ → Error
not_converged slot size gib = failure (
    disk_slot slot
    ++ (codes " resize did not converge: got "
        ++ (size ++ (codes ", wanted " ++ (format_int gib ++ codes "G")))))

abbrev fails_with {ℓ} : {A : Type ℓ} → Error → World → Result A × World
fails_with e w = (err e, w)

abbrev pub reading : Text → Text
reading slot = codes "read disk " ++ (slot ++ codes " before resize")

abbrev pub resizing : Text → Text
resizing slot = codes "resize disk " ++ slot

abbrev pub verifying : Text → Text
verifying slot = codes "verify resized disk " ++ slot

-- ElementsAs to int64, which refuses null and unknown elements
abbrev add_target : Text → Value ℤ → Option (MapOf ℤ) → Option (MapOf ℤ)
add_target slot (known gib) (some rest) = some ((slot, gib) ∷ rest)
add_target slot _ _ = none

abbrev pub known_targets : MapOf (Value ℤ) → Option (MapOf ℤ)
known_targets [] = some []
known_targets ((slot, value) ∷ targets) = add_target slot value (known_targets targets)

abbrev pub keys : MapOf ℤ → List Text
keys [] = []
keys ((slot, gib) ∷ targets) = slot ∷ keys targets

abbrev pub target_at : MapOf ℤ → Text → ℤ
target_at targets slot = elim (find targets slot) [ none ↦ pos 0 | some gib ↦ gib ]

abbrev pub or_empty : Option (MapOf ℤ) → MapOf ℤ
or_empty none = []
or_empty (some targets) = targets

-- The configured sizes.
abbrev pub targets_of : Value (MapOf (Value ℤ)) → MapOf ℤ
targets_of null = []
targets_of unknown = []
targets_of (known items) = or_empty (known_targets items)

module _ {F : Float64} (A : Arithmetic F) (server : Server) (node : Text) (vm_id : ℤ) where
  abbrev pub check_size : Text → Text → ℤ → Result F.Float → World → Result (Unit {0}) × World
  check_size slot size gib (err e) w = (err (wrapped (codes "verify disk " ++ slot) e), w)
  check_size slot size gib (ok actual) w =
      if A.same actual (A.of_gib gib)
      then (ok tt, w)
      else fails_with (not_converged slot size gib) w

  abbrev pub verify_size : Text → ℤ → GuestConfig → World → Result (Unit {0}) × World
  verify_size slot gib observed w =
      let size = read_size (at_key observed.disk slot) in
      check_size slot size gib (disk_size_bytes A size) w

  abbrev pub verify : Text → ℤ → World → Result (Unit {0}) × World
  verify slot gib w =
      and_then (explain (verifying slot) (get_qemu_vm_config server node vm_id w))
        (verify_size slot gib)

  abbrev pub grow : Text → ℤ → Text → World → Result (Unit {0}) × World
  grow slot gib digest w =
      if is_empty digest
      then fails_with
          (failure (disk_slot slot ++ codes ": missing configuration digest before resize")) w
      else and_then (explain (resizing slot) (resize_qemu_disk server node vm_id slot gib digest w))
          (λ _. verify slot gib)

  abbrev pub compare_size :
      Text → Text → ℤ → Text → Result F.Float → World → Result (Unit {0}) × World
  compare_size slot size gib digest (err e) w = (err (wrapped (disk_slot slot) e), w)
  compare_size slot size gib digest (ok current) w =
      if A.less (A.of_gib gib) current
      then fails_with (cannot_shrink slot size gib) w
      else if A.same (A.of_gib gib) current
      then (ok tt, w)
      else grow slot gib digest w

  abbrev pub resize_drive : Text → ℤ → Text → Drive → World → Result (Unit {0}) × World
  resize_drive slot gib digest drive w =
      if is_resizable drive
      then compare_size slot drive.size gib digest (disk_size_bytes A drive.size) w
      else fails_with (failure (disk_slot slot ++ codes " is not a resizable hard disk")) w

  abbrev pub resize_wire : Text → ℤ → Text → Option Text → World → Result (Unit {0}) × World
  resize_wire slot gib digest none w =
      fails_with (failure (disk_slot slot ++ codes " does not exist")) w
  resize_wire slot gib digest (some wire) w = resize_drive slot gib digest (read_drive wire) w

  abbrev pub resize_read : Text → ℤ → GuestConfig → World → Result (Unit {0}) × World
  resize_read slot gib config w =
      resize_wire slot gib (at_key config.extra_config (codes "digest")) (lookup config.disk slot) w

  -- One round of the loop: a fresh configuration, as a resize changes the digest.
  unfoldable pub resize_slot : Text → ℤ → World → Result (Unit {0}) × World
  unfolding resize_qemu_disk disk_size_bytes is_resizable read_drive read_size
  resize_slot slot gib w =
      and_then (explain (reading slot) (get_qemu_vm_config server node vm_id w))
        (resize_read slot gib)

  unfoldable pub resize_slots : MapOf ℤ → List Text → World → Result (Unit {0}) × World
  unfolding resize_slot
  resize_slots targets [] w = (ok tt, w)
  resize_slots targets (slot ∷ slots) w =
      and_then (resize_slot slot (target_at targets slot) w) (λ _. resize_slots targets slots)

  abbrev pub resize_known : Option (MapOf ℤ) → World → Result (Unit {0}) × World
  resize_known none w = fails_with (failure (codes "read resize targets")) w
  resize_known (some targets) w = resize_slots targets (sorted_strings (keys targets)) w

  -- resizeDisks: a null, unknown or empty map has no elements
  unfoldable pub resize_disks : Value (MapOf (Value ℤ)) → World → Result (Unit {0}) × World
  unfolding resize_slots sorted_strings
  resize_disks null w = (ok tt, w)
  resize_disks unknown w = (ok tt, w)
  resize_disks (known targets) w = resize_known (known_targets targets) w
