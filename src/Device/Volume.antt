-- ===== src/Device/Volume.antt =====
-- The storage volume of a drive: the file part that encodeQemuVMDisk, encodeQemuVMEFIDisk and
-- encodeQemuVMTPMState write, and the storage that the parsers read off a volume.
pub mod Decide
use terraform_provider_proxm.Prelude.{List, [], ◌∷◌, ◌++◌, ◌≢◌, ◌&&◌, not, if◌then◌else◌}
use terraform_provider_proxm.Text.{Text, is_empty, Lacks}
use terraform_provider_proxm.Value.{Value, known, string_value}
use terraform_provider_proxm.Config.{IsPlain, disk_storage_from_volume}

-- The volume, or else a new one of some size on a storage, or the storage alone.
abbrev pub file_part : Value Text → Value Text → Value Text → Text
file_part volume storage size =
    if not (is_empty (string_value volume))
    then string_value volume
    else if not (is_empty (string_value storage)) && not (is_empty (string_value size))
    then string_value storage ++ (b':' ∷ string_value size)
    else string_value storage

-- The segment of the file part, if there is one.
abbrev pub file_segment : Value Text → Value Text → Value Text → List Text
file_segment volume storage size =
    if is_empty (file_part volume storage size) then [] else file_part volume storage size ∷ []

-- A storage that is read replaces the one so far, an empty one does not.
abbrev pub observed_storage : Text → Value Text → Value Text
observed_storage volume storage =
    if is_empty (disk_storage_from_volume volume)
    then storage
    else known (disk_storage_from_volume volume)

-- A volume that the positional segment can carry.
pub record IsVolume (volume : Text) : Type 0 where
  pub nonempty : volume ≢ []
  pub plain : IsPlain volume
  pub no_equals : Lacks b'=' volume
