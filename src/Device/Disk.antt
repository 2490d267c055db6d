-- ===== src/Device/Disk.antt =====
-- qemuVMDiskModel, parseQemuVMDisk and encodeQemuVMDisk.
pub mod RoundTrip
use terraform_provider_proxm.Prelude.{
  ℕ, List, [], ◌∷◌, Option, none, some, Bool, true, false, ◌||◌, not, ◌==◌, if◌then◌else◌, ◌>>=◌,
}
use terraform_provider_proxm.Int.{ℤ}
use terraform_provider_proxm.Text.{Text, codes, text_eq, is_empty, trim_space, join}
use terraform_provider_proxm.Text.Decimal.{parse_int}
use terraform_provider_proxm.Value.{Value, null, known, string_value, is_configured}
use terraform_provider_proxm.Config.{
  Float64, parse_config_bool, parse_config, append_string_config, append_int64_config,
  append_bool_config, append_float64_config, concat,
}
use terraform_provider_proxm.Device.Volume.{file_segment, observed_storage}

module _ (F : Float64) where
  pub record Disk : Type 0 where
    pub storage : Value Text
    pub volume : Value Text
    pub size : Value Text
    pub media : Value Text
    pub cache : Value Text
    pub discard : Value Text
    pub iothread : Value Bool
    pub ssd : Value Bool
    pub replicate : Value Bool
    pub backup : Value Bool
    pub shared : Value Bool
    pub snapshot : Value Bool
    pub serial : Value Text
    pub iops : Value ℤ
    pub iops_max : Value ℤ
    pub iops_rd : Value ℤ
    pub iops_rd_max : Value ℤ
    pub iops_wr : Value ℤ
    pub iops_wr_max : Value ℤ
    pub mbps : Value F.Float
    pub mbps_max : Value F.Float
    pub mbps_rd : Value F.Float
    pub mbps_rd_max : Value F.Float
    pub mbps_wr : Value F.Float
    pub mbps_wr_max : Value F.Float

  -- The zero value of the model.
  abbrev pub empty_disk : Disk
  empty_disk = record {
    storage = null;
    volume = null;
    size = null;
    media = null;
    cache = null;
    discard = null;
    iothread = null;
    ssd = null;
    replicate = null;
    backup = null;
    shared = null;
    snapshot = null;
    serial = null;
    iops = null;
    iops_max = null;
    iops_rd = null;
    iops_rd_max = null;
    iops_wr = null;
    iops_wr_max = null;
    mbps = null;
    mbps_max = null;
    mbps_rd = null;
    mbps_rd_max = null;
    mbps_wr = null;
    mbps_wr_max = null;
  }

  abbrev pub set_volume : Text → Disk → Disk
  set_volume volume item = record item {
    storage = observed_storage volume item.storage;
    volume = known volume;
  }

  -- The first segment alone may stand without a key.
  abbrev pub disk_positional : ℕ → Text → Disk → Option Disk
  disk_positional index segment item =
      if index == 0 then some (set_volume (trim_space segment) item) else none

  -- The `switch key` of the loop.
  unfoldable pub disk_option : Text → Text → Disk → Option Disk
  disk_option key value item =
      if text_eq key (codes "file") || text_eq key (codes "volume")
      then some (set_volume value item)
      else if text_eq key (codes "size")
      then some (record item { size = known value })
      else if text_eq key (codes "media")
      then some (record item { media = known value })
      else if text_eq key (codes "cache")
      then some (record item { cache = known value })
      else if text_eq key (codes "discard")
      then some (record item { discard = known value })
      else if text_eq key (codes "iothread")
      then parse_config_bool value >>= (λ b. some (record item { iothread = known b }))
      else if text_eq key (codes "replicate")
      then parse_config_bool value >>= (λ b. some (record item { replicate = known b }))
      else if text_eq key (codes "backup")
      then parse_config_bool value >>= (λ b. some (record item { backup = known b }))
      else if text_eq key (codes "shared")
      then parse_config_bool value >>= (λ b. some (record item { shared = known b }))
      else if text_eq key (codes "snapshot")
      then parse_config_bool value >>= (λ b. some (record item { snapshot = known b }))
      else if text_eq key (codes "serial")
      then some (record item { serial = known value })
      else if text_eq key (codes "iops")
      then parse_int value >>= (λ n. some (record item { iops = known n }))
      else if text_eq key (codes "iops_max")
      then parse_int value >>= (λ n. some (record item { iops_max = known n }))
      else if text_eq key (codes "iops_rd")
      then parse_int value >>= (λ n. some (record item { iops_rd = known n }))
      else if text_eq key (codes "iops_rd_max")
      then parse_int value >>= (λ n. some (record item { iops_rd_max = known n }))
      else if text_eq key (codes "iops_wr")
      then parse_int value >>= (λ n. some (record item { iops_wr = known n }))
      else if text_eq key (codes "iops_wr_max")
      then parse_int value >>= (λ n. some (record item { iops_wr_max = known n }))
      else if text_eq key (codes "mbps")
      then F.parse_float value >>= (λ x. some (record item { mbps = known x }))
      else if text_eq key (codes "mbps_max")
      then F.parse_float value >>= (λ x. some (record item { mbps_max = known x }))
      else if text_eq key (codes "mbps_rd")
      then F.parse_float value >>= (λ x. some (record item { mbps_rd = known x }))
      else if text_eq key (codes "mbps_rd_max")
      then F.parse_float value >>= (λ x. some (record item { mbps_rd_max = known x }))
      else if text_eq key (codes "mbps_wr")
      then F.parse_float value >>= (λ x. some (record item { mbps_wr = known x }))
      else if text_eq key (codes "mbps_wr_max")
      then F.parse_float value >>= (λ x. some (record item { mbps_wr_max = known x }))
      else if text_eq key (codes "ssd")
      then parse_config_bool value >>= (λ b. some (record item { ssd = known b }))
      else none

  unfoldable pub parse_disk : Text → Option Disk
  unfolding disk_option parse_config
  parse_disk = parse_config disk_positional disk_option (λ d. is_configured d.volume) empty_disk

  abbrev pub disk_segments : Disk → List (List Text)
  disk_segments d =
      append_string_config (codes "media") d.media
      ∷ append_string_config (codes "cache") d.cache
      ∷ append_string_config (codes "discard") d.discard
      ∷ append_bool_config (codes "iothread") d.iothread
      ∷ append_bool_config (codes "replicate") d.replicate
      ∷ append_bool_config (codes "ssd") d.ssd
      ∷ append_bool_config (codes "backup") d.backup
      ∷ append_bool_config (codes "shared") d.shared
      ∷ append_bool_config (codes "snapshot") d.snapshot
      ∷ append_string_config (codes "serial") d.serial
      ∷ append_int64_config (codes "iops") d.iops
      ∷ append_int64_config (codes "iops_max") d.iops_max
      ∷ append_int64_config (codes "iops_rd") d.iops_rd
      ∷ append_int64_config (codes "iops_rd_max") d.iops_rd_max
      ∷ append_int64_config (codes "iops_wr") d.iops_wr
      ∷ append_int64_config (codes "iops_wr_max") d.iops_wr_max
      ∷ append_float64_config F (codes "mbps") d.mbps
      ∷ append_float64_config F (codes "mbps_max") d.mbps_max
      ∷ append_float64_config F (codes "mbps_rd") d.mbps_rd
      ∷ append_float64_config F (codes "mbps_rd_max") d.mbps_rd_max
      ∷ append_float64_config F (codes "mbps_wr") d.mbps_wr
      ∷ append_float64_config F (codes "mbps_wr_max") d.mbps_wr_max
      ∷ (if is_empty (string_value d.volume)
          then []
          else append_string_config (codes "size") d.size)
      ∷ []

  unfoldable pub encode_disk : Disk → Text
  unfolding join
  encode_disk d = join (concat (file_segment d.volume d.storage d.size ∷ disk_segments d)) b','
