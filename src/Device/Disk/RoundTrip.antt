-- ===== src/Device/Disk/RoundTrip.antt =====
-- parseQemuVMDisk after encodeQemuVMDisk (internal/provider/qemu_vm_mapping.go).
use terraform_provider_proxm.Prelude.{ℕ, ◌≡◌, ◌≢◌, refl, Option, some, List, [], ◌∷◌, ◌++◌, All}
use terraform_provider_proxm.Int.{IsInt64}
use terraform_provider_proxm.Text.{Text, codes}
use terraform_provider_proxm.Text.Trim.{trim_space_self}
use terraform_provider_proxm.Value.{null, known, Holds, IsDecided, is_configured}
use terraform_provider_proxm.Config.{
  Float64, IsPlain, concat, parse_segments, append_string_config, append_bool_config,
  append_int64_config, append_float64_config,
}
use terraform_provider_proxm.Config.Segments.{
  string_config-IsPlain, bool_config-IsPlain, int64_config-IsPlain, float64_config-IsPlain,
  All-concat,
}
use terraform_provider_proxm.Config.Steps.{
  read_string, read_bool, read_int64, read_float64, parse_config-join, read_positional,
}
use terraform_provider_proxm.Device.Volume.{IsVolume, observed_storage}
use terraform_provider_proxm.Device.Disk.{
  Disk, empty_disk, set_volume, disk_positional, disk_option, disk_segments, parse_disk,
  encode_disk,
}

module _ (F : Float64) where
  -- Every option is decided: null, or a value that a segment can carry.
  pub record IsEncodable (d : Disk F) : Type 0 where
    pub size : Holds IsPlain d.size
    pub media : Holds IsPlain d.media
    pub cache : Holds IsPlain d.cache
    pub discard : Holds IsPlain d.discard
    pub iothread : IsDecided d.iothread
    pub replicate : IsDecided d.replicate
    pub ssd : IsDecided d.ssd
    pub backup : IsDecided d.backup
    pub shared : IsDecided d.shared
    pub snapshot : IsDecided d.snapshot
    pub serial : Holds IsPlain d.serial
    pub iops : Holds IsInt64 d.iops
    pub iops_max : Holds IsInt64 d.iops_max
    pub iops_rd : Holds IsInt64 d.iops_rd
    pub iops_rd_max : Holds IsInt64 d.iops_rd_max
    pub iops_wr : Holds IsInt64 d.iops_wr
    pub iops_wr_max : Holds IsInt64 d.iops_wr_max
    pub mbps : IsDecided d.mbps
    pub mbps_max : IsDecided d.mbps_max
    pub mbps_rd : IsDecided d.mbps_rd
    pub mbps_rd_max : IsDecided d.mbps_rd_max
    pub mbps_wr : IsDecided d.mbps_wr
    pub mbps_wr_max : IsDecided d.mbps_wr_max

  -- The options of `d` on the volume.
  abbrev pub attach : Text → Disk F → Disk F
  attach volume d = record d { storage = observed_storage volume null; volume = known volume }

  module _ (volume : Text) (d : Disk F) (h : IsEncodable d) where
    abbrev after_volume : Disk F
    after_volume = set_volume F volume (empty_disk F)

    abbrev after_flags : Disk F
    after_flags = record after_volume {
      media = d.media;
      cache = d.cache;
      discard = d.discard;
      iothread = d.iothread;
      replicate = d.replicate;
      ssd = d.ssd;
      backup = d.backup;
      shared = d.shared;
      snapshot = d.snapshot;
      serial = d.serial;
    }

    abbrev after_iops : Disk F
    after_iops = record after_flags {
      iops = d.iops;
      iops_max = d.iops_max;
      iops_rd = d.iops_rd;
      iops_rd_max = d.iops_rd_max;
      iops_wr = d.iops_wr;
      iops_wr_max = d.iops_wr_max;
    }

    abbrev after_mbps : Disk F
    after_mbps = record after_iops {
      mbps = d.mbps;
      mbps_max = d.mbps_max;
      mbps_rd = d.mbps_rd;
      mbps_rd_max = d.mbps_rd_max;
      mbps_wr = d.mbps_wr;
      mbps_wr_max = d.mbps_wr_max;
    }

    read_flags :
        (rest : List Text) {r : Option (Disk F)}
        → ((j : ℕ) → parse_segments (disk_positional F) (disk_option F) j rest after_flags ≡ r)
        → (i : ℕ)
        → parse_segments
            (disk_positional F)
            (disk_option F)
            i
            (append_string_config (codes "media") d.media
              ++ (append_string_config (codes "cache") d.cache
                  ++ (append_string_config (codes "discard") d.discard
                      ++ (append_bool_config (codes "iothread") d.iothread
                          ++ (append_bool_config (codes "replicate") d.replicate
                              ++ (append_bool_config (codes "ssd") d.ssd
                                  ++ (append_bool_config (codes "backup") d.backup
                                      ++ (append_bool_config (codes "shared") d.shared
                                          ++ (append_bool_config (codes "snapshot") d.snapshot
                                              ++ (append_string_config (codes "serial") d.serial
                                                  ++ (rest)))))))))))
            after_volume
          ≡ r
    unfolding disk_option
    read_flags rest next =
        let s0 : Disk F = after_volume in
        let s1 : Disk F = record s0 { media = d.media } in
        let s2 : Disk F = record s1 { cache = d.cache } in
        let s3 : Disk F = record s2 { discard = d.discard } in
        let s4 : Disk F = record s3 { iothread = d.iothread } in
        let s5 : Disk F = record s4 { replicate = d.replicate } in
        let s6 : Disk F = record s5 { ssd = d.ssd } in
        let s7 : Disk F = record s6 { backup = d.backup } in
        let s8 : Disk F = record s7 { shared = d.shared } in
        let s9 : Disk F = record s8 { snapshot = d.snapshot } in
        read_string (disk_positional F) (disk_option F) (codes "media") d.media
          (λ x. record s0 { media = x }) _ refl h.media (λ v. refl)
          (read_string (disk_positional F) (disk_option F) (codes "cache") d.cache
            (λ x. record s1 { cache = x }) _ refl h.cache (λ v. refl)
            (read_string (disk_positional F) (disk_option F) (codes "discard") d.discard
              (λ x. record s2 { discard = x }) _ refl h.discard (λ v. refl)
              (read_bool (disk_positional F) (disk_option F) (codes "iothread") d.iothread
                (λ x. record s3 { iothread = x }) _ refl h.iothread (λ v. refl)
                (read_bool (disk_positional F) (disk_option F) (codes "replicate") d.replicate
                  (λ x. record s4 { replicate = x }) _ refl h.replicate (λ v. refl)
                  (read_bool (disk_positional F) (disk_option F) (codes "ssd") d.ssd
                    (λ x. record s5 { ssd = x }) _ refl h.ssd (λ v. refl)
                    (read_bool (disk_positional F) (disk_option F) (codes "backup") d.backup
                      (λ x. record s6 { backup = x }) _ refl h.backup (λ v. refl)
                      (read_bool (disk_positional F) (disk_option F) (codes "shared") d.shared
                        (λ x. record s7 { shared = x }) _ refl h.shared (λ v. refl)
                        (read_bool (disk_positional F) (disk_option F) (codes "snapshot") d.snapshot
                          (λ x. record s8 { snapshot = x }) _ refl h.snapshot (λ v. refl)
                          (read_string (disk_positional F) (disk_option F) (codes "serial") d.serial
                            (λ x. record s9 { serial = x }) _ refl h.serial (λ v. refl)
                            (next))))))))))

    read_iops :
        (rest : List Text) {r : Option (Disk F)}
        → ((j : ℕ) → parse_segments (disk_positional F) (disk_option F) j rest after_iops ≡ r)
        → (i : ℕ)
        → parse_segments
            (disk_positional F)
            (disk_option F)
            i
            (append_int64_config (codes "iops") d.iops
              ++ (append_int64_config (codes "iops_max") d.iops_max
                  ++ (append_int64_config (codes "iops_rd") d.iops_rd
                      ++ (append_int64_config (codes "iops_rd_max") d.iops_rd_max
                          ++ (append_int64_config (codes "iops_wr") d.iops_wr
                              ++ (append_int64_config (codes "iops_wr_max") d.iops_wr_max
                                  ++ (rest)))))))
            after_flags
          ≡ r
    unfolding disk_option
    read_iops rest next =
        let s0 : Disk F = after_flags in
        let s1 : Disk F = record s0 { iops = d.iops } in
        let s2 : Disk F = record s1 { iops_max = d.iops_max } in
        let s3 : Disk F = record s2 { iops_rd = d.iops_rd } in
        let s4 : Disk F = record s3 { iops_rd_max = d.iops_rd_max } in
        let s5 : Disk F = record s4 { iops_wr = d.iops_wr } in
        read_int64 (disk_positional F) (disk_option F) (codes "iops") d.iops
          (λ x. record s0 { iops = x }) _ refl h.iops (λ v. refl)
          (read_int64 (disk_positional F) (disk_option F) (codes "iops_max") d.iops_max
            (λ x. record s1 { iops_max = x }) _ refl h.iops_max (λ v. refl)
            (read_int64 (disk_positional F) (disk_option F) (codes "iops_rd") d.iops_rd
              (λ x. record s2 { iops_rd = x }) _ refl h.iops_rd (λ v. refl)
              (read_int64 (disk_positional F) (disk_option F) (codes "iops_rd_max") d.iops_rd_max
                (λ x. record s3 { iops_rd_max = x }) _ refl h.iops_rd_max (λ v. refl)
                (read_int64 (disk_positional F) (disk_option F) (codes "iops_wr") d.iops_wr
                  (λ x. record s4 { iops_wr = x }) _ refl h.iops_wr (λ v. refl)
                  (read_int64 (disk_positional F) (disk_option F) (codes "iops_wr_max")
                    d.iops_wr_max (λ x. record s5 { iops_wr_max = x }) _ refl h.iops_wr_max
                    (λ v. refl) (next))))))

    read_mbps :
        (rest : List Text) {r : Option (Disk F)}
        → ((j : ℕ) → parse_segments (disk_positional F) (disk_option F) j rest after_mbps ≡ r)
        → (i : ℕ)
        → parse_segments
            (disk_positional F)
            (disk_option F)
            i
            (append_float64_config F (codes "mbps") d.mbps
              ++ (append_float64_config F (codes "mbps_max") d.mbps_max
                  ++ (append_float64_config F (codes "mbps_rd") d.mbps_rd
                      ++ (append_float64_config F (codes "mbps_rd_max") d.mbps_rd_max
                          ++ (append_float64_config F (codes "mbps_wr") d.mbps_wr
                              ++ (append_float64_config F (codes "mbps_wr_max") d.mbps_wr_max
                                  ++ (rest)))))))
            after_iops
          ≡ r
    unfolding disk_option
    read_mbps rest next =
        let s0 : Disk F = after_iops in
        let s1 : Disk F = record s0 { mbps = d.mbps } in
        let s2 : Disk F = record s1 { mbps_max = d.mbps_max } in
        let s3 : Disk F = record s2 { mbps_rd = d.mbps_rd } in
        let s4 : Disk F = record s3 { mbps_rd_max = d.mbps_rd_max } in
        let s5 : Disk F = record s4 { mbps_wr = d.mbps_wr } in
        read_float64 (disk_positional F) (disk_option F) F (codes "mbps") d.mbps
          (λ x. record s0 { mbps = x }) _ refl h.mbps (λ v. refl)
          (read_float64 (disk_positional F) (disk_option F) F (codes "mbps_max") d.mbps_max
            (λ x. record s1 { mbps_max = x }) _ refl h.mbps_max (λ v. refl)
            (read_float64 (disk_positional F) (disk_option F) F (codes "mbps_rd") d.mbps_rd
              (λ x. record s2 { mbps_rd = x }) _ refl h.mbps_rd (λ v. refl)
              (read_float64 (disk_positional F) (disk_option F) F (codes "mbps_rd_max")
                d.mbps_rd_max (λ x. record s3 { mbps_rd_max = x }) _ refl h.mbps_rd_max (λ v. refl)
                (read_float64 (disk_positional F) (disk_option F) F (codes "mbps_wr") d.mbps_wr
                  (λ x. record s4 { mbps_wr = x }) _ refl h.mbps_wr (λ v. refl)
                  (read_float64 (disk_positional F) (disk_option F) F (codes "mbps_wr_max")
                    d.mbps_wr_max (λ x. record s5 { mbps_wr_max = x }) _ refl h.mbps_wr_max
                    (λ v. refl) (next))))))

    read_size :
        (j : ℕ)
        → parse_segments
            (disk_positional F)
            (disk_option F)
            j
            (append_string_config (codes "size") d.size ++ [])
            after_mbps
          ≡ some (record after_mbps { size = d.size })
    unfolding disk_option parse_segments
    read_size =
        read_string (disk_positional F) (disk_option F) (codes "size") d.size
          (λ x. record after_mbps { size = x }) [] refl h.size (λ v. refl) (λ j. refl)

  disk_segments-IsPlain :
      (volume : Text) (d : Disk F)
      → volume ≢ []
      → IsEncodable d
      → All IsPlain (concat (disk_segments F (attach volume d)))
  disk_segments-IsPlain [] d ne h = absurd (ne refl)
  disk_segments-IsPlain (c ∷ v) d ne h = All-concat (disk_segments F (attach (c ∷ v) d)) (
    string_config-IsPlain (codes "media") d.media refl h.media,
    (
      string_config-IsPlain (codes "cache") d.cache refl h.cache,
      (
        string_config-IsPlain (codes "discard") d.discard refl h.discard,
        (
          bool_config-IsPlain (codes "iothread") d.iothread refl h.iothread,
          (
            bool_config-IsPlain (codes "replicate") d.replicate refl h.replicate,
            (
              bool_config-IsPlain (codes "ssd") d.ssd refl h.ssd,
              (
                bool_config-IsPlain (codes "backup") d.backup refl h.backup,
                (
                  bool_config-IsPlain (codes "shared") d.shared refl h.shared,
                  (
                    bool_config-IsPlain (codes "snapshot") d.snapshot refl h.snapshot,
                    (
                      string_config-IsPlain (codes "serial") d.serial refl h.serial,
                      (
                        int64_config-IsPlain (codes "iops") d.iops refl h.iops,
                        (
                          int64_config-IsPlain (codes "iops_max") d.iops_max refl h.iops_max,
                          (
                            int64_config-IsPlain (codes "iops_rd") d.iops_rd refl h.iops_rd,
                            (
                              int64_config-IsPlain (codes "iops_rd_max") d.iops_rd_max refl
                                  h.iops_rd_max,
                              (
                                int64_config-IsPlain (codes "iops_wr") d.iops_wr refl h.iops_wr,
                                (
                                  int64_config-IsPlain (codes "iops_wr_max") d.iops_wr_max refl
                                      h.iops_wr_max,
                                  (
                                    float64_config-IsPlain F (codes "mbps") d.mbps refl h.mbps,
                                    (
                                      float64_config-IsPlain F (codes "mbps_max") d.mbps_max refl
                                          h.mbps_max,
                                      (
                                        float64_config-IsPlain F (codes "mbps_rd") d.mbps_rd refl
                                            h.mbps_rd,
                                        (
                                          float64_config-IsPlain F (codes "mbps_rd_max")
                                              d.mbps_rd_max refl h.mbps_rd_max,
                                          (
                                            float64_config-IsPlain F (codes "mbps_wr") d.mbps_wr
                                                refl h.mbps_wr,
                                            (
                                              float64_config-IsPlain F (codes "mbps_wr_max")
                                                  d.mbps_wr_max refl h.mbps_wr_max,
                                              (
                                                string_config-IsPlain (codes "size") d.size refl
                                                    h.size,
                                                tt,
                                              ),
                                            ),
                                          ),
                                        ),
                                      ),
                                    ),
                                  ),
                                ),
                              ),
                            ),
                          ),
                        ),
                      ),
                    ),
                  ),
                ),
              ),
            ),
          ),
        ),
      ),
    ),
  )

  -- The loop over all the segments.
  read_disk :
      (volume : Text) (d : Disk F)
      → IsVolume volume
      → IsEncodable d
      → parse_segments
          (disk_positional F)
          (disk_option F)
          0
          (volume ∷ concat (disk_segments F (attach volume d)))
          (empty_disk F)
        ≡ some (attach volume d)
  read_disk [] d v h = absurd (v.nonempty refl)
  read_disk (c ∷ p) d v h =
      rw
        (
          read_positional (disk_positional F) (disk_option F) 0 (c ∷ p) (empty_disk F)
              (concat (disk_segments F (attach (c ∷ p) d))) v.no_equals,
          trim_space_self (c ∷ p) v.plain.trimmed,
        )
        (read_flags (c ∷ p) d h _
          (read_iops (c ∷ p) d h _ (read_mbps (c ∷ p) d h _ (read_size (c ∷ p) d h))) 1)

  -- A disk on a volume is read back from the property string that it is written as, with the
  -- storage that its volume names, if the volume is not empty and has no comma, no equals sign and
  -- no space at its ends, every option is null or known, known texts among the options have no
  -- comma and no space at their ends, and known integers fit int64.
  pub parse_disk-encode_disk :
      (volume : Text) (d : Disk F)
      → IsVolume volume
      → IsEncodable d
      → parse_disk F (encode_disk F (attach volume d)) ≡ some (attach volume d)
  unfolding parse_disk encode_disk
  parse_disk-encode_disk [] d v h = absurd (v.nonempty refl)
  parse_disk-encode_disk (c ∷ p) d v h =
      parse_config-join (disk_positional F) (disk_option F) (λ x. is_configured x.volume)
        (empty_disk F) (c ∷ p) (concat (disk_segments F (attach (c ∷ p) d))) v.nonempty v.plain
        (disk_segments-IsPlain (c ∷ p) d v.nonempty h) (read_disk (c ∷ p) d v h) refl
