-- ===== src/Config/Store/Loaded.antt =====
-- What airfrog/src/flash.rs loads, at the start and after a configuration was stored.
use airfrog.Prelude.{
  ℕ, ◌%◌, ◌^◌, ◌<◌, ◌==◌, ◌≡◌, refl, arith, true, false, Bool-cases, inl, inr, List, [], ◌∷◌,
}
use airfrog.Bin.Error.{Result, ok, err}
use airfrog.Config.Layout.{length-padded}
use airfrog.Config.Net.{HasNetSizes, net_fields}
use airfrog.Config.Partition.{
  WrappedConfig, ConfigFault, config_fields, config_part_size, same_bytes, build_config_partition,
  create_static_config,
}
use airfrog.Config.Partition.Laid.{HasConfigSizes}
use airfrog.Config.Partition.RoundTrip.{IsStorable, create_static_config-build}
use airfrog.Config.Store.{
  Storage, FlashError, Defaults, default_header, default_config, default_net, default_swd,
  config_part_type, Started, read_from_partition, new_config_partition_default, start_over,
  of_checked, of_read, read_config,
}

-- The build's numbers are in range, and the partition is in the table.
unfoldable pub IsSane : ℕ → Defaults → Type 0
IsSane part_count d =
    (d.part_index % 2 ^ 8 < part_count % 2 ^ 8)
    × (d.major < 2 ^ 16)
    × (d.minor < 2 ^ 16)
    × (d.patch < 2 ^ 16)

pub default_net-HasNetSizes : (d : Defaults) → HasNetSizes (default_net d)
unfolding HasNetSizes default_net net_fields
default_net-HasNetSizes d =
    rw
      (
        length-padded 32 d.sta_ssid_text,
        length-padded 64 d.sta_password_text,
        length-padded 32 _,
        length-padded 64 _,
      )
      refl

pub default_config-IsStorable :
    (part_count : ℕ) (d : Defaults) → IsSane part_count d → IsStorable part_count (default_config d)
unfolding IsStorable IsSane HasConfigSizes config_fields default_config default_header
default_config-IsStorable part_count d (index, major, minor, patch) =
    (refl, refl, refl, major, minor, patch, omega arith, omega arith, index)

pub same_bytes-eq : (xs ys : List ℕ) → same_bytes xs ys ≡ true → xs ≡ ys
same_bytes-eq [] [] h = refl
same_bytes-eq [] (y ∷ ys) h = absurd cc
same_bytes-eq (x ∷ xs) [] h = absurd cc
same_bytes-eq (x ∷ xs) (y ∷ ys) h = elim (Bool-cases (x == y)) [
  | inl e ↦
      let later : same_bytes xs ys ≡ true = rw e at h in
      let first : x ≡ y = ground arith in rw (first, same_bytes-eq xs ys later) refl
  | inr e ↦ let never : false ≡ true = rw e at h in absurd cc
]

module _ (f : Storage) (checksum : List ℕ → ℕ) (part_count : ℕ) (d : Defaults)
    (is_u32 : (bs : List ℕ) → checksum bs < 2 ^ 32) where
  abbrev default_wrapped : WrappedConfig
  default_wrapped = record {
    config =
        (build_config_partition checksum part_count (default_config d) (default_net d)
          default_swd).1;
    net = default_net d;
    swd = default_swd;
  }

  abbrev or_default : Result ConfigFault WrappedConfig → Started
  or_default (ok w) = Started.loaded w
  or_default (err (ConfigFault.refused _)) = Started.loaded default_wrapped
  or_default (err ConfigFault.undefined) = Started.undefined

  -- The configuration that the bytes of the partition hold, or the default.
  unfoldable pub loads : Result FlashError (List ℕ) → Started
  loads (ok bs) = or_default (create_static_config checksum part_count bs)
  loads (err _) = Started.loaded default_wrapped

  start_over-default :
      (s : f.State)
      → IsSane part_count d
      → (start_over f checksum part_count d s).0 ≡ Started.loaded default_wrapped
  unfolding new_config_partition_default
  start_over-default s h =
      let built =
        create_static_config-build checksum part_count is_u32 (default_config d) (default_net d)
          default_swd (default_config-IsStorable part_count d h) (default_net-HasNetSizes d) in
      rw built refl

  of_checked-loads :
      (r : Result ConfigFault WrappedConfig) (s : f.State)
      → IsSane part_count d
      → (of_checked f checksum part_count d r s).0 ≡ or_default r
  of_checked-loads (ok w) s h = refl
  of_checked-loads (err (ConfigFault.refused e)) s h = start_over-default s h
  of_checked-loads (err ConfigFault.undefined) s h = refl

  of_read-loads :
      (r : Result FlashError (List ℕ) × f.State)
      → IsSane part_count d
      → (of_read f checksum part_count d r).0 ≡ loads r.0
  unfolding loads
  of_read-loads (ok bs, s) h = of_checked-loads _ s h
  of_read-loads (err e, s) h = start_over-default s h

  -- Whichever calls of the flash fail, the start of the program does not panic: it has the stored
  -- configuration, if the partition can be read, passes the check and has the number of a mode and of a
  -- speed, and the default one if it cannot be read or does not pass the check; if it passes the check
  -- with another number there, the behaviour is undefined. The numbers of the build are in range.
  pub read_config-loads :
      (s : f.State)
      → IsSane part_count d
      → (read_config f checksum part_count d s).0
        ≡ loads
            (read_from_partition f checksum part_count d d.part_index 0 config_part_type
              config_part_size s).0
  unfolding read_config
  read_config-loads s h = of_read-loads _ h
