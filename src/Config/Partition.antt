-- ===== src/Config/Partition.antt =====
-- The configuration partition of airfrog/src/config.rs: its header, `Config` and `Swd`, how it is built
-- and how it is checked.
pub mod Laid
pub mod RoundTrip
use airfrog.Prelude.{
  ℕ, zero, suc, ◌+◌, ◌-◌, ◌*◌, ◌/◌, ◌%◌, ◌^◌, ◌<◌, ◌==◌, ◌≡◌, refl, leb, ltb, Bool, true, false,
  not, ◌&&◌, ◌||◌, if◌then◌else◌, Option, some, none, List, [], ◌∷◌, ◌++◌, take, drop, length,
  get_or, replicate, map,
}
use mathlib.Core.Option
use airfrog.Prelude.Bytes.{u32_to_le_bytes, u16_to_le_bytes}
use airfrog.Bin.Error.{Result, ok, err}
use airfrog.Swd.Wire.Protocol.{Speed}
use airfrog.Config.Layout.{u16_of, u32_of, joined, fields, write_at}
use airfrog.Config.Net.{Net, net_fields, net_from_bytes}

-- `b"Afrg"`
abbrev pub magic_bytes : List ℕ
magic_bytes = 0x41 ∷ 0x66 ∷ 0x72 ∷ 0x67 ∷ []

abbrev pub config_part_size : ℕ
config_part_size = 0x400

pub record Header : Type 0 where
  pub magic : List ℕ
  pub size : ℕ
  pub crc : ℕ
  pub instance_number : ℕ
  pub partition_index : ℕ
  pub pad : List ℕ
  pub major_version : ℕ
  pub minor_version : ℕ
  pub patch_version : ℕ
  pub build_version : ℕ

abbrev pub crc_from : ℕ
crc_from = 12

abbrev pub crc_offset : ℕ
crc_offset = 8

pub record Config : Type 0 where
  pub header : Header
  pub net_offset : ℕ
  pub swd_offset : ℕ
  pub reserved : List ℕ

abbrev pub config_sizes : List ℕ
config_sizes = 4 ∷ 4 ∷ 4 ∷ 1 ∷ 1 ∷ 2 ∷ 2 ∷ 2 ∷ 2 ∷ 2 ∷ 4 ∷ 4 ∷ 32 ∷ []

unfoldable pub config_fields : Config → List (List ℕ)
config_fields c =
    c.header.magic
    ∷ u32_to_le_bytes c.header.size
    ∷ u32_to_le_bytes c.header.crc
    ∷ (c.header.instance_number ∷ [])
    ∷ (c.header.partition_index ∷ [])
    ∷ c.header.pad
    ∷ u16_to_le_bytes c.header.major_version
    ∷ u16_to_le_bytes c.header.minor_version
    ∷ u16_to_le_bytes c.header.patch_version
    ∷ u16_to_le_bytes c.header.build_version
    ∷ u32_to_le_bytes c.net_offset
    ∷ u32_to_le_bytes c.swd_offset
    ∷ c.reserved
    ∷ []

-- What a list of other fields gives is never used.
unfoldable pub config_of_fields : List (List ℕ) → Option Config
config_of_fields
      (magic ∷ size ∷ crc ∷ instance_number ∷ partition_index ∷ pad ∷ major ∷ minor ∷ patch ∷ build
        ∷ net_offset ∷ swd_offset ∷ reserved ∷ []) =
    some (record {
      header = record {
        magic = magic;
        size = u32_of size;
        crc = u32_of crc;
        instance_number = get_or instance_number 0 0;
        partition_index = get_or partition_index 0 0;
        pad = pad;
        major_version = u16_of major;
        minor_version = u16_of minor;
        patch_version = u16_of patch;
        build_version = u16_of build;
      };
      net_offset = u32_of net_offset;
      swd_offset = u32_of swd_offset;
      reserved = reserved;
    })
config_of_fields _ = none

unfoldable pub config_from_bytes : List ℕ → Option Config
config_from_bytes bs = config_of_fields (fields config_sizes bs)

-- `Net::OFFSET` and `Swd::OFFSET`
abbrev pub net_at : ℕ
net_at = 64

abbrev pub swd_at : ℕ
swd_at = 296

-- `SwdSpeed` and its conversions from and to `Speed`.
abbrev pub speed_number : Speed → ℕ
speed_number Speed.turbo = 0
speed_number Speed.fast = 1
speed_number Speed.medium = 2
speed_number Speed.slow = 3

abbrev pub speed_of : ℕ → Option Speed
speed_of zero = some Speed.turbo
speed_of (suc zero) = some Speed.fast
speed_of (suc (suc zero)) = some Speed.medium
speed_of (suc (suc (suc zero))) = some Speed.slow
speed_of (suc (suc (suc (suc n)))) = none

pub record Swd : Type 0 where
  pub speed : Speed
  pub auto_connect : ℕ
  pub keep_alive : ℕ
  pub refresh : ℕ
  pub pad0 : ℕ

abbrev pub swd_sizes : List ℕ
swd_sizes = 4 ∷ 1 ∷ 1 ∷ 1 ∷ 1 ∷ []

unfoldable pub swd_fields : Swd → List (List ℕ)
swd_fields s =
    u32_to_le_bytes (speed_number s.speed)
    ∷ (s.auto_connect ∷ [])
    ∷ (s.keep_alive ∷ [])
    ∷ (s.refresh ∷ [])
    ∷ (s.pad0 ∷ [])
    ∷ []

unfoldable pub swd_of_fields : List (List ℕ) → Option Swd
swd_of_fields (speed ∷ auto_connect ∷ keep_alive ∷ refresh ∷ pad0 ∷ []) =
    Option.map
      (λ x. record {
        speed = x;
        auto_connect = get_or auto_connect 0 0;
        keep_alive = get_or keep_alive 0 0;
        refresh = get_or refresh 0 0;
        pad0 = get_or pad0 0 0;
      })
      (speed_of (u32_of speed))
swd_of_fields _ = none

unfoldable pub swd_from_bytes : List ℕ → Option Swd
swd_from_bytes bs = swd_of_fields (fields swd_sizes bs)

pub data ConfigError : Type 0 where
  magic size crc instance_number partition_index offset : ConfigError

-- How the making of the static can fail: with an error, or by undefined behaviour. The structs are
-- cast from the bytes, and a number that no mode or speed has is not checked for.
pub data ConfigFault : Type 0 where
  refused : ConfigError → ConfigFault
  undefined : ConfigFault

pub record WrappedConfig : Type 0 where
  pub config : Config
  pub net : Net
  pub swd : Swd

abbrev pub same_bytes : List ℕ → List ℕ → Bool
same_bytes [] [] = true
same_bytes (x ∷ xs) (y ∷ ys) = (x == y) && same_bytes xs ys
same_bytes _ _ = false

abbrev pub update_buf_crc : List ℕ → ℕ → List ℕ
update_buf_crc buf value = write_at buf crc_offset (u32_to_le_bytes value)

abbrev pub with_offsets : Config → Config
with_offsets c = record c { net_offset = net_at; swd_offset = swd_at }

abbrev pub with_crc : Config → ℕ → Config
with_crc c value = record c { header = record (c.header) { crc = value } }

-- `[0xFFu8; n]`
unfoldable pub blank : ℕ → List ℕ
blank n = replicate n 0xff

-- The buffer before its checksum is put in.
unfoldable pub laid_out : Config → Net → Swd → List ℕ
laid_out config net swd =
    write_at
      (write_at (write_at (blank config_part_size) 0 (joined (config_fields (with_offsets config))))
        net_at (joined (net_fields net)))
      swd_at (joined (swd_fields swd))

-- The checksum is `CRC32.checksum` of the crate `crc`, and `part_count` the number of partitions of
-- the table that the build reads.
module _ (checksum : List ℕ → ℕ) (part_count : ℕ) where
  unfoldable pub calc_crc : List ℕ → ℕ
  calc_crc buf = checksum (drop crc_from buf)

  -- The buffer, and the `Config` that the caller is left with.
  unfoldable pub build_config_partition : Config → Net → Swd → List ℕ × Config
  build_config_partition config net swd =
      let buf = laid_out config net swd in
      (update_buf_crc buf (calc_crc buf), with_crc (with_offsets config) (calc_crc buf))

  -- The checks, in the order of the code.
  unfoldable pub check_config : Config → ℕ → Result ConfigError (Unit {0})
  check_config config value =
      if not (same_bytes config.header.magic magic_bytes)
      then err ConfigError.magic
      else if not (config.header.size == config_part_size)
      then err ConfigError.size
      else if not (config.header.crc == value)
      then err ConfigError.crc
      else if not (config.header.instance_number == 0) && not (config.header.instance_number == 1)
      then err ConfigError.instance_number
      else if leb (part_count % 2 ^ 8) config.header.partition_index
      then err ConfigError.partition_index
      else if not (config.net_offset == net_at)
      then err ConfigError.offset
      else if not (config.swd_offset == swd_at)
      then err ConfigError.offset
      else ok tt

  abbrev pub refusing : Result ConfigError (Unit {0}) → Result ConfigFault (Unit {0})
  refusing (ok _) = ok tt
  refusing (err e) = err (ConfigFault.refused e)

  abbrev pub checked_config : Option Config → ℕ → Result ConfigFault (Unit {0})
  checked_config none value = err ConfigFault.undefined
  checked_config (some config) value = refusing (check_config config value)

  unfoldable pub check_config_partition : List ℕ → Result ConfigFault (Unit {0})
  check_config_partition buf = checked_config (config_from_bytes buf) (calc_crc buf)

  abbrev pub with_parts : Config → Option Net → Option Swd → Result ConfigFault WrappedConfig
  with_parts config (some net) (some swd) = ok (record { config = config; net = net; swd = swd })
  with_parts config _ _ = err ConfigFault.undefined

  abbrev pub wrapped : Option Config → List ℕ → Result ConfigFault WrappedConfig
  wrapped none buf = err ConfigFault.undefined
  wrapped (some config) buf =
      with_parts config (net_from_bytes (drop config.net_offset buf))
        (swd_from_bytes (drop config.swd_offset buf))

  abbrev pub after_check :
      Result ConfigFault (Unit {0})
      → Result ConfigFault WrappedConfig
      → Result ConfigFault WrappedConfig
  after_check (err e) r = err e
  after_check (ok _) r = r

  -- What the static is set to; a number that no mode or speed has is undefined behaviour.
  unfoldable pub create_static_config : List ℕ → Result ConfigFault WrappedConfig
  create_static_config buf =
      after_check (check_config_partition buf) (wrapped (config_from_bytes buf) buf)
