-- ===== src/Config/Store.antt =====
-- How airfrog/src/flash.rs keeps the configuration, and the defaults of airfrog/src/config.rs. The
-- driver of the flash and the partition table, which are other crates', are parameters.
pub mod Loaded
pub mod Stored
use airfrog.Prelude.{
  ℕ, ◌+◌, ◌-◌, ◌/◌, ◌%◌, ◌==◌, ltb, not, Bool, true, false, ◌^◌, if◌then◌else◌, Option, some, none,
  List, [], ◌∷◌, ◌++◌, length, get_or, replicate, min,
}
use airfrog.Bin.Error.{Result, ok, err}
use airfrog.Swd.Wire.Protocol.{Speed}
use airfrog.Config.Layout.{padded}
use airfrog.Config.Net.{Net, NetMode}
use airfrog.Config.Partition.{
  Header, Config, Swd, WrappedConfig, ConfigFault, magic_bytes, config_part_size, net_at, swd_at,
  same_bytes, build_config_partition, create_static_config,
}

-- The calls of `esp_storage` and of the partition tables of `esp_bootloader_esp_idf`. A read gives its
-- bytes, or nothing on an error; a write says whether it was without an error.
pub record Storage : Type 1 where
  pub State : Type 0
  pub Table : Type 0
  pub Entry : Type 0
  pub read_partition_table : State → Option Table × State
  pub get_partition : Table → ℕ → Option Entry
  pub partition_type : Entry → ℕ
  pub len : Entry → ℕ
  pub read : Entry → (offset size : ℕ) → State → Option (List ℕ) × State
  pub write : Entry → ℕ → List ℕ → State → Bool × State

-- What the start of the program ends in: the static is set, or the code panics, or its behaviour is
-- undefined.
pub data Started : Type 0 where
  loaded : WrappedConfig → Started
  panicked undefined : Started

pub data FlashError : Type 0 where
  bad_partition_table invalid_partition flash_storage : FlashError

-- What the build and the device put into a new configuration: the partition's index, the version, the
-- text of the station from the environment of the build (empty without the feature `wifi-sta`), and
-- the MAC address.
pub record Defaults : Type 0 where
  pub part_index : ℕ
  pub major : ℕ
  pub minor : ℕ
  pub patch : ℕ
  pub sta_ssid_text : List ℕ
  pub sta_password_text : List ℕ
  pub mac : List ℕ

-- `{:x}` of a digit
abbrev pub hex_digit : ℕ → ℕ
hex_digit d = if ltb d 10 then 0x30 + d else 0x57 + d

-- `{:02x}` of a byte
abbrev pub hex_byte : ℕ → List ℕ
hex_byte b = hex_digit (b / 16 % 16) ∷ hex_digit (b % 16) ∷ []

-- `b"airfrog-"` and `DEFAULT_AP_PASSWORD`
abbrev pub ap_ssid_prefix : List ℕ
ap_ssid_prefix = 0x61 ∷ 0x69 ∷ 0x72 ∷ 0x66 ∷ 0x72 ∷ 0x6f ∷ 0x67 ∷ 0x2d ∷ []

abbrev pub default_ap_password : List ℕ
default_ap_password = 0x61 ∷ 0x69 ∷ 0x72 ∷ 0x66 ∷ 0x72 ∷ 0x6f ∷ 0x67 ∷ 0x78 ∷ []

unfoldable pub default_header : Defaults → Header
default_header d = record {
  magic = magic_bytes;
  size = config_part_size;
  crc = 0;
  instance_number = 0;
  partition_index = d.part_index % 2 ^ 8;
  pad = replicate 2 0xff;
  major_version = d.major;
  minor_version = d.minor;
  patch_version = d.patch;
  build_version = 0;
}

unfoldable pub default_config : Defaults → Config
default_config d = record {
  header = default_header d;
  net_offset = net_at;
  swd_offset = swd_at;
  reserved = replicate 32 0xff;
}

unfoldable pub default_net : Defaults → Net
default_net d = record {
  mode = NetMode.sta_fallback_to_ap;
  sta_ssid = padded 32 d.sta_ssid_text;
  sta_password = padded 64 d.sta_password_text;
  sta_v4_dhcp = 1;
  pad0 = replicate 3 0;
  sta_v4_ip = replicate 4 0xff;
  sta_v4_netmask = replicate 4 0xff;
  sta_v4_gw = replicate 4 0xff;
  sta_v4_dns0 = replicate 4 0xff;
  sta_v4_dns1 = replicate 4 0xff;
  sta_v4_ntp = replicate 4 0xff;
  ap_ssid =
      padded 32 (ap_ssid_prefix ++ (hex_byte (get_or d.mac 4 0) ++ hex_byte (get_or d.mac 5 0)));
  ap_password = padded 64 default_ap_password;
  ap_v4_ip = 192 ∷ 168 ∷ 4 ∷ 1 ∷ [];
  ap_v4_netmask = 255 ∷ 255 ∷ 255 ∷ 0 ∷ [];
}

abbrev pub default_swd : Swd
default_swd = record {
  speed = Speed.turbo;
  auto_connect = 1;
  keep_alive = 1;
  refresh = 1;
  pad0 = 0;
}

-- `CONFIG_PART_TYPE` stands for the type FAT.
abbrev pub config_part_type : ℕ
config_part_type = 0x81

-- The `map_err`s of a read and of a write.
abbrev pub of_bytes : Option (List ℕ) → Result FlashError (List ℕ)
of_bytes none = err FlashError.flash_storage
of_bytes (some bs) = ok bs

abbrev pub of_written : Bool → Result FlashError (Unit {0})
of_written false = err FlashError.flash_storage
of_written true = ok tt

module _ (f : Storage) (checksum : List ℕ → ℕ) (part_count : ℕ) (d : Defaults) where
  -- The checks of an entry of the partition table.
  abbrev pub of_entry : (required_len p_type : ℕ) → Option f.Entry → Result FlashError f.Entry
  of_entry required_len p_type none = err FlashError.invalid_partition
  of_entry required_len p_type (some part) =
      if not (f.partition_type part == p_type)
      then err FlashError.invalid_partition
      else if ltb (f.len part) required_len
      then err FlashError.invalid_partition
      else ok part

  abbrev pub of_table : (index required_len p_type : ℕ) → Option f.Table → Result FlashError f.Entry
  of_table index required_len p_type none = err FlashError.bad_partition_table
  of_table index required_len p_type (some pt) =
      of_entry required_len p_type (f.get_partition pt index)

  unfoldable pub get_partition_entry :
      (index required_len p_type : ℕ) → f.State → Result FlashError f.Entry × f.State
  get_partition_entry index required_len p_type s = (
    of_table index required_len p_type (f.read_partition_table s).0,
    (f.read_partition_table s).1,
  )

  abbrev pub of_found :
      {A : Type 0}
      → Result FlashError f.Entry × f.State
      → (f.Entry → f.State → Result FlashError A × f.State)
      → Result FlashError A × f.State
  of_found (ok part, s) go = go part s
  of_found (err e, s) go = (err e, s)

  unfoldable pub read_from_partition :
      (index offset p_type size : ℕ) → f.State → Result FlashError (List ℕ) × f.State
  read_from_partition index offset p_type size s =
      of_found (get_partition_entry index config_part_size p_type s)
        (λ part s₁. (of_bytes (f.read part offset size s₁).0, (f.read part offset size s₁).1))

  unfoldable pub write_to_partition :
      (index offset p_type : ℕ) → List ℕ → f.State → Result FlashError (Unit {0}) × f.State
  write_to_partition index offset p_type buf s =
      of_found (get_partition_entry index config_part_size p_type s)
        (λ part s₁. (of_written (f.write part offset buf s₁).0, (f.write part offset buf s₁).1))

  -- The configuration as the static holds it, with its checksum and offsets brought up to date.
  abbrev pub rebuilt : WrappedConfig → List ℕ × WrappedConfig
  rebuilt w =
      let built = build_config_partition checksum part_count w.config w.net w.swd in
      (built.0, record { config = built.1; net = w.net; swd = w.swd })

  abbrev pub store_over :
      List ℕ → Result FlashError (List ℕ) × f.State → Result FlashError (Unit {0}) × f.State
  store_over buf (err e, s) = (err e, s)
  store_over buf (ok current, s) =
      if same_bytes current buf
      then (ok tt, s)
      else write_to_partition d.part_index 0 config_part_type buf s

  -- The result, the static after it, and the storage.
  unfoldable pub store_config :
      WrappedConfig → f.State → (Result FlashError (Unit {0}) × f.State) × WrappedConfig
  store_config w s = (
    store_over (rebuilt w).0
        (read_from_partition d.part_index 0 config_part_type config_part_size s),
    (rebuilt w).1,
  )

  -- `new_config_partition_default(0, PART_INDEX_AIRFROG_CONF_0 as u8, …)`
  unfoldable pub new_config_partition_default : List ℕ
  new_config_partition_default =
      (build_config_partition checksum part_count (default_config d) (default_net d) default_swd).0

  -- The default is written to the partition, whether or not that succeeds, and becomes the static; if
  -- it does not pass the check, the code panics, which is `none`.
  -- `expect`
  abbrev pub panicking : Result ConfigFault WrappedConfig → Started
  panicking (ok w) = Started.loaded w
  panicking (err (ConfigFault.refused e)) = Started.panicked
  panicking (err ConfigFault.undefined) = Started.undefined

  abbrev pub start_over : f.State → Started × f.State
  start_over s = (
    panicking (create_static_config checksum part_count new_config_partition_default),
    (write_to_partition d.part_index 0 config_part_type new_config_partition_default s).1,
  )

  abbrev pub of_checked : Result ConfigFault WrappedConfig → f.State → Started × f.State
  of_checked (ok w) s = (Started.loaded w, s)
  of_checked (err (ConfigFault.refused e)) s = start_over s
  of_checked (err ConfigFault.undefined) s = (Started.undefined, s)

  abbrev pub of_read : Result FlashError (List ℕ) × f.State → Started × f.State
  of_read (ok bs, s) = of_checked (create_static_config checksum part_count bs) s
  of_read (err e, s) = start_over s

  -- What the start ends in, and the storage.
  unfoldable pub read_config : f.State → Started × f.State
  read_config s = of_read (read_from_partition d.part_index 0 config_part_type config_part_size s)
