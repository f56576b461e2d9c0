-- ===== src/Config/Partition/RoundTrip.antt =====
-- A configuration partition that airfrog/src/config.rs has built is read back as what was put in.
use airfrog.Prelude.{
  ℕ, ◌%◌, ◌^◌, ◌<◌, ◌≡◌, refl, ap, sym, ◌∙◌, arith, leb, true, false, not, ◌&&◌, ◌==◌, some, List,
  ◌++◌, drop, length, length-append,
}
use mathlib.Core.List.{append_assoc}
use airfrog.Prelude.Bytes.{u32_to_le_bytes}
use airfrog.Bin.Error.{ok}
use airfrog.Swd.Wire.Protocol.{Speed}
use airfrog.Config.Layout.{u32_of, u32_of-bytes, u16_of-bytes, joined, fields-joined, drop-field}
use airfrog.Config.Net.{Net, net_fields, net_from_bytes, HasNetSizes, net_from_bytes-joined}
use airfrog.Config.Partition.{
  Config, Swd, config_fields, config_sizes, config_of_fields, config_from_bytes, swd_fields,
  swd_sizes, swd_of_fields, swd_from_bytes, speed_number, speed_of, magic_bytes, config_part_size,
  crc_from, net_at, swd_at, calc_crc, with_offsets, with_crc, laid_out, blank,
  build_config_partition, check_config, check_config_partition, create_static_config,
}
use airfrog.Config.Partition.Laid.{
  HasConfigSizes, parts_after, laid_out-crc, drop-laid_out, length-config, length-net,
}

-- The numbers of a `Config` are those of its fields' types.
unfoldable pub HasNumbers : Config → Type 0
HasNumbers c =
    (c.header.size < 2 ^ 32)
    × (c.header.crc < 2 ^ 32)
    × (c.header.major_version < 2 ^ 16)
    × (c.header.minor_version < 2 ^ 16)
    × (c.header.patch_version < 2 ^ 16)
    × (c.header.build_version < 2 ^ 16)
    × (c.net_offset < 2 ^ 32)
    × (c.swd_offset < 2 ^ 32)

config_of_fields-fields : (c : Config) → HasNumbers c → config_of_fields (config_fields c) ≡ some c
unfolding config_of_fields config_fields HasNumbers
config_of_fields-fields c (size, crc, major, minor, patch, build, net, swd) =
    rw
      (
        u32_of-bytes c.header.size size,
        u32_of-bytes c.header.crc crc,
        u16_of-bytes c.header.major_version major,
        u16_of-bytes c.header.minor_version minor,
        u16_of-bytes c.header.patch_version patch,
        u16_of-bytes c.header.build_version build,
        u32_of-bytes c.net_offset net,
        u32_of-bytes c.swd_offset swd,
      )
      refl

config_from_bytes-joined :
    (c : Config) (rest : List ℕ)
    → HasConfigSizes c
    → HasNumbers c
    → config_from_bytes (joined (config_fields c) ++ rest) ≡ some c
unfolding config_from_bytes HasConfigSizes
config_from_bytes-joined c rest h v =
    rw (fields-joined config_sizes (config_fields c) rest h) (config_of_fields-fields c v)

speed_of-bytes : (x : Speed) → speed_of (u32_of (u32_to_le_bytes (speed_number x))) ≡ some x
speed_of-bytes Speed.slow = refl
speed_of-bytes Speed.medium = refl
speed_of-bytes Speed.fast = refl
speed_of-bytes Speed.turbo = refl

swd_from_bytes-joined :
    (s : Swd) (rest : List ℕ) → swd_from_bytes (joined (swd_fields s) ++ rest) ≡ some s
unfolding swd_from_bytes swd_of_fields swd_fields
swd_from_bytes-joined s rest =
    rw (fields-joined swd_sizes (swd_fields s) rest refl) (rw (speed_of-bytes s.speed) refl)

-- A `Config` that the code may store: its lengths, magic bytes and size are right, and its instance and
-- its partition are among those that there are.
unfoldable pub IsStorable : ℕ → Config → Type 0
IsStorable part_count c =
    HasConfigSizes c
    × (c.header.magic ≡ magic_bytes)
    × (c.header.size ≡ config_part_size)
    × (c.header.major_version < 2 ^ 16)
    × (c.header.minor_version < 2 ^ 16)
    × (c.header.patch_version < 2 ^ 16)
    × (c.header.build_version < 2 ^ 16)
    × (c.header.instance_number < 2)
    × (c.header.partition_index < part_count % 2 ^ 8)

net_part :
    (c : Config) (n : Net) (s : Swd)
    → HasConfigSizes c
    → drop net_at (joined (config_fields c) ++ parts_after n s) ≡ parts_after n s
net_part c n s h = drop-field 64 (joined (config_fields c)) (parts_after n s) (length-config c h)

swd_part :
    (c : Config) (n : Net) (s : Swd)
    → HasConfigSizes c
    → HasNetSizes n
    → drop swd_at (joined (config_fields c) ++ parts_after n s) ≡ joined (swd_fields s) ++ blank 720
swd_part c n s hc hn =
    let cb = joined (config_fields c) in
    let nb = joined (net_fields n) in
    let rest = joined (swd_fields s) ++ blank 720 in
    let both : length (cb ++ nb) ≡ 296 =
      omega (arith, length-append cb nb, length-config c hc, length-net n hn) in
    ap (drop 296) (sym (append_assoc cb nb rest)) ∙ drop-field 296 (cb ++ nb) rest both

module _ (checksum : List ℕ → ℕ) (part_count : ℕ)
    (is_u32 : (bs : List ℕ) → checksum bs < 2 ^ 32) where
  -- The `Config` that is built is in order.
  with_crc-HasSizes :
      (c : Config) (v : ℕ) → HasConfigSizes c → HasConfigSizes (with_crc (with_offsets c) v)
  unfolding HasConfigSizes config_fields
  with_crc-HasSizes c v h = h

  built-HasNumbers :
      (c : Config) (v : ℕ)
      → IsStorable part_count c
      → v < 2 ^ 32
      → HasNumbers (with_crc (with_offsets c) v)
  unfolding HasNumbers IsStorable
  built-HasNumbers c v (_, _, size, major, minor, patch, build, _, _) h =
      (omega (arith, size), h, major, minor, patch, build, omega arith, omega arith)

  built-checks :
      (c : Config) (v : ℕ)
      → IsStorable part_count c
      → check_config checksum part_count (with_crc (with_offsets c) v) v ≡ ok tt
  unfolding check_config IsStorable
  built-checks c v (_, magic, size, _, _, _, _, instance_number, index) =
      let same : v == v ≡ true = ground arith in
      let right : c.header.size == config_part_size ≡ true = ground arith in
      let within : leb (part_count % 2 ^ 8) c.header.partition_index ≡ false = ground arith in
      let first_two : (not (c.header.instance_number == 0) && not (c.header.instance_number == 1))
          ≡ false =
        ground arith in
      rw (magic, same, right, first_two, within) refl

  created :
      (buf : List ℕ) (c : Config) (n : Net) (s : Swd)
      → config_from_bytes buf ≡ some c
      → check_config checksum part_count c (checksum (drop crc_from buf)) ≡ ok tt
      → net_from_bytes (drop c.net_offset buf) ≡ some n
      → swd_from_bytes (drop c.swd_offset buf) ≡ some s
      → create_static_config checksum part_count buf ≡ ok (record { config = c; net = n; swd = s })
  unfolding create_static_config check_config_partition calc_crc
  created buf c n s parsed checked net swd = rw (parsed, checked, net, swd) refl

  -- A partition that is built from a `Config` that may be stored, a `Net` and a `Swd` passes the check
  -- and is read back as them, with the offsets and the checksum that the build has put in.
  pub create_static_config-build :
      (config : Config) (net : Net) (swd : Swd)
      → IsStorable part_count config
      → HasNetSizes net
      → create_static_config checksum part_count
          (build_config_partition checksum part_count config net swd).0
        ≡ ok (record {
          config = (build_config_partition checksum part_count config net swd).1;
          net = net;
          swd = swd;
        })
  unfolding build_config_partition calc_crc IsStorable HasConfigSizes config_fields
  create_static_config-build config net swd st hn =
      let v = checksum (drop crc_from (laid_out config net swd)) in
      let c = with_crc (with_offsets config) v in
      let rest = parts_after net swd in
      let sizes = with_crc-HasSizes config v st.0 in
      let whole = laid_out-crc config net swd v sizes hn st.1 in
      let same = ap checksum (drop-laid_out config net swd v sizes hn st.1) in
      rw whole (
        created (joined (config_fields c) ++ rest) c net swd
          (config_from_bytes-joined c rest sizes (built-HasNumbers config v st (is_u32 _)))
          (rw (sym same) (built-checks config v st))
          (rw (net_part c net swd sizes) (net_from_bytes-joined net _ hn))
          (rw (swd_part c net swd sizes hn) (swd_from_bytes-joined swd _)))
