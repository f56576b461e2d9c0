-- ===== src/Config/Partition/Laid.antt =====
-- Where the parts of the configuration partition of airfrog/src/config.rs lie.
use airfrog.Prelude.{
  ℕ, suc, ◌+◌, ◌-◌, ◌≡◌, refl, ap, sym, ◌∙◌, arith, List, [], ◌∷◌, ◌++◌, drop, length,
  length-append, replicate, map,
}
use mathlib.Core.List.{append_assoc}
use airfrog.Prelude.Bytes.{u32_to_le_bytes, u16_to_le_bytes}
use airfrog.Config.Layout.{joined, write_at, take-field, length-joined, total, drop-replicate}
use airfrog.Config.Net.{Net, net_fields, HasNetSizes}
use airfrog.Config.Partition.{
  Config, Swd, config_fields, config_sizes, swd_fields, magic_bytes, crc_from, crc_offset, net_at,
  swd_at, with_offsets, with_crc, laid_out, blank,
}

drop-past : (k : ℕ) (xs ys : List ℕ) → drop (length xs + k) (xs ++ ys) ≡ drop k ys
drop-past k [] ys = let same : 0 + k ≡ k = omega arith in rw same refl
drop-past k (x ∷ xs) ys =
    let next : suc (length xs) + k ≡ suc (length xs + k) = omega arith in
    rw next (drop-past k xs ys)

-- A part that is written after what is there already.
write_at-after :
    (xs zs : List ℕ) (i n k : ℕ)
    → length xs ≡ i
    → length zs ≡ k
    → write_at (xs ++ blank n) i zs ≡ (xs ++ zs) ++ blank (n - k)
unfolding write_at blank
write_at-after xs zs i n k h l =
    let first = take-field i xs (replicate n 0xff) h in
    let at : drop (i + length zs) (xs ++ replicate n 0xff) ≡ replicate (n - k) 0xff =
      ap (λ j. drop (j + length zs) (xs ++ replicate n 0xff)) (sym h)
      ∙ drop-past (length zs) xs (replicate n 0xff)
      ∙ drop-replicate (length zs) n 0xff
      ∙ ap (λ j. replicate (n - j) 0xff) l in
    rw (first, at) (sym (append_assoc xs zs (replicate (n - k) 0xff)))

unfoldable pub HasConfigSizes : Config → Type 0
HasConfigSizes c = map length (config_fields c) ≡ config_sizes

pub length-config : (c : Config) → HasConfigSizes c → length (joined (config_fields c)) ≡ 64
unfolding HasConfigSizes
length-config c h = length-joined (config_fields c) ∙ ap total h

pub length-net : (n : Net) → HasNetSizes n → length (joined (net_fields n)) ≡ 232
unfolding HasNetSizes
length-net n h = length-joined (net_fields n) ∙ ap total h

pub length-swd : (s : Swd) → length (joined (swd_fields s)) ≡ 8
unfolding joined swd_fields
length-swd s = refl

-- What follows the `Config`.
abbrev pub parts_after : Net → Swd → List ℕ
parts_after net swd = joined (net_fields net) ++ (joined (swd_fields swd) ++ blank 720)

laid_out-parts :
    (config : Config) (net : Net) (swd : Swd)
    → HasConfigSizes (with_offsets config)
    → HasNetSizes net
    → laid_out config net swd ≡ joined (config_fields (with_offsets config)) ++ parts_after net swd
unfolding laid_out blank
laid_out-parts config net swd hc hn =
    let c = joined (config_fields (with_offsets config)) in
    let n = joined (net_fields net) in
    let s = joined (swd_fields swd) in
    let c_len = length-config (with_offsets config) hc in
    let n_len = length-net net hn in
    let both : length (c ++ n) ≡ 296 = omega (arith, length-append c n, c_len, n_len) in
    let first : write_at (blank 1024) 0 c ≡ c ++ blank 960 =
      write_at-after [] c 0 1024 64 refl c_len in
    let second : write_at (c ++ blank 960) 64 n ≡ (c ++ n) ++ blank 728 =
      write_at-after c n 64 960 232 c_len n_len in
    let third : write_at ((c ++ n) ++ blank 728) 296 s ≡ ((c ++ n) ++ s) ++ blank 720 =
      write_at-after (c ++ n) s 296 728 8 both (length-swd swd) in
    ap (λ b. write_at (write_at b net_at n) swd_at s) first
    ∙ ap (λ b. write_at b swd_at s) second
    ∙ third
    ∙ append_assoc (c ++ n) s (blank 720)
    ∙ append_assoc c n (s ++ blank 720)

-- The bytes that follow the checksum in a `Config`.
unfoldable config_rest : Config → List (List ℕ)
config_rest c =
    (c.header.instance_number ∷ [])
    ∷ (c.header.partition_index ∷ [])
    ∷ c.header.pad
    ∷ u16_to_le_bytes c.header.major_version
    ∷ u16_to_le_bytes c.header.minor_version
    ∷ u16_to_le_bytes c.header.patch_version
    ∷ u16_to_le_bytes c.header.build_version
    ∷ u32_to_le_bytes c.net_offset
    ∷ u32_to_le_bytes c.swd_offset
    ∷ c.reserved
    ∷ []

header_and : Config → ℕ → List ℕ → List ℕ
header_and c v rest =
    magic_bytes
    ++ (u32_to_le_bytes c.header.size ++ (u32_to_le_bytes v ++ (joined (config_rest c) ++ rest)))

header_and-fields :
    (c : Config) (rest : List ℕ)
    → c.header.magic ≡ magic_bytes
    → joined (config_fields c) ++ rest ≡ header_and c c.header.crc rest
unfolding header_and joined config_fields config_rest
header_and-fields c rest h = rw h refl

write_crc :
    (c : Config) (v w : ℕ) (rest : List ℕ)
    → write_at (header_and c v rest) crc_offset (u32_to_le_bytes w) ≡ header_and c w rest
unfolding header_and write_at
write_crc c v w rest = refl

drop-header_and :
    (c : Config) (v : ℕ) (rest : List ℕ)
    → drop crc_from (header_and c v rest) ≡ joined (config_rest c) ++ rest
unfolding header_and
drop-header_and c v rest = refl

header_and-crc :
    (c : Config) (v : ℕ) (rest : List ℕ)
    → c.header.magic ≡ magic_bytes
    → header_and c v rest ≡ joined (config_fields (with_crc c v)) ++ rest
unfolding header_and config_rest
header_and-crc c v rest m = sym (header_and-fields (with_crc c v) rest m)

-- The buffer with its checksum: the parts of the `Config` that has it.
pub laid_out-crc :
    (config : Config) (net : Net) (swd : Swd) (v : ℕ)
    → HasConfigSizes (with_offsets config)
    → HasNetSizes net
    → config.header.magic ≡ magic_bytes
    → write_at (laid_out config net swd) crc_offset (u32_to_le_bytes v)
      ≡ joined (config_fields (with_crc (with_offsets config) v)) ++ parts_after net swd
laid_out-crc config net swd v hc hn m =
    let c = with_offsets config in
    let rest = parts_after net swd in
    ap (λ b. write_at b crc_offset (u32_to_le_bytes v))
      (laid_out-parts config net swd hc hn ∙ header_and-fields c rest m)
    ∙ write_crc c c.header.crc v rest
    ∙ header_and-crc c v rest m

-- The bytes that the checksum is of do not depend on it.
pub drop-laid_out :
    (config : Config) (net : Net) (swd : Swd) (v : ℕ)
    → HasConfigSizes (with_offsets config)
    → HasNetSizes net
    → config.header.magic ≡ magic_bytes
    → drop crc_from (laid_out config net swd)
      ≡ drop crc_from
          (joined (config_fields (with_crc (with_offsets config) v)) ++ parts_after net swd)
drop-laid_out config net swd v hc hn m =
    let c = with_offsets config in
    let rest = parts_after net swd in
    ap (drop crc_from) (laid_out-parts config net swd hc hn ∙ header_and-fields c rest m)
    ∙ drop-header_and c c.header.crc rest
    ∙ sym (drop-header_and c v rest)
    ∙ ap (drop crc_from) (header_and-crc c v rest m)
