-- ===== src/Config/Store/Stored.antt =====
-- A configuration that airfrog/src/flash.rs has stored is the one that it loads.
use airfrog.Prelude.{
  ℕ, ◌^◌, ◌<◌, ◌≡◌, refl, ap, sym, ◌∙◌, arith, Bool, true, false, Bool-cases, inl, inr, Option,
  some, none, List, ◌++◌, length, length-append,
}
use airfrog.Bin.Error.{Result, ok, err}
use airfrog.Config.Layout.{joined, length-replicate}
use airfrog.Config.Net.{Net, HasNetSizes, net_fields}
use airfrog.Config.Partition.{
  Config, Swd, WrappedConfig, config_fields, config_part_size, same_bytes, swd_fields, blank,
  with_offsets, with_crc, build_config_partition, create_static_config,
}
use airfrog.Config.Partition.Laid.{
  HasConfigSizes, parts_after, laid_out-crc, length-config, length-net, length-swd,
}
use airfrog.Config.Partition.RoundTrip.{IsStorable, create_static_config-build}
use airfrog.Config.Store.{
  Storage, FlashError, Defaults, config_part_type, of_table, get_partition_entry, of_bytes,
  of_written, read_from_partition, write_to_partition, rebuilt, store_over, store_config, Started,
  read_config,
}
use airfrog.Config.Store.Loaded.{same_bytes-eq}

-- What the flash driver promises: a read changes nothing, and a write that succeeds leaves the
-- partition table as it is and the bytes where they were written.
pub record IsFaithful (f : Storage) : Type 0 where
  pub table_keeps : (s : f.State) → (f.read_partition_table s).1 ≡ s
  pub read_keeps : (part : f.Entry) (offset n : ℕ) (s : f.State) → (f.read part offset n s).1 ≡ s
  pub table_stays :
      (part : f.Entry) (offset : ℕ) (bs : List ℕ) (s : f.State)
      → (f.write part offset bs s).0 ≡ true
      → (f.read_partition_table (f.write part offset bs s).1).0 ≡ (f.read_partition_table s).0
  pub written :
      (part : f.Entry) (offset : ℕ) (bs : List ℕ) (s : f.State)
      → (f.write part offset bs s).0 ≡ true
      → (f.read part offset (length bs) (f.write part offset bs s).1).0 ≡ some bs

length-built :
    (config : Config) (net : Net) (swd : Swd) (v : ℕ)
    → HasConfigSizes (with_crc (with_offsets config) v)
    → HasNetSizes net
    → length (joined (config_fields (with_crc (with_offsets config) v)) ++ parts_after net swd)
      ≡ 1024
unfolding blank
length-built config net swd v hc hn =
    let c = joined (config_fields (with_crc (with_offsets config) v)) in
    let n = joined (net_fields net) in
    let s = joined (swd_fields swd) in
    omega (
      arith,
      length-append c (parts_after net swd),
      length-append n (s ++ blank 720),
      length-append s (blank 720),
      length-config (with_crc (with_offsets config) v) hc,
      length-net net hn,
      length-swd swd,
      length-replicate 720 0xff,
    )

length-build :
    (checksum : List ℕ → ℕ) (part_count : ℕ) (config : Config) (net : Net) (swd : Swd)
    → IsStorable part_count config
    → HasNetSizes net
    → length (build_config_partition checksum part_count config net swd).0 ≡ config_part_size
unfolding build_config_partition IsStorable HasConfigSizes config_fields
length-build checksum part_count config net swd st hn =
    ap length (laid_out-crc config net swd _ st.0 hn st.1) ∙ length-built config net swd _ st.0 hn

module _ (f : Storage) (checksum : List ℕ → ℕ) (part_count : ℕ) (d : Defaults)
    (is_u32 : (bs : List ℕ) → checksum bs < 2 ^ 32) (faithful : IsFaithful f) where
  -- The entry of the partition, as the table says in a state.
  entry_in : f.State → Result FlashError f.Entry
  entry_in s =
      of_table f checksum part_count d d.part_index config_part_size config_part_type
        (f.read_partition_table s).0

  stored_in : f.State → Result FlashError (List ℕ) × f.State
  stored_in s =
      read_from_partition f checksum part_count d d.part_index 0 config_part_type config_part_size s

  found_entry :
      (s : f.State)
      → get_partition_entry f checksum part_count d d.part_index config_part_size config_part_type s
        ≡ (entry_in s, s)
  unfolding get_partition_entry entry_in
  found_entry s = rw (faithful.table_keeps s) refl

  -- What the partition is loaded from.
  stored_in-read :
      (s : f.State) (part : f.Entry)
      → entry_in s ≡ ok part
      → stored_in s ≡ (of_bytes (f.read part 0 config_part_size s).0, s)
  unfolding stored_in read_from_partition
  stored_in-read s part e =
      rw (found_entry s, e)
        (ap (λ s'. (of_bytes (f.read part 0 config_part_size s).0, s'))
          (faithful.read_keeps part 0 config_part_size s))

  stored_in-error : (s : f.State) (e : FlashError) → entry_in s ≡ err e → stored_in s ≡ (err e, s)
  unfolding stored_in read_from_partition
  stored_in-error s e h = rw (found_entry s, h) refl

  module _ (buf : List ℕ) (w : WrappedConfig) (size : length buf ≡ config_part_size)
      (created : create_static_config checksum part_count buf ≡ ok w) where
    -- A result after which the bytes of the partition are `buf`, if it is a success.
    Leaves : Result FlashError (Unit {0}) × f.State → Type 0
    Leaves r = r.0 ≡ ok tt → stored_in r.1 ≡ (ok buf, r.1)

    Leaves-written :
        (s : f.State) (part : f.Entry) (b : Bool)
        → entry_in s ≡ ok part
        → (f.write part 0 buf s).0 ≡ b
        → Leaves (of_written (f.write part 0 buf s).0, (f.write part 0 buf s).1)
    unfolding Leaves entry_in
    Leaves-written s part true e h good =
        let s' = (f.write part 0 buf s).1 in
        let there : entry_in s' ≡ ok part =
          ap (of_table f checksum part_count d d.part_index config_part_size config_part_type)
            (faithful.table_stays part 0 buf s h)
          ∙ e in
        let bytes : (f.read part 0 config_part_size s').0 ≡ some buf =
          ap (λ n. (f.read part 0 n s').0) (sym size) ∙ faithful.written part 0 buf s h in
        stored_in-read s' part there ∙ ap (λ o. (of_bytes o, s')) bytes
    Leaves-written s part false e h good =
        let never : of_written false ≡ ok tt = rw h at good in absurd cc

    Leaves-over :
        (s : f.State) (part : f.Entry) (o : Option (List ℕ))
        → entry_in s ≡ ok part
        → (f.read part 0 config_part_size s).0 ≡ o
        → Leaves (store_over f checksum part_count d buf (of_bytes o, s))
    unfolding write_to_partition Leaves
    Leaves-over s part none e h = λ good. absurd cc
    Leaves-over s part (some current) e h = elim (Bool-cases (same_bytes current buf)) [
      | inl same ↦ rw same (λ good.
          stored_in-read s part e
          ∙ ap (λ o. (of_bytes o, s)) h
          ∙ ap (λ bs. (ok bs, s)) (same_bytes-eq current buf same))
      | inr other ↦
          rw (other, found_entry s, e) (Leaves-written s part (f.write part 0 buf s).0 e refl)
    ]

    Leaves-stored :
        (s : f.State) (r : Result FlashError f.Entry)
        → entry_in s ≡ r
        → Leaves (store_over f checksum part_count d buf (stored_in s))
    unfolding Leaves
    Leaves-stored s (ok part) e =
        rw (stored_in-read s part e)
          (Leaves-over s part (f.read part 0 config_part_size s).0 e refl)
    Leaves-stored s (err x) e = rw (stored_in-error s x e) (λ good. absurd cc)

    -- What is loaded from the bytes.
    loaded_from :
        (s : f.State)
        → stored_in s ≡ (ok buf, s)
        → (read_config f checksum part_count d s).0 ≡ Started.loaded w
    unfolding read_config stored_in
    loaded_from s h = rw (h, created) refl

  -- A configuration that may be stored, and is stored without an error, is the one that the program
  -- has when it starts the next time, with the offsets and the checksum that the build has put in; if
  -- the flash driver is faithful.
  pub read_config-store_config :
      (w : WrappedConfig) (s : f.State)
      → IsStorable part_count w.config
      → HasNetSizes w.net
      → (store_config f checksum part_count d w s).0.0 ≡ ok tt
      → (read_config f checksum part_count d (store_config f checksum part_count d w s).0.1).0
        ≡ Started.loaded (store_config f checksum part_count d w s).1
  unfolding store_config Leaves entry_in stored_in
  read_config-store_config w s st hn good =
      let buf = (rebuilt f checksum part_count d w).0 in
      let created =
        create_static_config-build checksum part_count is_u32 w.config w.net w.swd st hn in
      let size = length-build checksum part_count w.config w.net w.swd st hn in
      let left = Leaves-stored buf _ size created s (entry_in s) refl good in
      loaded_from buf _ size created _ left
