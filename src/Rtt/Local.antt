-- ===== src/Rtt/Local.antt =====
-- `LocalBuf` of airfrog/src/firmware/rtt.rs, the ring of the bytes that came from the target. Its
-- array of `buffer_size` bytes is a function of the index.
use airfrog.Prelude.{
  ℕ, zero, suc, ◌+◌, ◌-◌, ◌%◌, ◌==◌, ltb, leb, min, if◌then◌else◌, List, [], ◌∷◌, ◌++◌, drop,
  length,
}

abbrev pub buffer_size : ℕ
buffer_size = 4096

pub record LocalBuf : Type 0 where
  pub data_at : ℕ → ℕ
  pub write_pos : ℕ
  pub read_pos : ℕ

abbrev pub default : LocalBuf
default = record { data_at = λ i. 0; write_pos = 0; read_pos = 0 }

unfoldable pub available_space : LocalBuf → ℕ
available_space b =
    if ltb b.write_pos b.read_pos
    then b.read_pos - b.write_pos - 1
    else buffer_size - (b.write_pos - b.read_pos) - 1

unfoldable pub available_data : LocalBuf → ℕ
available_data b =
    if leb b.read_pos b.write_pos
    then b.write_pos - b.read_pos
    else buffer_size - b.read_pos + b.write_pos

-- `data[i] = byte`
abbrev pub store : (ℕ → ℕ) → ℕ → ℕ → ℕ → ℕ
store bytes i byte j = if j == i then byte else bytes j

-- The body of the loop of `write_data`.
unfoldable pub write_byte : LocalBuf → ℕ → LocalBuf
write_byte b byte = record {
  data_at = store b.data_at b.write_pos byte;
  write_pos = (b.write_pos + 1) % buffer_size;
  read_pos = b.read_pos;
}

unfoldable pub write_data : LocalBuf → List ℕ → LocalBuf
write_data b [] = b
write_data b (byte ∷ bytes) = write_data (write_byte b byte) bytes

-- `data[i..i + n]`
abbrev pub slice : (ℕ → ℕ) → ℕ → ℕ → List ℕ
slice bytes i zero = []
slice bytes i (suc n) = bytes i ∷ slice bytes (i + 1) n

-- The bytes that `read_data` copies.
unfoldable pub copied : LocalBuf → ℕ → List ℕ
copied b to_read =
    if leb (b.read_pos + to_read) buffer_size
    then slice b.data_at b.read_pos to_read
    else (slice b.data_at b.read_pos (buffer_size - b.read_pos)
        ++ slice b.data_at 0 (to_read - (buffer_size - b.read_pos)))

-- The number of bytes read, the caller's buffer with them at its start, and the ring.
unfoldable pub read_data : LocalBuf → List ℕ → ℕ × List ℕ × LocalBuf
read_data b buf =
    let to_read = min (length buf) (available_data b) in
    (
      to_read,
      copied b to_read ++ drop to_read buf,
      record {
        data_at = b.data_at;
        write_pos = b.write_pos;
        read_pos = (b.read_pos + to_read) % buffer_size;
      },
    )
