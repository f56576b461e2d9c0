-- ===== src/Firmware.antt =====
-- `FirmwareReader` and `FirmwareWriter` of airfrog/src/firmware/mod.rs: bytes of the target's memory
-- over the requests to the target task, which is the parameter `ask`. Sums of addresses wrap, as they
-- do in a build without overflow checks.
pub mod Reading
mod Examples
use airfrog.Prelude.{
  ℕ, ◌+◌, ◌-◌, ◌*◌, ◌/◌, ◌%◌, ◌^◌, ◌==◌, leb, ltb, Bool, true, false, not, ◌&&◌, if◌then◌else◌,
  Option, some, none, List, [], ◌∷◌, length, set, map,
}
use airfrog.Prelude.Bytes.{u32_from_le_bytes, u32_to_le_bytes}
use airfrog.Bin.Error.{Result, ok, err}
use airfrog.Target.HexText.{Text, format_word, parse_hex_word}
use airfrog.Target.Types.{AirfrogError, Command, Payload, Response}

-- `Error`: what the reader and the writer give of it.
pub data FirmwareError : Type 0 where
  target not_aligned : FirmwareError

-- `addr & !3`
abbrev pub aligned_down : ℕ → ℕ
aligned_down addr = addr - addr % 4

unfoldable pub word_count : ℕ → ℕ → ℕ
word_count addr len =
    (aligned_down ((addr + len + 3) % 2 ^ 32) + 2 ^ 32 - aligned_down addr) % 2 ^ 32 / 4

abbrev pub put_byte : ℕ → ℕ → ℕ → List ℕ → List ℕ
put_byte byte_offset idx byte buf =
    if leb byte_offset idx && ltb (idx - byte_offset) (length buf)
    then set buf (idx - byte_offset) byte
    else buf

-- The bytes of a word, from the index `idx` on.
unfoldable pub put_bytes : ℕ → ℕ → List ℕ → List ℕ → List ℕ
put_bytes byte_offset idx [] buf = buf
put_bytes byte_offset idx (b ∷ bs) buf =
    put_bytes byte_offset (idx + 1) bs (put_byte byte_offset idx b buf)

abbrev pub Filled : Type 0
Filled = Result FirmwareError (Unit {0}) × List ℕ

abbrev pub or_fail : Option ℕ → (ℕ → Filled) → List ℕ → Filled
or_fail none f buf = (err FirmwareError.target, buf)
or_fail (some value) f buf = f value

-- The loop over the words of a response: what it ends in, and the buffer.
unfoldable pub fill : ℕ → ℕ → List Text → List ℕ → Filled
fill byte_offset idx [] buf = (ok tt, buf)
fill byte_offset idx (s ∷ ss) buf =
    or_fail (parse_hex_word s)
      (λ value.
        fill byte_offset (idx + 4) ss (put_bytes byte_offset idx (u32_to_le_bytes value) buf))
      buf

abbrev pub of_data : ℕ → Option Payload → List ℕ → Filled
of_data byte_offset (some (Payload.word_texts ss)) buf = fill byte_offset 0 ss buf
of_data byte_offset _ buf = (err FirmwareError.target, buf)

abbrev pub of_response : ℕ → Option AirfrogError → Option Payload → List ℕ → Filled
of_response byte_offset (some e) payload buf = (err FirmwareError.target, buf)
of_response byte_offset none payload buf = of_data byte_offset payload buf

-- `data.chunks_exact(4)`, as words.
unfoldable pub words_of : List ℕ → List ℕ
words_of (a ∷ b ∷ c ∷ d ∷ bs) = u32_from_le_bytes a b c d ∷ words_of bs
words_of _ = []

abbrev pub written : Option AirfrogError → Result FirmwareError (Unit {0})
written (some e) = err FirmwareError.target
written none = ok tt

module _ {S : Type 0} (ask : Command → S → Response × S) where
  unfoldable pub read : ℕ → List ℕ → S → Filled × S
  read addr buf s =
      let answered =
        ask (Command.read_mem_bulk (format_word (aligned_down addr)) (word_count addr (length buf)))
          s in
      (of_response (addr % 4) answered.0.error answered.0.payload buf, answered.1)

  unfoldable pub write : ℕ → List ℕ → S → Result FirmwareError (Unit {0}) × S
  write addr bytes s =
      if not (addr % 4 == 0)
      then (err FirmwareError.not_aligned, s)
      else if not (length bytes % 4 == 0)
      then (err FirmwareError.not_aligned, s)
      else let answered =
          ask (Command.write_mem_bulk (format_word addr) (map format_word (words_of bytes))) s in
        (written answered.0.error, answered.1)
