-- ===== src/Bin/Parse.antt =====
-- The parsing of buffers in airfrog-bin/src/lib.rs: `parse_word`, `parse_count` and the loops over
-- chunks in `async_recv`. A buffer that `read_exact` filled has the length asked for, so the indexes
-- are in range; `byte` has the value 0 of the fresh buffer elsewhere.
use airfrog.Prelude.{ℕ, ◌-◌, ◌==◌, if◌then◌else◌, not, List, [], ◌∷◌, length, take, drop, get_or}
use airfrog.Prelude.Bytes.{u16_from_le_bytes, u32_from_le_bytes}
use airfrog.Bin.Error.{Result, ok, err, ProtocolError, arg, ◌>>=◌}
use airfrog.Bin.Op.{RegType, MultiReg}

abbrev pub byte : List ℕ → ℕ → ℕ
byte buf i = get_or buf i 0

-- `&buf[from..to]`
abbrev pub slice : List ℕ → ℕ → ℕ → List ℕ
slice buf from to = take (to - from) (drop from buf)

unfoldable pub parse_word : List ℕ → Result ProtocolError ℕ
parse_word bytes =
    if not (length bytes == 4)
    then err arg
    else ok (u32_from_le_bytes (byte bytes 0) (byte bytes 1) (byte bytes 2) (byte bytes 3))

unfoldable pub parse_count : List ℕ → Result ProtocolError ℕ
parse_count bytes =
    if not (length bytes == 2)
    then err arg
    else ok (u16_from_le_bytes (byte bytes 0) (byte bytes 1))

-- The loop over `data_buf.chunks_exact(4)`; what is left over is dropped.
unfoldable pub parse_words : List ℕ → List ℕ
parse_words (a ∷ b ∷ c ∷ d ∷ rest) = u32_from_le_bytes a b c d ∷ parse_words rest
parse_words _ = []

unfoldable pub parse_reg_type : ℕ → Result ProtocolError RegType
parse_reg_type b = if b == 0x00 then ok RegType.dp else if b == 0x01 then ok RegType.ap else err arg

-- The loop over `data_buf.chunks_exact(6)`, which returns at the first bad register type.
unfoldable pub parse_regs : List ℕ → Result ProtocolError (List MultiReg)
unfolding parse_reg_type
parse_regs (t ∷ reg ∷ a ∷ b ∷ c ∷ d ∷ rest) = do
  reg_type ← parse_reg_type t
  regs ← parse_regs rest
  ok (record { reg_type = reg_type; reg = reg; value = u32_from_le_bytes a b c d } ∷ regs)
parse_regs _ = ok []
