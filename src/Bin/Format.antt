-- ===== src/Bin/Format.antt =====
-- The request format of docs/BINARY-API.md ("Request Formats"), as what a client sends for an
-- operation. `Op::sync_send` of airfrog-bin/src/lib.rs is `todo!()`, so this is a description from
-- the document and not of code.
use airfrog.Prelude.{ℕ, ◌+◌, ◌*◌, ◌^◌, ◌≤◌, ◌<◌, ◌≡◌, List, [], ◌∷◌, ◌++◌, length, All}
use airfrog.Prelude.Bytes.{u16_to_le_bytes, u32_to_le_bytes}
use airfrog.Bin.Speed.{Speed, LineLevel}
use airfrog.Bin.Op.{Op, RegType, MultiReg}

abbrev pub speed_code : Speed → ℕ
speed_code Speed.turbo = 0
speed_code Speed.fast = 1
speed_code Speed.medium = 2
speed_code Speed.slow = 3

abbrev pub level_code : LineLevel → ℕ
level_code LineLevel.low = 0
level_code LineLevel.high = 1
level_code LineLevel.input = 2

abbrev pub reg_type_code : RegType → ℕ
reg_type_code RegType.dp = 0x00
reg_type_code RegType.ap = 0x01

unfoldable pub encode_words : List ℕ → List ℕ
encode_words [] = []
encode_words (w ∷ ws) = u32_to_le_bytes w ++ encode_words ws

unfoldable pub encode_regs : List MultiReg → List ℕ
encode_regs [] = []
encode_regs (m ∷ ms) = reg_type_code m.reg_type ∷ m.reg ∷ u32_to_le_bytes m.value ++ encode_regs ms

-- What follows the command byte in the fixed part, and the data after it.
abbrev pub fixed_part : Op → List ℕ
fixed_part (Op.dp_read reg) = reg ∷ []
fixed_part (Op.dp_write reg word) = reg ∷ u32_to_le_bytes word
fixed_part (Op.ap_read reg) = reg ∷ []
fixed_part (Op.ap_write reg word) = reg ∷ u32_to_le_bytes word
fixed_part (Op.ap_bulk_read reg count) = reg ∷ u16_to_le_bytes count
fixed_part (Op.ap_bulk_write reg words) = reg ∷ u16_to_le_bytes (length words)
fixed_part (Op.multi_reg_write count regs) = u16_to_le_bytes count
fixed_part Op.ping = []
fixed_part Op.reset_target = []
fixed_part (Op.clock level post_level cycles) =
    (level_code level + 16 * level_code post_level) ∷ u16_to_le_bytes cycles
fixed_part (Op.set_speed speed) = speed_code speed ∷ []
fixed_part Op.disconnect = []

abbrev pub data_part : Op → List ℕ
data_part (Op.ap_bulk_write reg words) = encode_words words
data_part (Op.multi_reg_write count regs) = encode_regs regs
data_part _ = []

abbrev pub command_code : Op → ℕ
command_code (Op.dp_read _) = 0x00
command_code (Op.dp_write _ _) = 0x01
command_code (Op.ap_read _) = 0x02
command_code (Op.ap_write _ _) = 0x03
command_code (Op.ap_bulk_read _ _) = 0x12
command_code (Op.ap_bulk_write _ _) = 0x13
command_code (Op.multi_reg_write _ _) = 0x14
command_code Op.ping = 0xf0
command_code Op.reset_target = 0xf1
command_code (Op.clock _ _ _) = 0xf2
command_code (Op.set_speed _) = 0xf3
command_code Op.disconnect = 0xff

unfoldable pub encode : Op → List ℕ
encode op = command_code op ∷ fixed_part op ++ data_part op

abbrev pub IsMultiReg : MultiReg → Type 0
IsMultiReg m = (m.reg < 2 ^ 8) × (m.value < 2 ^ 32)

-- The fields fit their widths, and the writes carry at most 256 items, as many as they announce.
abbrev pub IsRequest : Op → Type 0
IsRequest (Op.dp_read reg) = reg < 2 ^ 8
IsRequest (Op.dp_write reg word) = (reg < 2 ^ 8) × (word < 2 ^ 32)
IsRequest (Op.ap_read reg) = reg < 2 ^ 8
IsRequest (Op.ap_write reg word) = (reg < 2 ^ 8) × (word < 2 ^ 32)
IsRequest (Op.ap_bulk_read reg count) = (reg < 2 ^ 8) × (count < 2 ^ 16)
IsRequest (Op.ap_bulk_write reg words) =
    (reg < 2 ^ 8) × (length words ≤ 256) × All (λ w. w < 2 ^ 32) words
IsRequest (Op.multi_reg_write count regs) =
    (count ≡ length regs) × (length regs ≤ 256) × All IsMultiReg regs
IsRequest (Op.clock _ _ cycles) = cycles < 2 ^ 16
IsRequest _ = Unit
