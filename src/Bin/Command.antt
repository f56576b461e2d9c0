-- ===== src/Bin/Command.antt =====
-- `Command` of airfrog-bin/src/lib.rs: the single-byte command codes, and how many bytes follow.
use airfrog.Prelude.{ℕ, ◌*◌, ◌≡◌, Bool, true, false, arith, ltb, ◌==◌, if◌then◌else◌, ◌↔◌}
use airfrog.Bin.Error.{Result, ok, err, ProtocolError, arg}

abbrev pub max_word_count : ℕ
max_word_count = 256

pub data Command : Type 0 where
  dp_read dp_write ap_read ap_write ap_bulk_read ap_bulk_write multi_reg_write : Command
  ping reset_target clock set_speed disconnect : Command

unfoldable pub to_byte : Command → ℕ
to_byte Command.dp_read = 0x00
to_byte Command.dp_write = 0x01
to_byte Command.ap_read = 0x02
to_byte Command.ap_write = 0x03
to_byte Command.ap_bulk_read = 0x12
to_byte Command.ap_bulk_write = 0x13
to_byte Command.multi_reg_write = 0x14
to_byte Command.ping = 0xf0
to_byte Command.reset_target = 0xf1
to_byte Command.clock = 0xf2
to_byte Command.set_speed = 0xf3
to_byte Command.disconnect = 0xff

-- The `match` on the byte, its arms in order.
unfoldable pub from_byte : ℕ → Result ProtocolError Command
from_byte cmd =
    if cmd == 0x00
    then ok Command.dp_read
    else if cmd == 0x01
    then ok Command.dp_write
    else if cmd == 0x02
    then ok Command.ap_read
    else if cmd == 0x03
    then ok Command.ap_write
    else if cmd == 0x12
    then ok Command.ap_bulk_read
    else if cmd == 0x13
    then ok Command.ap_bulk_write
    else if cmd == 0x14
    then ok Command.multi_reg_write
    else if cmd == 0xf0
    then ok Command.ping
    else if cmd == 0xf1
    then ok Command.reset_target
    else if cmd == 0xf2
    then ok Command.clock
    else if cmd == 0xf3
    then ok Command.set_speed
    else if cmd == 0xff
    then ok Command.disconnect
    else err (ProtocolError.command cmd)

-- How many bytes of fixed size follow the command byte, and whether variable data does.
unfoldable pub remaining_bytes : Command → Result ProtocolError (ℕ × Bool)
remaining_bytes Command.dp_read = ok (1, false)
remaining_bytes Command.dp_write = ok (5, false)
remaining_bytes Command.ap_read = ok (1, false)
remaining_bytes Command.ap_write = ok (5, false)
remaining_bytes Command.ap_bulk_read = ok (3, true)
remaining_bytes Command.ap_bulk_write = ok (3, true)
remaining_bytes Command.multi_reg_write = ok (2, true)
remaining_bytes Command.ping = ok (0, false)
remaining_bytes Command.reset_target = ok (0, false)
remaining_bytes Command.disconnect = ok (0, false)
remaining_bytes Command.clock = ok (3, false)
remaining_bytes Command.set_speed = ok (1, false)

unfoldable pub var_bytes : Command → ℕ → Result ProtocolError ℕ
var_bytes Command.ap_bulk_read count = if ltb max_word_count count then err arg else ok (count * 4)
var_bytes Command.ap_bulk_write count = if ltb max_word_count count then err arg else ok (count * 4)
var_bytes Command.multi_reg_write count =
    if ltb max_word_count count then err arg else ok (count * 6)
var_bytes _ count = ok 0

-- A byte is read as a command exactly when it is that command's byte: the two conversions are
-- inverse, no two commands share a byte, and every other byte is refused.
from_byte_iff : (b : ℕ) (c : Command) → (from_byte b ≡ ok c) ↔ (b ≡ to_byte c)
unfolding from_byte to_byte
from_byte_iff b c = ground arith
