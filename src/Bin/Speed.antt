-- ===== src/Bin/Speed.antt =====
-- `Speed` and `LineLevel` of airfrog-bin/src/lib.rs.
use airfrog.Prelude.{ℕ, ◌≡◌, ◌↔◌, ◌+◌, ◌*◌, ◌%◌, arith, ◌/◌, ◌^◌, leb, ◌==◌, if◌then◌else◌, bit_and}
use airfrog.Prelude.Bits.{bit_and_low_mask}
use airfrog.Bin.Error.{Result, ok, err, ProtocolError, arg, ◌>>=◌}

pub data Speed : Type 0 where
  slow medium fast turbo : Speed

-- `#[repr(u8)]`
unfoldable pub speed_byte : Speed → ℕ
speed_byte Speed.slow = 3
speed_byte Speed.medium = 2
speed_byte Speed.fast = 1
speed_byte Speed.turbo = 0

unfoldable pub from_khz : ℕ → Speed
from_khz khz =
    if leb khz 750
    then Speed.slow
    else if leb khz 1500
    then Speed.medium
    else if leb khz 3000
    then Speed.fast
    else Speed.turbo

unfoldable pub to_khz : Speed → ℕ
to_khz Speed.slow = 500
to_khz Speed.medium = 1000
to_khz Speed.fast = 2000
to_khz Speed.turbo = 4000

unfoldable pub speed_from_byte : ℕ → Result ProtocolError Speed
speed_from_byte byte =
    if byte == 0
    then ok Speed.turbo
    else if byte == 1
    then ok Speed.fast
    else if byte == 2
    then ok Speed.medium
    else if byte == 3
    then ok Speed.slow
    else err arg

pub data LineLevel : Type 0 where
  low high input : LineLevel

-- `#[repr(u8)]`
unfoldable pub level_byte : LineLevel → ℕ
level_byte LineLevel.low = 0
level_byte LineLevel.high = 1
level_byte LineLevel.input = 2

-- One of the two `match`es in `levels_from_byte`.
abbrev level_from_bits : ℕ → Result ProtocolError LineLevel
level_from_bits bits =
    if bits == 0
    then ok LineLevel.low
    else if bits == 1
    then ok LineLevel.high
    else if bits == 2
    then ok LineLevel.input
    else err arg

unfoldable pub levels_from_byte : ℕ → Result ProtocolError (LineLevel × LineLevel)
levels_from_byte value = do
  level ← level_from_bits (bit_and value 0x0f)
  post_level ← level_from_bits (value / 2 ^ 4)
  ok (level, post_level)

-- A byte is read as a speed exactly when it is that speed's code.
speed_from_byte_iff : (b : ℕ) (x : Speed) → (speed_from_byte b ≡ ok x) ↔ (b ≡ speed_byte x)
unfolding speed_from_byte speed_byte
speed_from_byte_iff b x = ground arith

low_nibble : (v : ℕ) → bit_and v 0x0f ≡ v % 16
low_nibble = bit_and_low_mask 4

-- A byte is read as two line levels exactly when its low and high nibbles are their codes.
levels_from_byte_iff :
    (v : ℕ) (a b : LineLevel)
    → (levels_from_byte v ≡ ok (a, b)) ↔ (v ≡ level_byte a + 16 * level_byte b)
unfolding levels_from_byte level_byte
levels_from_byte_iff v a b = ground (arith, low_nibble v)

-- A speed's frequency is read back as that speed.
pub from_khz-to_khz : (x : Speed) → from_khz (to_khz x) ≡ x
unfolding from_khz to_khz
from_khz-to_khz x = ground arith
