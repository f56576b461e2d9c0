-- ===== src/Rtt/Task.antt =====
-- The state of the RTT task of airfrog/src/firmware/rtt.rs, and the commands that it is sent while it
-- runs or is stopped: `RttCb`, `RttBuf` and `Rtt`. `max_up_bufs` is the code's `i32` as it is cast to a
-- `usize` of 32 bits, which is its bit pattern.
use airfrog.Prelude.{
  ℕ, Bool, true, false, ◌&&◌, ◌+◌, ◌-◌, ◌*◌, ◌%◌, ◌^◌, ◌==◌, ltb, min, not, if◌then◌else◌, Option,
  none, List, [], ◌∷◌, take, length, get_or, replicate, bit_and,
}
use airfrog.Prelude.Bytes.{u32_from_le_bytes}
use airfrog.Bin.Error.{Result, ok, err}
use airfrog.Rtt.Local.{LocalBuf, read_data}

pub data State : Type 0 where
  started stopped : State

pub data Command : Type 0 where
  get_state : Command
  read : ℕ → Command

pub data Response : Type 0 where
  state : State → Response
  bytes : List ℕ → Response

pub data RttError : Type 0 where
  stopped no_data not_found target internal full : RttError

pub record RttCb : Type 0 where
  pub location : ℕ
  pub max_up_bufs : ℕ
  pub max_down_bufs : ℕ

abbrev pub header_size : ℕ
header_size = 24

-- `b"SEGGER RTT\0\0\0\0\0\0"`
abbrev pub magic : List ℕ
magic =
    0x53 ∷ 0x45 ∷ 0x47 ∷ 0x47 ∷ 0x45 ∷ 0x52 ∷ 0x20 ∷ 0x52 ∷ 0x54 ∷ 0x54 ∷ 0 ∷ 0 ∷ 0 ∷ 0 ∷ 0 ∷ 0 ∷ []

abbrev pub same_bytes : List ℕ → List ℕ → Bool
same_bytes [] [] = true
same_bytes (x ∷ xs) (y ∷ ys) = (x == y) && same_bytes xs ys
same_bytes _ _ = false

-- `u32::from_le_bytes(bytes[i..i + 4].try_into().unwrap())`
abbrev pub u32_at : List ℕ → ℕ → ℕ
u32_at bs i =
    u32_from_le_bytes (get_or bs i 0) (get_or bs (i + 1) 0) (get_or bs (i + 2) 0)
      (get_or bs (i + 3) 0)

unfoldable pub cb_from_location_bytes : ℕ → List ℕ → Result RttError RttCb
cb_from_location_bytes location bs =
    if ltb (length bs) header_size
    then err RttError.internal
    else if not (same_bytes (take 16 bs) magic)
    then err RttError.not_found
    else ok
        (record { location = location; max_up_bufs = u32_at bs 16; max_down_bufs = u32_at bs 20 })

abbrev pub buf_size : ℕ
buf_size = 24

unfoldable pub get_up_buf_loc : RttCb → ℕ → Result RttError ℕ
get_up_buf_loc cb index =
    if ltb cb.max_up_bufs index
    then err RttError.not_found
    else ok ((cb.location + header_size + index * buf_size % 2 ^ 32) % 2 ^ 32)

unfoldable pub get_down_buf_loc : RttCb → ℕ → Result RttError ℕ
get_down_buf_loc cb index =
    if ltb cb.max_down_bufs index
    then err RttError.not_found
    else ok
        ((cb.location + cb.max_up_bufs * buf_size % 2 ^ 32 + index * buf_size % 2 ^ 32) % 2 ^ 32)

pub record RttBuf : Type 0 where
  pub location : ℕ
  pub data_ptr : ℕ
  pub name_ptr : ℕ
  pub size : ℕ
  pub write_pos : ℕ
  pub read_pos : ℕ

unfoldable pub buf_from_location_bytes : ℕ → List ℕ → Result RttError RttBuf
buf_from_location_bytes location bs =
    if ltb (length bs) buf_size
    then err RttError.internal
    else if not (bit_and (u32_at bs 20) 0xff00_0000 == 0)
    then err RttError.not_found
    else ok (record {
      location = location;
      data_ptr = u32_at bs 4;
      name_ptr = u32_at bs 0;
      size = u32_at bs 8;
      write_pos = u32_at bs 12;
      read_pos = u32_at bs 16;
    })

abbrev pub cur_read_loc : RttBuf → ℕ
cur_read_loc b = (b.data_ptr + b.read_pos) % 2 ^ 32

abbrev pub write_pos_field_loc : RttBuf → ℕ
write_pos_field_loc b = (b.location + 12) % 2 ^ 32

abbrev pub read_pos_field_loc : RttBuf → ℕ
read_pos_field_loc b = (b.location + 16) % 2 ^ 32

unfoldable pub buf_available_data : RttBuf → ℕ
buf_available_data b =
    if ltb b.read_pos b.write_pos
    then b.write_pos - b.read_pos
    else ((b.size + 2 ^ 32 - b.read_pos) % 2 ^ 32 + b.write_pos) % 2 ^ 32

pub record Rtt : Type 0 where
  pub state : State
  pub rtt_cb : Option RttCb
  pub rtt_up_buf : Option RttBuf
  pub local_buf : LocalBuf

abbrev pub max_bytes_per_read : ℕ
max_bytes_per_read = 256

abbrev pub stop : Rtt → Rtt
stop r = record { state = State.stopped; rtt_cb = none; rtt_up_buf = none; local_buf = r.local_buf }

-- The response that is sent, and the state after it.
unfoldable pub handle_command : Command → Rtt → Result RttError Response × Rtt
handle_command Command.get_state r = (ok (Response.state r.state), r)
handle_command (Command.read max) r = elim r.state [
  | State.stopped ↦ (err RttError.stopped, r)
  | State.started ↦
      let answer = read_data r.local_buf (replicate (min max max_bytes_per_read) 0) in
      (
        ok (Response.bytes (take answer.0 answer.1)),
        record {
          state = r.state;
          rtt_cb = r.rtt_cb;
          rtt_up_buf = r.rtt_up_buf;
          local_buf = answer.2;
        },
      )
]
