-- ===== src/Rtt/Fetch.antt =====
-- How the RTT task of airfrog/src/firmware/rtt.rs gets bytes from the target: `start` and
-- `get_rtt_data_from_target`, over the requests to the target task that they make. The text that
-- requests and responses are carried in is left out.
use airfrog.Prelude.{
  ℕ, Bool, ◌+◌, ◌-◌, ◌/◌, ◌%◌, ◌^◌, ◌==◌, ltb, leb, min, not, if◌then◌else◌, Option, some, none,
  List, [], ◌∷◌, ◌++◌, take, drop, length, bit_and,
}
use airfrog.Prelude.Bytes.{u32_to_le_bytes}
use airfrog.Bin.Error.{Result, ok, err}
use airfrog.Core.Fields.{u32_not}
use airfrog.Rtt.Local.{available_space, write_data}
use airfrog.Rtt.Task.{
  State, RttError, RttCb, RttBuf, Rtt, header_size, buf_size, u32_at, cb_from_location_bytes,
  get_up_buf_loc, buf_from_location_bytes, cur_read_loc, write_pos_field_loc, read_pos_field_loc,
  buf_available_data, max_bytes_per_read, stop,
}

-- What the target task answers to `ReadMemBulk` (no data on an error) and `WriteMem` (whether it was
-- without an error).
pub record TargetTask : Type 1 where
  pub Target : Type 0
  pub read_mem_bulk : (addr count : ℕ) → Target → Option (List ℕ) × Target
  pub write_mem : (addr word : ℕ) → Target → Bool × Target

-- A slice or a remainder that the code may not take panics.
pub data Fault : Type 0 where
  failed : RttError → Fault
  panicked : Fault

abbrev pub Run : Type 0 → Type 0 → Type 0
Run S A = S → Result Fault A × S

abbrev pub pure : {S A : Type 0} → A → Run S A
pure a s = (ok a, s)

abbrev pub fail : {S A : Type 0} → Fault → Run S A
fail e s = (err e, s)

abbrev pub continue : {S A B : Type 0} → Result Fault A × S → (A → Run S B) → Result Fault B × S
continue (ok a, s) f = f a s
continue (err e, s) f = (err e, s)

infixl 5 ◌>>=◌
abbrev pub ◌>>=◌ : {S A B : Type 0} → Run S A → (A → Run S B) → Run S B
◌>>=◌ m f s = continue (m s) f

infixl 5 ◌>>◌
abbrev pub ◌>>◌ : {S B : Type 0} → Run S (Unit {0}) → Run S B → Run S B
◌>>◌ m n s = continue (m s) (λ _. n)

-- The `?` of a result.
abbrev pub lifted : {S A : Type 0} → Result RttError A → Run S A
lifted (ok a) s = (ok a, s)
lifted (err e) s = (err (Fault.failed e), s)

-- `ok_or(error)?`
abbrev pub ok_or : {S A : Type 0} → RttError → Option A → Run S A
ok_or e none s = (err (Fault.failed e), s)
ok_or e (some a) s = (ok a, s)

abbrev pub bytes_of_words : List ℕ → List ℕ
bytes_of_words [] = []
bytes_of_words (w ∷ ws) = u32_to_le_bytes w ++ bytes_of_words ws

-- `x & !3`
abbrev pub aligned : ℕ → ℕ
aligned x = bit_and x (u32_not 3)

-- `bytes[i..i + n].to_vec()`
abbrev pub sub : {S : Type 0} → List ℕ → ℕ → ℕ → Run S (List ℕ)
sub bs i n = if leb (i + n) (length bs) then pure (take n (drop i bs)) else fail Fault.panicked

module _ (t : TargetTask) where
  abbrev pub Machine : Type 0
  Machine = Rtt × t.Target

  -- A request, which leaves the state of the task as it is.
  abbrev pub asking : {A : Type 0} → (t.Target → A × t.Target) → Run Machine A
  asking f (r, target) = (ok (f target).0, (r, (f target).1))

  abbrev pub current : Run Machine Rtt
  current (r, target) = (ok r, (r, target))

  abbrev pub updating : (Rtt → Rtt) → Run Machine (Unit {0})
  updating f (r, target) = (ok tt, (f r, target))

  -- The request of `read_bytes`.
  unfoldable pub read_words : (start_aligned count : ℕ) → Run Machine (List ℕ)
  read_words start_aligned count = do
    answer ← asking (t.read_mem_bulk start_aligned count)
    ok_or RttError.no_data answer

  unfoldable pub read_bytes : (location num_bytes : ℕ) → Run Machine (List ℕ)
  read_bytes location num_bytes = if num_bytes == 0 then pure [] else (do
    let start_aligned = aligned location
    let end_aligned = aligned ((location + num_bytes + 3) % 2 ^ 32)
    let aligned_bytes = (end_aligned + 2 ^ 32 - start_aligned) % 2 ^ 32
    words ← read_words start_aligned (aligned_bytes / 4)
    sub (bytes_of_words words) (location - start_aligned) num_bytes)

  unfoldable pub read_word_at : ℕ → Run Machine ℕ
  read_word_at location = do
    bs ← read_bytes location 4
    if not (length bs == 4) then fail (Fault.failed RttError.no_data) else pure (u32_at bs 0)

  unfoldable pub write_word : (location word : ℕ) → Run Machine (Unit {0})
  write_word location word = do
    written ← asking (t.write_mem location word)
    if written then pure tt else fail (Fault.failed RttError.target)

  unfoldable pub get_rtt_cb : ℕ → Run Machine RttCb
  get_rtt_cb location = do
    bs ← read_bytes location header_size
    lifted (cb_from_location_bytes location bs)

  unfoldable pub get_rtt_up_buf : RttCb → ℕ → Run Machine RttBuf
  get_rtt_up_buf rtt_cb index = do
    up_buf_loc ← lifted (get_up_buf_loc rtt_cb index)
    bs ← read_bytes up_buf_loc buf_size
    lifted (buf_from_location_bytes up_buf_loc bs)

  abbrev pub started_with : RttCb → RttBuf → Rtt → Rtt
  started_with rtt_cb rtt_up_buf r = record {
    state = State.started;
    rtt_cb = some rtt_cb;
    rtt_up_buf = some rtt_up_buf;
    local_buf = r.local_buf;
  }

  unfoldable pub start : ℕ → Run Machine (Unit {0})
  start location = do
    rtt_cb ← get_rtt_cb location
    rtt_up_buf ← get_rtt_up_buf rtt_cb 0
    updating (started_with rtt_cb rtt_up_buf)

  -- The device was reset: the control block is read again.
  unfoldable pub restarted : Run Machine RttBuf
  restarted = do
    r ← current
    rtt_cb ← ok_or RttError.stopped r.rtt_cb
    updating stop
    start rtt_cb.location
    r₁ ← current
    ok_or RttError.stopped r₁.rtt_up_buf

  -- The bytes between the two positions of the target, in one part or two.
  unfoldable pub gather : RttBuf → ℕ → Run Machine (List ℕ)
  gather stored to_read =
      if ltb stored.read_pos stored.write_pos then read_bytes (cur_read_loc stored) to_read else (do
        let first_size = min to_read ((stored.size + 2 ^ 32 - stored.read_pos) % 2 ^ 32)
        bs ← read_bytes (cur_read_loc stored) first_size
        if ltb first_size to_read
            then (do
              second ← read_bytes stored.data_ptr (to_read - first_size)
              pure (bs ++ second))
            else pure bs)

  abbrev pub with_local : List ℕ → Rtt → Rtt
  with_local bs r = record {
    state = r.state;
    rtt_cb = r.rtt_cb;
    rtt_up_buf = r.rtt_up_buf;
    local_buf = write_data r.local_buf bs;
  }

  abbrev pub with_read_pos : RttBuf → ℕ → RttBuf
  with_read_pos b read_pos = record {
    location = b.location;
    data_ptr = b.data_ptr;
    name_ptr = b.name_ptr;
    size = b.size;
    write_pos = b.write_pos;
    read_pos = read_pos;
  }

  abbrev pub with_write_pos : RttBuf → ℕ → RttBuf
  with_write_pos b write_pos = record {
    location = b.location;
    data_ptr = b.data_ptr;
    name_ptr = b.name_ptr;
    size = b.size;
    write_pos = write_pos;
    read_pos = b.read_pos;
  }

  abbrev pub with_up_buf : RttBuf → Rtt → Rtt
  with_up_buf stored r = record {
    state = r.state;
    rtt_cb = r.rtt_cb;
    rtt_up_buf = some stored;
    local_buf = r.local_buf;
  }

  -- The new read position is told to the target, and kept.
  unfoldable pub tell : RttBuf → Run Machine (Unit {0})
  tell stored = do
    write_word (read_pos_field_loc stored) stored.read_pos
    updating (with_up_buf stored)

  unfoldable pub keep : RttBuf → List ℕ → Run Machine (Unit {0})
  keep stored bs = do
    updating (with_local bs)
    if stored.size == 0
        then fail Fault.panicked
        else tell (with_read_pos stored ((stored.read_pos + length bs) % 2 ^ 32 % stored.size))

  unfoldable pub get_new : RttBuf → Run Machine (Unit {0})
  get_new stored = if stored.write_pos == stored.read_pos then pure tt else (do
    r ← current
    bs ←
        gather stored
          (min (min (buf_available_data stored) (available_space r.local_buf)) max_bytes_per_read)
    keep stored bs)

  unfoldable pub fetch : RttBuf → Run Machine (Unit {0})
  fetch stored = do
    cur_read_pos ← read_word_at (read_pos_field_loc stored)
    stored₁ ← if not (cur_read_pos == stored.read_pos) then restarted else pure stored
    write_pos ← read_word_at (write_pos_field_loc stored₁)
    get_new (with_write_pos stored₁ write_pos)

  unfoldable pub get_rtt_data_from_target : Run Machine (Unit {0})
  get_rtt_data_from_target = do
    r ← current
    if available_space r.local_buf == 0
        then fail (Fault.failed RttError.full)
        else (do stored ← ok_or RttError.stopped r.rtt_up_buf; fetch stored)
