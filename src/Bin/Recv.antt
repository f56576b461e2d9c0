-- ===== src/Bin/Recv.antt =====
-- `Op::recv_cmd` and `Op::async_recv` of airfrog-bin/src/lib.rs: the reading of one request, with the
-- reader's state passed on explicitly.
use airfrog.Prelude.{ℕ, ltb, if◌then◌else◌, List, []}
use airfrog.Prelude.Bytes.{u16_from_le_bytes}
use airfrog.Bin.Error.{Result, ok, err, ProtocolError, ParseError}
use airfrog.Bin.Command.{Command, from_byte, remaining_bytes, var_bytes}
use airfrog.Bin.Speed.{speed_from_byte, levels_from_byte}
use airfrog.Bin.Op.{Op}
use airfrog.Bin.Parse.{byte, slice, parse_word, parse_count, parse_words, parse_regs}
use airfrog.Bin.Reader.{Reader}

module _ (r : Reader) where
  abbrev pub Recv : Type 0 → Type 0
  Recv A = r.State → Result (ParseError r.Error) A × r.State

  abbrev pub pure : {A : Type 0} → A → Recv A
  pure a s = (ok a, s)

  abbrev pub continue :
      {A B : Type 0}
      → Result (ParseError r.Error) A × r.State
      → (A → Recv B)
      → Result (ParseError r.Error) B × r.State
  continue (ok a, s) f = f a s
  continue (err e, s) f = (err e, s)

  infixl 5 ◌>>=◌
  abbrev pub ◌>>=◌ : {A B : Type 0} → Recv A → (A → Recv B) → Recv B
  ◌>>=◌ m f s = continue (m s) f

  abbrev pub as_transport :
      Result r.Error (List ℕ) × r.State → Result (ParseError r.Error) (List ℕ) × r.State
  as_transport (ok buf, s) = (ok buf, s)
  as_transport (err e, s) = (err (ParseError.transport e), s)

  -- `reader.read_exact(&mut buf).await.map_err(ParseError::transport)?` on a buffer of `n` bytes.
  abbrev pub read : ℕ → Recv (List ℕ)
  read n s = as_transport (r.read_exact n s)

  -- `?` on a protocol error.
  abbrev pub checked : {A : Type 0} → Result ProtocolError A → Recv A
  checked (ok a) s = (ok a, s)
  checked (err e) s = (err (ParseError.protocol e), s)

  unfoldable pub recv_cmd : Recv Command
  recv_cmd = do cmd ← read 1; checked (from_byte (byte cmd 0))

  -- The first read of `async_recv`; with no bytes needed the buffer is `vec![]`.
  unfoldable pub recv_fixed : Command → Recv (List ℕ)
  recv_fixed command = do
    (bytes_needed, _) ← checked (remaining_bytes command)
    if ltb 0 bytes_needed then read bytes_needed else pure []

  -- The second read, of the bytes whose number the count gives.
  unfoldable pub recv_var : Command → ℕ → Recv (List ℕ)
  recv_var command count = do data_bytes ← checked (var_bytes command count); read data_bytes

  -- The `match command` of `async_recv`.
  unfoldable pub recv_args : Command → List ℕ → Recv Op
  recv_args Command.dp_read buf = pure (Op.dp_read (byte buf 0))
  recv_args Command.dp_write buf = do
    word ← checked (parse_word (slice buf 1 5))
    pure (Op.dp_write (byte buf 0) word)
  recv_args Command.ap_read buf = pure (Op.ap_read (byte buf 0))
  recv_args Command.ap_write buf = do
    word ← checked (parse_word (slice buf 1 5))
    pure (Op.ap_write (byte buf 0) word)
  recv_args Command.ap_bulk_read buf = do
    count ← checked (parse_count (slice buf 1 3))
    pure (Op.ap_bulk_read (byte buf 0) count)
  recv_args Command.ap_bulk_write buf = do
    count ← checked (parse_count (slice buf 1 3))
    data_buf ← recv_var Command.ap_bulk_write count
    pure (Op.ap_bulk_write (byte buf 0) (parse_words data_buf))
  recv_args Command.multi_reg_write buf = do
    count ← checked (parse_count (slice buf 0 2))
    data_buf ← recv_var Command.multi_reg_write count
    regs ← checked (parse_regs data_buf)
    pure (Op.multi_reg_write count regs)
  recv_args Command.ping buf = pure Op.ping
  recv_args Command.reset_target buf = pure Op.reset_target
  recv_args Command.clock buf = do
    (level, post_level) ← checked (levels_from_byte (byte buf 0))
    pure (Op.clock level post_level (u16_from_le_bytes (byte buf 1) (byte buf 2)))
  recv_args Command.set_speed buf = do
    speed ← checked (speed_from_byte (byte buf 0))
    pure (Op.set_speed speed)
  recv_args Command.disconnect buf = pure Op.disconnect

  unfoldable pub async_recv : Command → Recv Op
  unfolding recv_fixed recv_var recv_args
  async_recv command = do buf ← recv_fixed command; recv_args command buf

  -- A whole request, as the server's main loop reads it.
  unfoldable pub recv_op : Recv Op
  unfolding recv_cmd async_recv
  recv_op = do command ← recv_cmd; async_recv command
