-- ===== src/Bin/Drains.antt =====
-- Every part of a request that is read has been taken from the bytes that the client sends.
use airfrog.Prelude.{ℕ, ◌+◌, ◌≤◌, ◌≡◌, refl, arith, ltb, Bool, true, false, if◌then◌else◌, List, []}
use airfrog.Bin.Error.{Result, ok, err, ProtocolError, ParseError}
use airfrog.Bin.Command.{Command, remaining_bytes, var_bytes}
use airfrog.Bin.Op.{Op}
use airfrog.Bin.Reader.{Reader}
use airfrog.Bin.Recv
use airfrog.Bin.Recv.{Recv, recv_cmd, recv_fixed, recv_var, recv_args, async_recv, read, checked}

-- The number of bytes that are still to arrive: a successful `read_exact` takes as many as fit the
-- buffer. A failure is one of those said of the reader.
pub record Drains (r : Reader) : Type 1 where
  pub left : r.State → ℕ
  pub drained :
      (n : ℕ) (s s' : r.State) (bytes : List ℕ)
      → r.read_exact n s ≡ (ok bytes, s')
      → n + left s' ≡ left s
  pub Fails : r.Error → Type 0
  pub failed : (n : ℕ) (s s' : r.State) (e : r.Error) → r.read_exact n s ≡ (err e, s') → Fails e

module _ (r : Reader) (d : Drains r) where
  -- A success leaves at least `n` bytes less than `b`; a failure is one of the reader or of a part.
  abbrev pub Leaves : {A : Type 0} → ℕ → ℕ → Result (ParseError r.Error) A × r.State → Type 0
  Leaves n b (ok _, s) = d.left s + n ≤ b
  Leaves n b (err (ParseError.transport e), s) = d.Fails e
  Leaves n b (err (ParseError.protocol e), s) = Unit {0}

  -- A step that takes at least `n` bytes if it succeeds.
  unfoldable pub Takes : {A : Type 0} → ℕ → Recv r A → Type 0
  Takes n m = (s : r.State) (b : ℕ) → d.left s ≤ b → Leaves n b (m s)

  Leaves-more :
      {A : Type 0} (n b c : ℕ) (x : Result (ParseError r.Error) A × r.State)
      → c + n ≤ b
      → Leaves 0 c x
      → Leaves n b x
  Leaves-more n b c (ok a, s) h k = omega arith
  Leaves-more n b c (err (ParseError.transport e), s) h k = k
  Leaves-more n b c (err (ParseError.protocol e), s) h k = tt

  continue-Leaves :
      {A B : Type 0} (n b : ℕ) (x : Result (ParseError r.Error) A × r.State) (f : A → Recv r B)
      → Leaves n b x
      → ((a : A) (s : r.State) → Leaves 0 (d.left s) (f a s))
      → Leaves n b (Recv.continue r x f)
  continue-Leaves n b (ok a, s) f h k = Leaves-more n b (d.left s) (f a s) h (k a s)
  continue-Leaves n b (err (ParseError.transport e), s) f h k = h
  continue-Leaves n b (err (ParseError.protocol e), s) f h k = tt

  chain-Takes :
      {A B : Type 0} (n : ℕ) (m : Recv r A) (f : A → Recv r B)
      → Takes n m
      → ((a : A) → Takes 0 (f a))
      → Takes n (Recv.◌>>=◌ r m f)
  unfolding Takes
  chain-Takes n m f k l s b h =
      continue-Leaves n b (m s) f (k s b h) (λ a s₁. l a s₁ (d.left s₁) (omega arith))

  as_transport-Leaves :
      (n b : ℕ) (s : r.State) (x : Result r.Error (List ℕ) × r.State)
      → r.read_exact n s ≡ x
      → d.left s ≤ b
      → Leaves n b (Recv.as_transport r x)
  as_transport-Leaves n b s (ok bytes, s') e h = omega (arith, d.drained n s s' bytes e)
  as_transport-Leaves n b s (err e', s') e h = d.failed n s s' e' e

  read-Takes : (n : ℕ) → Takes n (read r n)
  unfolding Takes
  read-Takes n s b h = as_transport-Leaves n b s (r.read_exact n s) refl h

  Leaves-less :
      {A : Type 0} (n b : ℕ) (x : Result (ParseError r.Error) A × r.State)
      → Leaves n b x
      → Leaves 0 b x
  Leaves-less n b (ok a, s) h = omega arith
  Leaves-less n b (err (ParseError.transport e), s) h = h
  Leaves-less n b (err (ParseError.protocol e), s) h = tt

  read-Takes_none : (n : ℕ) → Takes 0 (read r n)
  unfolding Takes
  read-Takes_none n s b h =
      Leaves-less n b (read r n s) (as_transport-Leaves n b s (r.read_exact n s) refl h)

  checked-Takes : {A : Type 0} (x : Result ProtocolError A) → Takes 0 (checked r x)
  unfolding Takes
  checked-Takes (ok a) s b h = omega arith
  checked-Takes (err e) s b h = tt

  pure-Takes : {A : Type 0} (a : A) → Takes 0 (Recv.pure r a)
  unfolding Takes
  pure-Takes a s b h = omega arith

  pub recv_cmd-Takes : Takes 1 (recv_cmd r)
  unfolding recv_cmd
  recv_cmd-Takes = chain-Takes 1 (read r 1) _ (read-Takes 1) (λ cmd. checked-Takes _)

  optional-Takes : (b : Bool) (n : ℕ) → Takes 0 (if b then read r n else Recv.pure r [])
  optional-Takes true n = read-Takes_none n
  optional-Takes false n = pure-Takes []

  recv_fixed-Takes : (command : Command) → Takes 0 (recv_fixed r command)
  unfolding recv_fixed
  recv_fixed-Takes command =
      chain-Takes 0 (checked r (remaining_bytes command)) _ (checked-Takes _)
        (λ needed. optional-Takes (ltb 0 needed.0) needed.0)

  recv_var-Takes : (command : Command) (count : ℕ) → Takes 0 (recv_var r command count)
  unfolding recv_var
  recv_var-Takes command count =
      chain-Takes 0 (checked r (var_bytes command count)) _ (checked-Takes _)
        (λ n. read-Takes_none n)

  checked_op-Takes :
      {A : Type 0} (x : Result ProtocolError A) (f : A → Op)
      → Takes 0 (Recv.◌>>=◌ r (checked r x) (λ a. Recv.pure r (f a)))
  checked_op-Takes x f = chain-Takes 0 (checked r x) _ (checked-Takes x) (λ a. pure-Takes (f a))

  recv_args-Takes : (command : Command) (buf : List ℕ) → Takes 0 (recv_args r command buf)
  unfolding recv_args
  recv_args-Takes Command.dp_read buf = pure-Takes _
  recv_args-Takes Command.dp_write buf = checked_op-Takes _ _
  recv_args-Takes Command.ap_read buf = pure-Takes _
  recv_args-Takes Command.ap_write buf = checked_op-Takes _ _
  recv_args-Takes Command.ap_bulk_read buf = checked_op-Takes _ _
  recv_args-Takes Command.ap_bulk_write buf =
      chain-Takes 0 (checked r _) _ (checked-Takes _) (λ count.
        chain-Takes 0 (recv_var r _ count) _ (recv_var-Takes _ count) (λ bytes. pure-Takes _))
  recv_args-Takes Command.multi_reg_write buf =
      chain-Takes 0 (checked r _) _ (checked-Takes _) (λ count.
        chain-Takes 0 (recv_var r _ count) _ (recv_var-Takes _ count)
          (λ bytes. checked_op-Takes _ _))
  recv_args-Takes Command.ping buf = pure-Takes _
  recv_args-Takes Command.reset_target buf = pure-Takes _
  recv_args-Takes Command.clock buf = checked_op-Takes _ _
  recv_args-Takes Command.set_speed buf = checked_op-Takes _ _
  recv_args-Takes Command.disconnect buf = pure-Takes _

  pub async_recv-Takes : (command : Command) → Takes 0 (async_recv r command)
  unfolding async_recv
  async_recv-Takes command =
      chain-Takes 0 (recv_fixed r command) _ (recv_fixed-Takes command)
        (λ buf. recv_args-Takes command buf)
