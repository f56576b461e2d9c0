-- ===== src/Bin/RoundTrip.antt =====
-- `recv_op` reads back what the request format writes.
use mathlib.Core.List.{append_assoc}
use airfrog.Prelude.{
  Bool, true, false, ltb, lt→ltb, if◌then◌else◌, ℕ, ◌+◌, ◌*◌, ◌^◌, ◌≤◌, ◌<◌, ◌≡◌, refl, ap, ◌∙◌,
  arith, List, [], ◌∷◌, ◌++◌, length, All, take, drop, length-append, take-append, drop-append,
}
use airfrog.Prelude.Bytes.{u16_bytes, u32_bytes}
use airfrog.Bin.Error.{Result, ok, err}
use airfrog.Bin.Command.{Command, from_byte, remaining_bytes, var_bytes}
use airfrog.Bin.Speed.{LineLevel, speed_from_byte, levels_from_byte, Speed}
use airfrog.Bin.Op.{Op, MultiReg}
use airfrog.Bin.Parse.{parse_word, parse_count, parse_words, parse_regs}
use airfrog.Bin.Reader.{Reader, Delivers}
use airfrog.Bin.Recv
use airfrog.Bin.Recv.{
  Recv, read, checked, recv_cmd, recv_fixed, recv_var, recv_args, async_recv, recv_op,
}
use airfrog.Bin.Format.{
  command_code, speed_code, encode_words, encode_regs, encode, level_code, fixed_part, data_part,
  IsMultiReg, IsRequest,
}

parse_words-encode : (ws : List ℕ) → All (λ w. w < 2 ^ 32) ws → parse_words (encode_words ws) ≡ ws
unfolding parse_words encode_words
parse_words-encode [] h = refl
parse_words-encode (w ∷ ws) h = rw (u32_bytes w h.0, parse_words-encode ws h.1)

length-encode_words : (ws : List ℕ) → length (encode_words ws) ≡ length ws * 4
unfolding encode_words
length-encode_words [] = omega arith
length-encode_words (w ∷ ws) = omega (arith, length-encode_words ws)

parse_regs-encode : (ms : List MultiReg) → All IsMultiReg ms → parse_regs (encode_regs ms) ≡ ok ms
unfolding parse_regs encode_regs
parse_regs-encode [] h = refl
parse_regs-encode (m ∷ ms) h = ground (arith, u32_bytes m.value h.0.1, parse_regs-encode ms h.1)

length-encode_regs : (ms : List MultiReg) → length (encode_regs ms) ≡ length ms * 6
unfolding encode_regs
length-encode_regs [] = omega arith
length-encode_regs (m ∷ ms) = omega (arith, length-encode_regs ms)

levels-encode : (a b : LineLevel) → levels_from_byte (level_code a + 16 * level_code b) ≡ ok (a, b)
unfolding levels_from_byte
levels-encode a b = ground arith

speed-encode : (x : Speed) → speed_from_byte (speed_code x) ≡ ok x
unfolding speed_from_byte
speed-encode x = ground arith

-- The command that asks for an operation.
abbrev pub command_of : Op → Command
command_of (Op.dp_read _) = Command.dp_read
command_of (Op.dp_write _ _) = Command.dp_write
command_of (Op.ap_read _) = Command.ap_read
command_of (Op.ap_write _ _) = Command.ap_write
command_of (Op.ap_bulk_read _ _) = Command.ap_bulk_read
command_of (Op.ap_bulk_write _ _) = Command.ap_bulk_write
command_of (Op.multi_reg_write _ _) = Command.multi_reg_write
command_of Op.ping = Command.ping
command_of Op.reset_target = Command.reset_target
command_of (Op.clock _ _ _) = Command.clock
command_of (Op.set_speed _) = Command.set_speed
command_of Op.disconnect = Command.disconnect

-- The commands with `true` in `remaining_bytes`.
abbrev has_data : Op → Bool
has_data (Op.ap_bulk_read _ _) = true
has_data (Op.ap_bulk_write _ _) = true
has_data (Op.multi_reg_write _ _) = true
has_data _ = false

command_read : (op : Op) → from_byte (command_code op) ≡ ok (command_of op)
unfolding from_byte
command_read op = ground arith

fixed_size : (op : Op) → remaining_bytes (command_of op) ≡ ok (length (fixed_part op), has_data op)
unfolding remaining_bytes
fixed_size op = ground arith

words_fit :
    (ws : List ℕ)
    → length ws ≤ 256
    → var_bytes Command.ap_bulk_write (length ws) ≡ ok (length (encode_words ws))
unfolding var_bytes
words_fit ws h = ground (arith, length-encode_words ws)

regs_fit :
    (ms : List MultiReg)
    → length ms ≤ 256
    → var_bytes Command.multi_reg_write (length ms) ≡ ok (length (encode_regs ms))
unfolding var_bytes
regs_fit ms h = ground (arith, length-encode_regs ms)

module _ (r : Reader) (d : Delivers r) where
  -- A step that succeeds with a value and leaves certain bytes to be read.
  abbrev pub Yields : {A : Type 0} → Recv r A → r.State → A → List ℕ → Type 0
  Yields m s a rest = (s' : r.State) × (m s ≡ (ok a, s')) × (d.pending s' ≡ rest)

  as_transport-ok :
      (x : Result r.Error (List ℕ) × r.State) (bs : List ℕ)
      → x.0 ≡ ok bs
      → Recv.as_transport r x ≡ (ok bs, x.1)
  as_transport-ok (ok a, s) bs e = cc
  as_transport-ok (err a, s) bs e = cc

  Yields-read :
      (chunk rest : List ℕ) (n : ℕ) (s : r.State)
      → n ≡ length chunk
      → d.pending s ≡ chunk ++ rest
      → Yields (read r n) s chunk rest
  Yields-read chunk rest n s e p =
      let enough : n ≤ length (d.pending s) =
        omega (arith, ap length p, length-append chunk rest) in
      let (got, left) = d.delivers n s enough in
      let taken : take n (d.pending s) ≡ chunk = rw (p, e) (take-append chunk rest) in
      let kept : drop n (d.pending s) ≡ rest = rw (p, e) (drop-append chunk rest) in
      (
        (r.read_exact n s).1,
        as_transport-ok (r.read_exact n s) chunk (got ∙ ap ok taken),
        left ∙ kept,
      )

  Yields-var :
      (c : Command) (count : ℕ) (chunk rest : List ℕ) (s : r.State)
      → var_bytes c count ≡ ok (length chunk)
      → d.pending s ≡ chunk ++ rest
      → Yields (recv_var r c count) s chunk rest
  unfolding recv_var
  Yields-var c count chunk rest s e p = rw e (Yields-read chunk rest (length chunk) s refl p)

  -- The second part of a request, after its fixed part has been read.
  Yields-args :
      (op : Op) (rest : List ℕ) (s : r.State)
      → IsRequest op
      → d.pending s ≡ data_part op ++ rest
      → Yields (recv_args r (command_of op) (fixed_part op)) s op rest
  unfolding recv_args parse_word parse_count
  Yields-args (Op.dp_read reg) rest s h p = (s, refl, p)
  Yields-args (Op.dp_write reg word) rest s h p = (s, rw (u32_bytes word h.1), p)
  Yields-args (Op.ap_read reg) rest s h p = (s, refl, p)
  Yields-args (Op.ap_write reg word) rest s h p = (s, rw (u32_bytes word h.1), p)
  Yields-args (Op.ap_bulk_read reg count) rest s h p = (s, rw (u16_bytes count h.1), p)
  Yields-args (Op.ap_bulk_write reg words) rest s (hr, hl, hw) p =
      let (s', e, p') =
        Yields-var Command.ap_bulk_write (length words) (encode_words words) rest s
          (words_fit words hl) p in
      (s', rw (u16_bytes (length words) (omega arith), e, parse_words-encode words hw), p')
  Yields-args (Op.multi_reg_write count regs) rest s (hc, hl, hr) p =
      let (s', e, p') =
        Yields-var Command.multi_reg_write count (encode_regs regs) rest s
          (rw hc (regs_fit regs hl)) p in
      (s', rw (u16_bytes count (omega arith), e, parse_regs-encode regs hr), p')
  Yields-args Op.ping rest s h p = (s, refl, p)
  Yields-args Op.reset_target rest s h p = (s, refl, p)
  Yields-args (Op.clock level post_level cycles) rest s h p =
      (s, rw (levels-encode level post_level, u16_bytes cycles h), p)
  Yields-args (Op.set_speed speed) rest s h p = (s, rw (speed-encode speed), p)
  Yields-args Op.disconnect rest s h p = (s, refl, p)

  pub Yields-cmd :
      (op : Op) (rest : List ℕ) (s : r.State)
      → d.pending s ≡ command_code op ∷ rest
      → Yields (recv_cmd r) s (command_of op) rest
  unfolding recv_cmd
  Yields-cmd op rest s p =
      let (s', e, p') = Yields-read (command_code op ∷ []) rest 1 s refl p in
      (s', rw (e, command_read op), p')

  Yields-optional :
      (chunk rest : List ℕ) (s : r.State)
      → d.pending s ≡ chunk ++ rest
      → Yields (if ltb 0 (length chunk) then read r (length chunk) else Recv.pure r []) s chunk rest
  Yields-optional [] rest s p = (s, refl, p)
  Yields-optional (x ∷ xs) rest s p =
      rw (lt→ltb 0 (length (x ∷ xs)) (omega arith))
        (Yields-read (x ∷ xs) rest (length (x ∷ xs)) s refl p)

  Yields-fixed :
      (op : Op) (rest : List ℕ) (s : r.State)
      → d.pending s ≡ fixed_part op ++ rest
      → Yields (recv_fixed r (command_of op)) s (fixed_part op) rest
  unfolding recv_fixed
  Yields-fixed op rest s p = rw (fixed_size op) (Yields-optional (fixed_part op) rest s p)

  pub Yields-async_recv :
      (op : Op) (rest : List ℕ) (s : r.State)
      → IsRequest op
      → d.pending s ≡ (fixed_part op ++ data_part op) ++ rest
      → Yields (async_recv r (command_of op)) s op rest
  unfolding async_recv
  Yields-async_recv op rest s h p =
      let (s₁, e₁, p₁) =
        Yields-fixed op (data_part op ++ rest) s
          (p ∙ append_assoc (fixed_part op) (data_part op) rest) in
      let (s₂, e₂, p₂) = Yields-args op rest s₁ h p₁ in (s₂, rw (e₁, e₂) refl, p₂)

  -- A client's bytes for an operation, read by `recv_op`, give the operation back and leave
  -- whatever follows them, for each operation whose fields fit their widths and whose data are at
  -- most 256 items, as many as announced.
  pub recv_op-encode :
      (op : Op) (rest : List ℕ) (s : r.State)
      → IsRequest op
      → d.pending s ≡ encode op ++ rest
      → ((recv_op r s).0 ≡ ok op) × (d.pending (recv_op r s).1 ≡ rest)
  unfolding recv_op encode
  recv_op-encode op rest s h p =
      let (s₁, e₁, p₁) = Yields-cmd op ((fixed_part op ++ data_part op) ++ rest) s p in
      let (s₂, e₂, p₂) = Yields-async_recv op rest s₁ h p₁ in
      let whole : recv_op r s ≡ (ok op, s₂) = rw (e₁, e₂) refl in
      (ap (λ x. x.0) whole, ap (λ x. d.pending (x.1)) whole ∙ p₂)
