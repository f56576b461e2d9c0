-- ===== src/Rtt/Queue.antt =====
-- The ring of airfrog/src/firmware/rtt.rs as a queue of bytes.
use airfrog.Prelude.{
  ℕ, zero, suc, ◌+◌, ◌-◌, ◌%◌, ◌<◌, ◌≤◌, ◌≡◌, refl, ap, sym, ◌∙◌, arith, ==_iff, List, [], ◌∷◌,
  ◌++◌, length,
}
use mathlib.Core.List.{append_assoc, append-nil}
use airfrog.Rtt.Local.{
  buffer_size, LocalBuf, available_space, available_data, store, write_byte, write_data,
}

-- Both positions are indices of the array.
unfoldable pub IsValid : LocalBuf → Type 0
IsValid b = (b.write_pos < buffer_size) × (b.read_pos < buffer_size)

-- The bytes at `n` places of the ring, from `i` on.
unfoldable pub around : (ℕ → ℕ) → ℕ → ℕ → List ℕ
around bytes i zero = []
around bytes i (suc n) = bytes i ∷ around bytes ((i + 1) % buffer_size) n

-- The queue that a ring holds, its oldest byte first.
unfoldable pub contents : LocalBuf → List ℕ
contents b = around b.data_at b.read_pos (available_data b)

available_data_is :
    (b : LocalBuf)
    → IsValid b
    → available_data b ≡ (b.write_pos + buffer_size - b.read_pos) % buffer_size
unfolding available_data IsValid
available_data_is b (hw, hr) = ground arith

pub available_sum :
    (b : LocalBuf) → IsValid b → available_data b + available_space b ≡ buffer_size - 1
unfolding available_data available_space IsValid
available_sum b (hw, hr) = ground arith

pub length-around : (bytes : ℕ → ℕ) (i n : ℕ) → length (around bytes i n) ≡ n
unfolding around
length-around bytes i zero = refl
length-around bytes i (suc n) = ap suc (length-around bytes ((i + 1) % buffer_size) n)

pub around-split :
    (bytes : ℕ → ℕ) (i m n : ℕ)
    → i < buffer_size
    → around bytes i (m + n) ≡ around bytes i m ++ around bytes ((i + m) % buffer_size) n
unfolding around
around-split bytes i zero n h =
    let same : (i + 0) % buffer_size ≡ i = omega arith in
    let count : 0 + n ≡ n = omega arith in rw (same, count) refl
around-split bytes i (suc m) n h =
    let next : (i + suc m) % buffer_size ≡ ((i + 1) % buffer_size + m) % buffer_size =
      omega arith in
    let later = around-split bytes ((i + 1) % buffer_size) m n (omega arith) in
    let count : suc m + n ≡ suc (m + n) = omega arith in rw (next, count) (ap (◌∷◌ (bytes i)) later)

around-store :
    (bytes : ℕ → ℕ) (i n p byte : ℕ)
    → i < buffer_size
    → p < buffer_size
    → n ≤ (p + buffer_size - i) % buffer_size
    → around (store bytes p byte) i n ≡ around bytes i n
unfolding around
around-store bytes i zero p byte hi hp hn = refl
around-store bytes i (suc n) p byte hi hp hn =
    let later =
      around-store bytes ((i + 1) % buffer_size) n p byte (omega arith) hp (omega arith) in
    let other : store bytes p byte i ≡ bytes i = ground (arith, ==_iff i p) in
    rw (later, other) refl

write_byte-IsValid : (b : LocalBuf) (byte : ℕ) → IsValid b → IsValid (write_byte b byte)
unfolding IsValid write_byte
write_byte-IsValid b byte (hw, hr) = (omega arith, hr)

available_data-write_byte :
    (b : LocalBuf) (byte : ℕ)
    → IsValid b
    → 0 < available_space b
    → available_data (write_byte b byte) ≡ available_data b + 1
unfolding IsValid write_byte available_data available_space
available_data-write_byte b byte (hw, hr) h = ground arith

-- A byte is put at the end of the queue.
contents-write_byte :
    (b : LocalBuf) (byte : ℕ)
    → IsValid b
    → 0 < available_space b
    → contents (write_byte b byte) ≡ contents b ++ byte ∷ []
unfolding contents IsValid write_byte around
contents-write_byte b byte v h =
    let is = available_data_is b v in
    let bytes = store b.data_at b.write_pos byte in
    let n = available_data b in
    let bound : n ≤ (b.write_pos + buffer_size - b.read_pos) % buffer_size = omega (arith, is) in
    let old = around-store b.data_at b.read_pos n b.write_pos byte v.1 v.0 bound in
    let whole = around-split bytes b.read_pos n 1 v.1 in
    let end : (b.read_pos + n) % buffer_size ≡ b.write_pos = omega (arith, is, v.0, v.1) in
    let stored : bytes b.write_pos ≡ byte = ground arith in
    ap (around bytes b.read_pos) (available_data-write_byte b byte v h)
    ∙ whole
    ∙ rw (old, end, stored) refl

-- Bytes for which a ring with its positions inside its array has space are put at the end of the
-- queue that it holds, in their order, and its positions stay inside its array.
pub contents-write_data :
    (b : LocalBuf) (bytes : List ℕ)
    → IsValid b
    → length bytes ≤ available_space b
    → (contents (write_data b bytes) ≡ contents b ++ bytes) × IsValid (write_data b bytes)
unfolding write_data
contents-write_data b [] v h = (sym (append-nil (contents b)), v)
contents-write_data b (byte ∷ bytes) v h =
    let valid = write_byte-IsValid b byte v in
    let grows = available_data-write_byte b byte v (omega arith) in
    let room : length bytes ≤ available_space (write_byte b byte) =
      omega (arith, available_sum b v, available_sum (write_byte b byte) valid, grows) in
    let later = contents-write_data (write_byte b byte) bytes valid room in
    (
      later.0
          ∙ ap (λ l. l ++ bytes) (contents-write_byte b byte v (omega arith))
          ∙ append_assoc (contents b) (byte ∷ []) bytes,
      later.1,
    )
