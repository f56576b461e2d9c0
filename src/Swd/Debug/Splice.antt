-- ===== src/Swd/Debug/Splice.antt =====
-- The part of `stm32g0_write_rmw` in airfrog-swd/src/debug.rs that puts bytes into a double word.
use airfrog.Prelude.{
  ℕ, zero, suc, ◌+◌, ◌-◌, ◌/◌, ◌%◌, ◌^◌, ◌==◌, ◌<◌, ◌≡◌, refl, ap, sym, ◌∙◌, arith, true,
  Bool-cases, inl, inr, not, if◌then◌else◌, List, [], ◌∷◌, ◌++◌, take, drop, get_or, set, length,
  All, ◌≤◌, bit_and,
}
use mathlib.Core.List.{append_assoc}
use airfrog.Prelude.Bits.{bit_and_fields, bit_and-zero, bit_and_ones, bit_and_low_mask}
use airfrog.Prelude.Bytes.{u32_to_le_bytes, u32_from_le_bytes, u16_to_le_bytes}
use airfrog.Bin.Error.{Result, ok, err}
use airfrog.Core.Fields.{u32_not}
use airfrog.Swd.Error.{SwdError}

pub data OperationBytes : Type 0 where
  byte1 byte2 byte4 : OperationBytes

-- `addr & !0x7`
abbrev pub base_of : ℕ → ℕ
base_of addr = bit_and addr (u32_not 0x7)

-- `buf[offset] = b[0]; buf[offset + 1] = b[1]; …`
unfoldable pub set_all : List ℕ → ℕ → List ℕ → List ℕ
set_all buf offset [] = buf
set_all buf offset (b ∷ bs) = set_all (set buf offset b) (offset + 1) bs

-- The `match bytes`.
unfoldable pub splice :
    OperationBytes → (addr offset data_word : ℕ) → List ℕ → Result SwdError (List ℕ)
splice OperationBytes.byte1 addr offset data_word buf =
    ok (set_all buf offset (data_word % 2 ^ 8 ∷ []))
splice OperationBytes.byte2 addr offset data_word buf =
    if not (bit_and addr 1 == 0)
    then err SwdError.api
    else ok (set_all buf offset (u16_to_le_bytes (data_word % 2 ^ 16)))
splice OperationBytes.byte4 addr offset data_word buf =
    if not (bit_and addr 3 == 0)
    then err SwdError.api
    else ok (set_all buf offset (u32_to_le_bytes data_word))

-- `lo = u32::from_le_bytes(…); hi = u32::from_le_bytes(…);`
abbrev pub words_of : Result SwdError (List ℕ) → Result SwdError (ℕ × ℕ)
words_of (ok buf) = ok (
  u32_from_le_bytes (get_or buf 0 0) (get_or buf 1 0) (get_or buf 2 0) (get_or buf 3 0),
  u32_from_le_bytes (get_or buf 4 0) (get_or buf 5 0) (get_or buf 6 0) (get_or buf 7 0),
)
words_of (err e) = err e

-- The two words after the write, from those before it.
unfoldable pub rmw_words : OperationBytes → (addr data_word lo hi : ℕ) → Result SwdError (ℕ × ℕ)
rmw_words bytes addr data_word lo hi =
    words_of
      (splice bytes addr (addr - base_of addr) data_word (u32_to_le_bytes lo ++ u32_to_le_bytes hi))

-- The number of bytes that an operation writes.
abbrev pub width : OperationBytes → ℕ
width OperationBytes.byte1 = 1
width OperationBytes.byte2 = 2
width OperationBytes.byte4 = 4

offset_is : (addr : ℕ) → addr < 2 ^ 32 → addr - base_of addr ≡ addr % 8
offset_is addr h = ground (
  arith,
  bit_and_fields 3 (addr / 8) (addr % 8) 0x1fff_ffff 0 (omega arith) (omega arith),
  bit_and_ones 29 (addr / 8) (omega arith),
  bit_and-zero (addr % 8),
)

module _ {A : Type 0} where
  length-set : (xs : List A) (i : ℕ) (v : A) → length (set xs i v) ≡ length xs
  length-set [] i v = refl
  length-set (x ∷ xs) zero v = refl
  length-set (x ∷ xs) (suc i) v = ap suc (length-set xs i v)

  take-set :
      (xs : List A) (i : ℕ) (v : A)
      → i < length xs
      → take (suc i) (set xs i v) ≡ take i xs ++ v ∷ []
  take-set [] i v h = absurd (omega arith)
  take-set (x ∷ xs) zero v h = refl
  take-set (x ∷ xs) (suc i) v h = ap (λ l. x ∷ l) (take-set xs i v (omega arith))

  drop-set : (xs : List A) (i j : ℕ) (v : A) → i < j → drop j (set xs i v) ≡ drop j xs
  drop-set [] i j v h = refl
  drop-set (x ∷ xs) i zero v h = absurd (omega arith)
  drop-set (x ∷ xs) zero (suc j) v h = refl
  drop-set (x ∷ xs) (suc i) (suc j) v h = drop-set xs i j v (omega arith)

take-drop : (n : ℕ) (xs : List ℕ) → take n xs ++ drop n xs ≡ xs
take-drop zero xs = refl
take-drop (suc n) [] = refl
take-drop (suc n) (x ∷ xs) = ap (λ l. x ∷ l) (take-drop n xs)

set_all-patch :
    (buf : List ℕ) (offset : ℕ) (bs : List ℕ)
    → offset + length bs ≤ length buf
    → set_all buf offset bs ≡ take offset buf ++ (bs ++ drop (offset + length bs) buf)
unfolding set_all
set_all-patch buf offset [] h =
    let same : offset + 0 ≡ offset = omega arith in rw same (sym (take-drop offset buf))
set_all-patch buf offset (b ∷ bs) h =
    let fits : offset + 1 + length bs ≤ length (set buf offset b) =
      omega (arith, length-set buf offset b) in
    let next : offset + 1 ≡ suc offset = omega arith in
    let end : suc offset + length bs ≡ offset + suc (length bs) = omega arith in
    let later = set_all-patch (set buf offset b) (offset + 1) bs fits in
    let front = take-set buf offset b (omega arith) in
    let back = drop-set buf offset (offset + suc (length bs)) b (omega arith) in
    later ∙ rw (next, end, front, back) (append_assoc (take offset buf) (b ∷ []) _)

All-set : (P : ℕ → Type 0) (xs : List ℕ) (i v : ℕ) → P v → All P xs → All P (set xs i v)
All-set P [] i v p h = tt
All-set P (x ∷ xs) zero v p h = (p, h.1)
All-set P (x ∷ xs) (suc i) v p h = (h.0, All-set P xs i v p h.1)

All-set_all :
    (P : ℕ → Type 0) (buf : List ℕ) (offset : ℕ) (bs : List ℕ)
    → All P bs
    → All P buf
    → All P (set_all buf offset bs)
unfolding set_all
All-set_all P buf offset [] p h = h
All-set_all P buf offset (b ∷ bs) p h =
    All-set_all P (set buf offset b) (offset + 1) bs p.1 (All-set P buf offset b p.0 h)

length-set_all :
    (buf : List ℕ) (offset : ℕ) (bs : List ℕ) → length (set_all buf offset bs) ≡ length buf
unfolding set_all
length-set_all buf offset [] = refl
length-set_all buf offset (b ∷ bs) =
    length-set_all (set buf offset b) (offset + 1) bs ∙ length-set buf offset b

le_bytes :
    (a b c d : ℕ)
    → a < 256
    → b < 256
    → c < 256
    → d < 256
    → u32_to_le_bytes (u32_from_le_bytes a b c d) ≡ a ∷ b ∷ c ∷ d ∷ []
le_bytes a b c d ha hb hc hd = ground arith

abbrev IsByte : ℕ → Type 0
IsByte b = b < 256

-- The bytes of a double word.
abbrev pub bytes_of : ℕ → ℕ → List ℕ
bytes_of lo hi = u32_to_le_bytes lo ++ u32_to_le_bytes hi

words_of-bytes :
    (buf : List ℕ) (lo hi : ℕ)
    → length buf ≡ 8
    → All IsByte buf
    → words_of (ok buf) ≡ ok (lo, hi)
    → bytes_of lo hi ≡ buf
words_of-bytes [] lo hi l h e = absurd (omega arith)
words_of-bytes (a ∷ []) lo hi l h e = absurd (omega arith)
words_of-bytes (a ∷ b ∷ []) lo hi l h e = absurd (omega arith)
words_of-bytes (a ∷ b ∷ c ∷ []) lo hi l h e = absurd (omega arith)
words_of-bytes (a ∷ b ∷ c ∷ d ∷ []) lo hi l h e = absurd (omega arith)
words_of-bytes (a ∷ b ∷ c ∷ d ∷ x ∷ []) lo hi l h e = absurd (omega arith)
words_of-bytes (a ∷ b ∷ c ∷ d ∷ x ∷ y ∷ []) lo hi l h e = absurd (omega arith)
words_of-bytes (a ∷ b ∷ c ∷ d ∷ x ∷ y ∷ z ∷ []) lo hi l h e = absurd (omega arith)
words_of-bytes (a ∷ b ∷ c ∷ d ∷ x ∷ y ∷ z ∷ w ∷ []) lo hi l
      (ha, (hb, (hc, (hd, (hx, (hy, (hz, (hw, _)))))))) e =
    let words : ℕ × ℕ = (u32_from_le_bytes a b c d, u32_from_le_bytes x y z w) in
    let both : ◌≡◌ {A = ℕ × ℕ} words (lo, hi) = cc in
    let low : u32_from_le_bytes a b c d ≡ lo = ap (λ p. p.0) both in
    let high : u32_from_le_bytes x y z w ≡ hi = ap (λ p. p.1) both in
    rw (sym low, sym high)
      (ap (λ l. l ++ u32_to_le_bytes (u32_from_le_bytes x y z w)) (le_bytes a b c d ha hb hc hd)
        ∙ ap (λ l. (a ∷ b ∷ c ∷ d ∷ []) ++ l) (le_bytes x y z w hx hy hz hw))
words_of-bytes (a ∷ b ∷ c ∷ d ∷ x ∷ y ∷ z ∷ w ∷ v ∷ rest) lo hi l h e = absurd (omega arith)

bytes_of-bytes : (lo hi : ℕ) → All IsByte (bytes_of lo hi)
bytes_of-bytes lo hi = ground arith

byte2_of : (v : ℕ) → u16_to_le_bytes (v % 2 ^ 16) ≡ take 2 (u32_to_le_bytes v)
byte2_of v = ground arith

aligned_2 : (addr : ℕ) → (bit_and addr 1 == 0) ≡ true → addr % 8 + 2 ≤ 8
aligned_2 addr h = ground (arith, bit_and_low_mask 1 addr)

aligned_4 : (addr : ℕ) → (bit_and addr 3 == 0) ≡ true → addr % 8 + 4 ≤ 8
aligned_4 addr h = ground (arith, bit_and_low_mask 2 addr)

patched :
    (lo hi lo' hi' offset : ℕ) (bs : List ℕ)
    → offset + length bs ≤ 8
    → All IsByte bs
    → words_of (ok (set_all (bytes_of lo hi) offset bs)) ≡ ok (lo', hi')
    → bytes_of lo' hi'
      ≡ take offset (bytes_of lo hi) ++ (bs ++ drop (offset + length bs) (bytes_of lo hi))
patched lo hi lo' hi' offset bs h p e =
    let buf = set_all (bytes_of lo hi) offset bs in
    words_of-bytes buf lo' hi' (length-set_all (bytes_of lo hi) offset bs)
      (All-set_all IsByte (bytes_of lo hi) offset bs p (bytes_of-bytes lo hi)) e
    ∙ set_all-patch (bytes_of lo hi) offset bs h

-- A read-modify-write of a double word, at an address below 2 ^ 32, that passes the check of its
-- alignment leaves all its bytes as they were, except those that the operation writes, at the
-- address's place in the double word, which are the low bytes of the value.
pub rmw_words-patch :
    (bytes : OperationBytes) (addr data_word lo hi lo' hi' : ℕ)
    → addr < 2 ^ 32
    → rmw_words bytes addr data_word lo hi ≡ ok (lo', hi')
    → bytes_of lo' hi'
      ≡ take (addr % 8) (bytes_of lo hi)
        ++ (take (width bytes) (u32_to_le_bytes data_word)
            ++ drop (addr % 8 + width bytes) (bytes_of lo hi))
unfolding rmw_words splice
rmw_words-patch OperationBytes.byte1 addr data_word lo hi lo' hi' h e =
    let at_offset = rw (offset_is addr h) at e in
    patched lo hi lo' hi' (addr % 8) (data_word % 2 ^ 8 ∷ []) (omega arith) (omega arith, tt)
      at_offset
rmw_words-patch OperationBytes.byte2 addr data_word lo hi lo' hi' h e =
    elim (Bool-cases (bit_and addr 1 == 0)) [
      | inl b ↦
          let at_offset = rw (offset_is addr h, b, byte2_of data_word) at e in
          patched lo hi lo' hi' (addr % 8) (take 2 (u32_to_le_bytes data_word)) (aligned_2 addr b)
            (omega arith, (omega arith, tt)) at_offset
      | inr b ↦ let refused : err SwdError.api ≡ ok (lo', hi') = rw b at e in absurd cc
    ]
rmw_words-patch OperationBytes.byte4 addr data_word lo hi lo' hi' h e =
    elim (Bool-cases (bit_and addr 3 == 0)) [
      | inl b ↦
          let at_offset = rw (offset_is addr h, b) at e in
          patched lo hi lo' hi' (addr % 8) (u32_to_le_bytes data_word) (aligned_4 addr b)
            (omega arith, (omega arith, (omega arith, (omega arith, tt)))) at_offset
      | inr b ↦ let refused : err SwdError.api ≡ ok (lo', hi') = rw b at e in absurd cc
    ]
