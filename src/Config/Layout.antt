-- ===== src/Config/Layout.antt =====
-- The structs of airfrog/src/config.rs as the bytes that they are copied to and from, on a machine
-- that stores the low byte of a number first.
use airfrog.Prelude.{
  ℕ, ◌+◌, ◌-◌, ◌^◌, ◌<◌, ◌≡◌, refl, ap, sym, ◌∙◌, arith, List, [], ◌∷◌, ◌++◌, take, drop, length,
  get_or, take-append, drop-append, length-append, length-drop, map, replicate, zero, suc, ◌≤◌,
}
use mathlib.Core.List.{append_assoc}
use airfrog.Prelude.Bytes.{
  u16_to_le_bytes, u32_to_le_bytes, u16_from_le_bytes, u32_from_le_bytes, u32_bytes, u16_bytes,
}

-- The fields of a struct one after the other.
unfoldable pub joined : List (List ℕ) → List ℕ
joined [] = []
joined (f ∷ fs) = f ++ joined fs

-- The fields of the given sizes at the start of some bytes.
unfoldable pub fields : List ℕ → List ℕ → List (List ℕ)
fields [] bs = []
fields (n ∷ ns) bs = take n bs ∷ fields ns (drop n bs)

abbrev pub u16_of : List ℕ → ℕ
u16_of bs = u16_from_le_bytes (get_or bs 0 0) (get_or bs 1 0)

abbrev pub u32_of : List ℕ → ℕ
u32_of bs = u32_from_le_bytes (get_or bs 0 0) (get_or bs 1 0) (get_or bs 2 0) (get_or bs 3 0)

abbrev pub total : List ℕ → ℕ
total [] = 0
total (n ∷ ns) = n + total ns

-- `dst[i..i + bytes.len()].copy_from_slice(bytes)`
unfoldable pub write_at : List ℕ → ℕ → List ℕ → List ℕ
write_at buf i bs = take i buf ++ (bs ++ drop (i + length bs) buf)

pub take-field : (n : ℕ) (xs ys : List ℕ) → length xs ≡ n → take n (xs ++ ys) ≡ xs
take-field n xs ys h = ap (λ k. take k (xs ++ ys)) (sym h) ∙ take-append xs ys

pub drop-field : (n : ℕ) (xs ys : List ℕ) → length xs ≡ n → drop n (xs ++ ys) ≡ ys
drop-field n xs ys h = ap (λ k. drop k (xs ++ ys)) (sym h) ∙ drop-append xs ys

pub u32_of-bytes : (v : ℕ) → v < 2 ^ 32 → u32_of (u32_to_le_bytes v) ≡ v
u32_of-bytes v h = u32_bytes v h

pub u16_of-bytes : (v : ℕ) → v < 2 ^ 16 → u16_of (u16_to_le_bytes v) ≡ v
u16_of-bytes v h = u16_bytes v h

pub fields-joined :
    (ns : List ℕ) (fs : List (List ℕ)) (rest : List ℕ)
    → map length fs ≡ ns
    → fields ns (joined fs ++ rest) ≡ fs
unfolding fields joined
fields-joined ns fs rest h = rw (sym h) (own fs rest)
  where
    own : (fs : List (List ℕ)) (rest : List ℕ) → fields (map length fs) (joined fs ++ rest) ≡ fs
    own [] rest = refl
    own (f ∷ fs) rest =
        let parts = append_assoc f (joined fs) rest in
        let first = take-append f (joined fs ++ rest) in
        let others = drop-append f (joined fs ++ rest) in
        rw (parts, first, others) (ap (◌∷◌ f) (own fs rest))

pub length-joined : (fs : List (List ℕ)) → length (joined fs) ≡ total (map length fs)
unfolding joined
length-joined [] = refl
length-joined (f ∷ fs) = omega (arith, length-append f (joined fs), length-joined fs)

-- An array of `n` bytes 0xFF with text at its start, cut to the array.
unfoldable pub padded : ℕ → List ℕ → List ℕ
padded n text = write_at (replicate n 0xff) 0 (take n text)

pub length-replicate : (n x : ℕ) → length (replicate n x) ≡ n
length-replicate zero x = refl
length-replicate (suc n) x = ap suc (length-replicate n x)

length-take_le : (n : ℕ) (xs : List ℕ) → length (take n xs) ≤ n
length-take_le zero xs = omega arith
length-take_le (suc n) [] = omega arith
length-take_le (suc n) (x ∷ xs) = omega (arith, length-take_le n xs)

pub length-padded : (n : ℕ) (text : List ℕ) → length (padded n text) ≡ n
unfolding padded write_at
length-padded n text =
    let front = take n text in
    let back : List ℕ = replicate n 0xff in
    omega (
      arith,
      length-append front (drop (0 + length front) back),
      length-drop (0 + length front) back,
      length-replicate n 0xff,
      length-take_le n text,
    )

pub drop-replicate : (k n x : ℕ) → drop k (replicate n x) ≡ replicate (n - k) x
drop-replicate zero n x = let same : n - 0 ≡ n = omega arith in rw same refl
drop-replicate (suc k) zero x = let none : 0 - suc k ≡ 0 = omega arith in rw none refl
drop-replicate (suc k) (suc n) x =
    let same : suc n - suc k ≡ n - k = omega arith in rw same (drop-replicate k n x)

pub take-all : (n : ℕ) (xs : List ℕ) → length xs ≤ n → take n xs ≡ xs
take-all zero [] h = refl
take-all zero (x ∷ xs) h = absurd (omega arith)
take-all (suc n) [] h = refl
take-all (suc n) (x ∷ xs) h = ap (◌∷◌ x) (take-all n xs (omega arith))
