-- ===== src/Firmware/Reading.antt =====
-- The bytes that `FirmwareReader` of airfrog/src/firmware/mod.rs reads.
use airfrog.Prelude.{
  ℕ, zero, suc, ◌+◌, ◌-◌, ◌*◌, ◌%◌, ◌^◌, ◌<◌, ◌≤◌, ◌≡◌, refl, ap, ◌∙◌, arith, leb, ltb, true, false,
  Bool-cases, inl, inr, length-drop, ◌&&◌, if_both, if◌then◌else◌, List, [], ◌∷◌, ◌++◌, length, set,
  take, drop, map, All,
}
use airfrog.Prelude.Bytes.{u32_to_le_bytes}
use airfrog.Bin.Error.{ok}
use airfrog.Target.HexText.{format_word, parse_hex_word-format}
use airfrog.Target.Types.{Command, Payload, Response, default, with_data}
use airfrog.Firmware.{aligned_down, word_count, put_byte, put_bytes, or_fail, fill, read}

-- The bytes of words, lowest first.
abbrev pub le_bytes : List ℕ → List ℕ
le_bytes [] = []
le_bytes (w ∷ ws) = u32_to_le_bytes w ++ le_bytes ws

-- The response to a bulk read.
abbrev pub words_answer : List ℕ → Response
words_answer ws = with_data (Payload.word_texts (map format_word ws)) default

length-le_bytes : (ws : List ℕ) → length (le_bytes ws) ≡ 4 * length ws
length-le_bytes [] = refl
length-le_bytes (w ∷ ws) = omega (arith, length-le_bytes ws)

put_byte-before : (off idx b : ℕ) (buf : List ℕ) → idx < off → put_byte off idx b buf ≡ buf
put_byte-before off idx b buf h = let early : leb off idx ≡ false = ground arith in rw early refl

set_behind :
    (k b x : ℕ) (xs : List ℕ)
    → (if ltb (suc k) (suc (length xs)) then x ∷ set xs k b else x ∷ xs)
      ≡ x ∷ (if ltb k (length xs) then set xs k b else xs)
set_behind k b x xs = elim (Bool-cases (ltb k (length xs))) [
  | inl h ↦ let step : ltb (suc k) (suc (length xs)) ≡ true = ground arith in rw (step, h) refl
  | inr h ↦ let step : ltb (suc k) (suc (length xs)) ≡ false = ground arith in rw (step, h) refl
]

put_byte-shift :
    (off idx b x : ℕ) (xs : List ℕ)
    → off ≤ idx
    → put_byte off (idx + 1) b (x ∷ xs) ≡ x ∷ put_byte off idx b xs
put_byte-shift off idx b x xs h =
    let late : leb off (idx + 1) ≡ true = ground arith in
    let later : leb off idx ≡ true = ground arith in
    let next : idx + 1 - off ≡ suc (idx - off) = omega arith in
    rw (late, later, next) (set_behind (idx - off) b x xs)

put_bytes-shift :
    (off idx x : ℕ) (bs xs : List ℕ)
    → off ≤ idx
    → put_bytes off (idx + 1) bs (x ∷ xs) ≡ x ∷ put_bytes off idx bs xs
unfolding put_bytes
put_bytes-shift off idx x [] xs h = refl
put_bytes-shift off idx x (b ∷ bs) xs h =
    ap (put_bytes off (idx + 1 + 1) bs) (put_byte-shift off idx b x xs h)
    ∙ put_bytes-shift off (idx + 1) x bs (put_byte off idx b xs) (omega arith)

put_byte-[] : (off idx b : ℕ) → put_byte off idx b [] ≡ []
put_byte-[] off idx b =
    if_both (λ x. x ≡ []) (leb off idx && ltb (idx - off) 0) _ _ (λ _. refl) (λ _. refl)

put_bytes-[] : (off idx : ℕ) (bs : List ℕ) → put_bytes off idx bs [] ≡ []
unfolding put_bytes
put_bytes-[] off idx [] = refl
put_bytes-[] off idx (b ∷ bs) =
    ap (put_bytes off (idx + 1) bs) (put_byte-[] off idx b) ∙ put_bytes-[] off (idx + 1) bs

first_byte :
    (off b x : ℕ) (bs xs : List ℕ)
    → put_bytes off off (b ∷ bs) (x ∷ xs) ≡ b ∷ put_bytes off off bs xs
unfolding put_bytes
first_byte off b x bs xs =
    let here : leb off off ≡ true = ground arith in
    let zero_apart : off - off ≡ 0 = omega arith in
    let room : ltb 0 (suc (length xs)) ≡ true = ground arith in
    let placed : put_byte off off b (x ∷ xs) ≡ b ∷ xs = rw (here, zero_apart, room) refl in
    ap (put_bytes off (off + 1) bs) placed ∙ put_bytes-shift off off b bs xs (omega arith)

-- Bytes that start at the offset fill the buffer.
put_bytes-take :
    (off : ℕ) (bs buf : List ℕ)
    → length buf ≤ length bs
    → put_bytes off off bs buf ≡ take (length buf) bs
put_bytes-take off bs [] h = put_bytes-[] off off bs
put_bytes-take off [] (x ∷ xs) h = absurd (omega arith)
put_bytes-take off (b ∷ bs) (x ∷ xs) h =
    first_byte off b x bs xs ∙ ap (◌∷◌ b) (put_bytes-take off bs xs (omega arith))

-- Bytes in front of the offset are passed over.
put_bytes-drop :
    (k idx off : ℕ) (bs buf : List ℕ)
    → idx + k ≡ off
    → k ≤ length bs
    → put_bytes off idx bs buf ≡ put_bytes off off (drop k bs) buf
unfolding put_bytes
put_bytes-drop zero idx off bs buf e h = let same : idx ≡ off = omega arith in rw same refl
put_bytes-drop (suc k) idx off [] buf e h = absurd (omega arith)
put_bytes-drop (suc k) idx off (b ∷ bs) buf e h =
    ap (put_bytes off (idx + 1) bs) (put_byte-before off idx b buf (omega arith))
    ∙ put_bytes-drop k (idx + 1) off bs buf (omega arith) (omega arith)

put_word :
    (off idx w : ℕ) (bs buf : List ℕ)
    → put_bytes off (idx + 4) bs (put_bytes off idx (u32_to_le_bytes w) buf)
      ≡ put_bytes off idx (u32_to_le_bytes w ++ bs) buf
unfolding put_bytes
put_word off idx w bs buf = let four : idx + 1 + 1 + 1 + 1 ≡ idx + 4 = omega arith in rw four refl

fill-words :
    (off idx : ℕ) (ws buf : List ℕ)
    → All (λ w. w < 2 ^ 32) ws
    → fill off idx (map format_word ws) buf ≡ (ok tt, put_bytes off idx (le_bytes ws) buf)
unfolding fill put_bytes
fill-words off idx [] buf h = refl
fill-words off idx (w ∷ ws) buf (h, hs) =
    ap
      (λ o.
        or_fail o
          (λ v. fill off (idx + 4) (map format_word ws) (put_bytes off idx (u32_to_le_bytes v) buf))
          buf)
      (parse_hex_word-format w h)
    ∙ fill-words off (idx + 4) ws (put_bytes off idx (u32_to_le_bytes w) buf) hs
    ∙ ap (λ b. (ok tt, b)) (put_word off idx w (le_bytes ws) buf)

word_count-enough :
    (addr len : ℕ) → addr + len + 3 < 2 ^ 32 → addr % 4 + len ≤ 4 * word_count addr len
unfolding word_count
word_count-enough addr len h = omega arith

module _ {S : Type 0} (ask : Command → S → Response × S) where
  -- If the target task answers the request for words with 32-bit words, as many as were asked for, the
  -- reader succeeds and has their bytes, lowest first, from the address on, whether or not it or the
  -- length is a multiple of 4; for an address and a length that a `u32` holds.
  pub read-le_bytes :
      (addr : ℕ) (buf ws : List ℕ) (s s' : S)
      → addr + length buf + 3 < 2 ^ 32
      → All (λ w. w < 2 ^ 32) ws
      → length ws ≡ word_count addr (length buf)
      → ask
          (Command.read_mem_bulk (format_word (aligned_down addr)) (word_count addr (length buf)))
          s
        ≡ (words_answer ws, s')
      → read ask addr buf s ≡ ((ok tt, take (length buf) (drop (addr % 4) (le_bytes ws))), s')
  unfolding read
  read-le_bytes addr buf ws s s' h small count answer =
      let enough = word_count-enough addr (length buf) h in
      let size = length-le_bytes ws in
      let rest = length-drop (addr % 4) (le_bytes ws) in
      let filled : fill (addr % 4) 0 (map format_word ws) buf
          ≡ (ok tt, take (length buf) (drop (addr % 4) (le_bytes ws))) =
        fill-words (addr % 4) 0 ws buf small
        ∙ ap (λ b. (ok tt, b))
            (put_bytes-drop (addr % 4) 0 (addr % 4) (le_bytes ws) buf (omega arith) (omega arith)
              ∙ put_bytes-take (addr % 4) (drop (addr % 4) (le_bytes ws)) buf (omega arith)) in
      rw answer (ap (λ f. (f, s')) filled)
