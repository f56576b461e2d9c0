-- ===== src/Config/Text.antt =====
-- The text of a `Net` in airfrog/src/config.rs: how it is put into its arrays and taken out of them.
use airfrog.Prelude.{
  ℕ, zero, suc, ◌+◌, ◌-◌, ◌<◌, ◌≤◌, ◌==◌, ◌≡◌, refl, ap, ◌∙◌, arith, leb, ltb, Bool, true, false,
  not, ◌&&◌, if◌then◌else◌, Option, some, none, List, [], ◌∷◌, ◌++◌, length, replicate, All,
}
use airfrog.Config.Layout.{padded, write_at, drop-replicate, take-all}
use mathlib.Core.List.{append-nil}
use airfrog.Config.Net.{Net}

-- What the first byte of a character says: how many more bytes there are, and the bounds of the next.
unfoldable pub lead : ℕ → Option (ℕ × ℕ × ℕ)
lead b =
    if ltb b 0x80
    then some (0, 0x80, 0xbf)
    else if ltb b 0xc2
    then none
    else if ltb b 0xe0
    then some (1, 0x80, 0xbf)
    else if b == 0xe0
    then some (2, 0xa0, 0xbf)
    else if b == 0xed
    then some (2, 0x80, 0x9f)
    else if ltb b 0xf0
    then some (2, 0x80, 0xbf)
    else if b == 0xf0
    then some (3, 0x90, 0xbf)
    else if ltb b 0xf4
    then some (3, 0x80, 0xbf)
    else if b == 0xf4
    then some (3, 0x80, 0x8f)
    else none

-- What `String::from_utf8` accepts. `need` bytes of a character are still to come, the next of them
-- from `lo` to `hi`.
unfoldable pub is_utf8_from : (need lo hi : ℕ) → List ℕ → Bool
is_utf8_from zero lo hi [] = true
is_utf8_from (suc need) lo hi [] = false
is_utf8_from (suc need) lo hi (b ∷ bs) =
    let rest = is_utf8_from need 0x80 0xbf bs in leb lo b && leb b hi && rest
is_utf8_from zero lo hi (b ∷ bs) = elim (lead b) [
  | none ↦ false
  | some (need, lo', hi') ↦ is_utf8_from need lo' hi' bs
]

abbrev pub is_utf8 : List ℕ → Bool
is_utf8 bs = is_utf8_from 0 0x80 0xbf bs

-- `take_while(|&&b| b != 0xFF && b != 0)`
unfoldable pub trimmed : List ℕ → List ℕ
trimmed [] = []
trimmed (b ∷ bs) = let rest = trimmed bs in if not (b == 0xff) && not (b == 0) then b ∷ rest else []

unfoldable pub get_string : List ℕ → Option (List ℕ)
get_string bs = if is_utf8 (trimmed bs) then some (trimmed bs) else none

-- `"x".repeat(8 - pass.len())` after a password that is too short.
abbrev pub lengthened : Option (List ℕ) → Option (List ℕ)
lengthened none = none
lengthened (some pass) =
    if ltb (length pass) 8 then some (pass ++ replicate (8 - length pass) 0x78) else some pass

unfoldable pub ap_password : Net → Option (List ℕ)
ap_password n = lengthened (get_string n.ap_password)

lead-bounds : (b n lo hi : ℕ) → lead b ≡ some (n, lo, hi) → (b < 0xff) × (hi < 0xff)
unfolding lead
lead-bounds b n lo hi h = ground arith

both_after : (x y z : Bool) → x && y && z ≡ true → (y ≡ true) × (z ≡ true)
both_after x y z h = ground arith

no_byte_ff :
    (need lo hi : ℕ) (bs : List ℕ)
    → hi < 0xff
    → is_utf8_from need lo hi bs ≡ true
    → All (λ b. b < 0xff) bs
unfolding is_utf8_from
no_byte_ff zero lo hi [] h e = tt
no_byte_ff (suc need) lo hi [] h e = tt
no_byte_ff (suc need) lo hi (b ∷ bs) h e =
    let (below, rest) = both_after (leb lo b) (leb b hi) (is_utf8_from need 0x80 0xbf bs) e in
    (ground arith, no_byte_ff need 0x80 0xbf bs (omega arith) rest)
no_byte_ff zero lo hi (b ∷ bs) h e =
    first (lead b) refl (λ n lo' hi' high rest. no_byte_ff n lo' hi' bs high rest)
  where
    first :
        (o : Option (ℕ × ℕ × ℕ))
        → lead b ≡ o
        → ((n lo' hi' : ℕ) → hi' < 0xff → is_utf8_from n lo' hi' bs ≡ true → All (λ c. c < 0xff) bs)
        → All (λ c. c < 0xff) (b ∷ bs)
    first none l later = let never : false ≡ true = rw (l, is_utf8_from) at e in absurd cc
    first (some (n, lo', hi')) l later =
        let (small, high) = lead-bounds b n lo' hi' l in
        let rest : is_utf8_from n lo' hi' bs ≡ true = rw (l, is_utf8_from) at e in
        (small, later n lo' hi' high rest)

All-and :
    (bs : List ℕ)
    → All (λ b. b < 0xff) bs
    → All (λ b. 0 < b) bs
    → All (λ b. (b < 0xff) × (0 < b)) bs
All-and [] h k = tt
All-and (b ∷ bs) h k = ((h.0, k.0), All-and bs h.1 k.1)

trimmed-append :
    (text rest : List ℕ)
    → All (λ b. (b < 0xff) × (0 < b)) text
    → trimmed (text ++ rest) ≡ text ++ trimmed rest
unfolding trimmed
trimmed-append [] rest h = refl
trimmed-append (b ∷ bs) rest h =
    let inside : (not (b == 0xff) && not (b == 0)) ≡ true = ground (arith, h.0) in
    rw inside (ap (◌∷◌ b) (trimmed-append bs rest h.1))

trimmed-blank : (n : ℕ) → trimmed (replicate n 0xff) ≡ []
unfolding trimmed
trimmed-blank zero = refl
trimmed-blank (suc n) = refl

-- Text without a zero byte that fits into its array is taken out of it as it was put in.
pub get_string-padded :
    (n : ℕ) (text : List ℕ)
    → is_utf8 text ≡ true
    → All (λ b. 0 < b) text
    → length text ≤ n
    → get_string (padded n text) ≡ some text
unfolding get_string padded write_at
get_string-padded n text utf8 nonzero fits =
    let inside = All-and text (no_byte_ff 0 0x80 0xbf text (omega arith) utf8) nonzero in
    let whole = take-all n text fits in
    let blank = drop-replicate (0 + length text) n 0xff in
    let kept : trimmed (text ++ replicate (n - (0 + length text)) 0xff) ≡ text =
      trimmed-append text _ inside
      ∙ ap (λ l. text ++ l) (trimmed-blank (n - (0 + length text)))
      ∙ append-nil text in
    rw (whole, blank, kept, utf8) refl
