-- ===== src/Target/HexText.antt =====
-- Words as hexadecimal text in airfrog/src/target/mod.rs. Text is its UTF-8 bytes.
use airfrog.Prelude.{
  ℕ, ◌+◌, ◌-◌, ◌*◌, ◌/◌, ◌%◌, ◌^◌, ◌<◌, ◌==◌, ◌≡◌, refl, ap, ◌∙◌, arith, leb, ltb, true, false,
  ◌&&◌, if◌then◌else◌, Option, some, none, List, [], ◌∷◌,
}

abbrev pub Text : Type 0
Text = List ℕ

-- `{:X}` of a digit
unfoldable pub upper_digit : ℕ → ℕ
upper_digit d = if ltb d 10 then 0x30 + d else 0x37 + d

-- `format!("0x{word:08X}")`, and `format!("{word:#010X}")`
unfoldable pub format_word : ℕ → Text
format_word w =
    0x30
    ∷ 0x78
    ∷ upper_digit (w / 16 ^ 7 % 16)
    ∷ upper_digit (w / 16 ^ 6 % 16)
    ∷ upper_digit (w / 16 ^ 5 % 16)
    ∷ upper_digit (w / 16 ^ 4 % 16)
    ∷ upper_digit (w / 16 ^ 3 % 16)
    ∷ upper_digit (w / 16 ^ 2 % 16)
    ∷ upper_digit (w / 16 % 16)
    ∷ upper_digit (w % 16)
    ∷ []

-- `trim_start_matches("0x")`
unfoldable pub trim_0x : Text → Text
trim_0x [] = []
trim_0x (a ∷ []) = a ∷ []
trim_0x (a ∷ b ∷ rest) =
    let trimmed = trim_0x rest in if (a == 0x30) && (b == 0x78) then trimmed else a ∷ b ∷ rest

-- The value of a hexadecimal digit, in upper or lower case.
unfoldable pub digit_of : ℕ → Option ℕ
digit_of c =
    if leb 0x30 c && leb c 0x39
    then some (c - 0x30)
    else if leb 0x41 c && leb c 0x46
    then some (c - 0x37)
    else if leb 0x61 c && leb c 0x66
    then some (c - 0x57)
    else none

-- A digit after a value; a value that a `u32` does not hold is an error.
abbrev pub with_digit : ℕ → Option ℕ → Option ℕ
with_digit value none = none
with_digit value (some d) = if ltb (value * 16 + d) (2 ^ 32) then some (value * 16 + d) else none

unfoldable pub digits_from : Option ℕ → Text → Option ℕ
digits_from none cs = none
digits_from (some value) [] = some value
digits_from (some value) (c ∷ cs) = digits_from (with_digit value (digit_of c)) cs

-- `u32::from_str_radix(_, 16)`: a `+` may stand in front, and there is at least one digit.
unfoldable pub from_str_radix_16 : Text → Option ℕ
from_str_radix_16 [] = none
from_str_radix_16 (c ∷ []) = digits_from (some 0) (c ∷ [])
from_str_radix_16 (c ∷ d ∷ cs) =
    if c == 0x2b then digits_from (some 0) (d ∷ cs) else digits_from (some 0) (c ∷ d ∷ cs)

-- `u32::from_str_radix(s.trim_start_matches("0x"), 16)`
unfoldable pub parse_hex_word : Text → Option ℕ
parse_hex_word s = from_str_radix_16 (trim_0x s)

digit_of-upper : (d : ℕ) → d < 16 → digit_of (upper_digit d) ≡ some d
unfolding digit_of upper_digit
digit_of-upper d h = ground arith

upper_not_x : (d : ℕ) → d < 16 → upper_digit d == 0x78 ≡ false
unfolding upper_digit
upper_not_x d h = ground arith

upper_not_plus : (d : ℕ) → d < 16 → upper_digit d == 0x2b ≡ false
unfolding upper_digit
upper_not_plus d h = ground arith

next_digit :
    (w d k : ℕ) (cs : Text)
    → w < 2 ^ 32
    → d < 16
    → k * 16 + d ≡ w
    → digits_from (some k) (upper_digit d ∷ cs) ≡ digits_from (some w) cs
unfolding digits_from
next_digit w d k cs h l e =
    let inside : ltb (k * 16 + d) (2 ^ 32) ≡ true = ground arith in
    let value : with_digit k (digit_of (upper_digit d)) ≡ some w =
      rw (digit_of-upper d l, inside, e) refl in
    ap (λ o. digits_from o cs) value

digits_done : (w : ℕ) → digits_from (some w) [] ≡ some w
unfolding digits_from
digits_done w = refl

trim_0x-digits :
    (a b : ℕ) (rest : Text) → b < 16 → trim_0x (a ∷ upper_digit b ∷ rest) ≡ a ∷ upper_digit b ∷ rest
unfolding trim_0x
trim_0x-digits a b rest h =
    let no : ((a == 0x30) && (upper_digit b == 0x78)) ≡ false = ground (arith, upper_not_x b h) in
    rw no refl

-- A word that is written as text is read back.
pub parse_hex_word-format : (w : ℕ) → w < 2 ^ 32 → parse_hex_word (format_word w) ≡ some w
unfolding parse_hex_word format_word from_str_radix_16 trim_0x
parse_hex_word-format w h =
    let plain =
      trim_0x-digits (upper_digit (w / 16 ^ 7 % 16)) (w / 16 ^ 6 % 16)
        (upper_digit (w / 16 ^ 5 % 16)
          ∷ upper_digit (w / 16 ^ 4 % 16)
          ∷ upper_digit (w / 16 ^ 3 % 16)
          ∷ upper_digit (w / 16 ^ 2 % 16)
          ∷ upper_digit (w / 16 % 16)
          ∷ upper_digit (w % 16)
          ∷ [])
        (omega arith) in
    rw (plain, upper_not_plus (w / 16 ^ 7 % 16) (omega arith))
      (next_digit (w / 16 ^ 7) _ 0 _ (omega arith) (omega arith) (omega arith)
        ∙ next_digit (w / 16 ^ 6) _ (w / 16 ^ 7) _ (omega arith) (omega arith) (omega arith)
        ∙ next_digit (w / 16 ^ 5) _ (w / 16 ^ 6) _ (omega arith) (omega arith) (omega arith)
        ∙ next_digit (w / 16 ^ 4) _ (w / 16 ^ 5) _ (omega arith) (omega arith) (omega arith)
        ∙ next_digit (w / 16 ^ 3) _ (w / 16 ^ 4) _ (omega arith) (omega arith) (omega arith)
        ∙ next_digit (w / 16 ^ 2) _ (w / 16 ^ 3) _ (omega arith) (omega arith) (omega arith)
        ∙ next_digit (w / 16) _ (w / 16 ^ 2) _ (omega arith) (omega arith) (omega arith)
        ∙ next_digit w _ (w / 16) _ h (omega arith) (omega arith)
        ∙ digits_done w)
