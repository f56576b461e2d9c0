-- ===== src/Target/Path.antt =====
-- The text of a REST request: the paths that airfrog/src/target/request.rs compares and takes apart,
-- and decimal numbers. Text is its UTF-8 bytes.
use Prim.Native.Char.{code}
use Prim.Native.String.{String}
use airfrog.Prelude.{
  ℕ, ◌+◌, ◌-◌, ◌*◌, ◌^◌, ◌==◌, leb, ltb, Bool, true, false, ◌&&◌, if◌then◌else◌, Option, some, none,
  List, [], ◌∷◌,
}
use airfrog.Target.HexText.{Text}

-- The bytes of an ASCII literal.
abbrev pub ascii : String → Text
ascii String.[] = []
ascii (String.◌∷◌ c s) = code c ∷ ascii s

abbrev pub slash : ℕ
slash = 0x2f

unfoldable pub same_text : Text → Text → Bool
same_text [] [] = true
same_text (x ∷ xs) (y ∷ ys) = (x == y) && same_text xs ys
same_text _ _ = false

-- `path.strip_prefix(prefix)`
unfoldable pub strip_prefix : Text → Text → Option Text
strip_prefix [] path = some path
strip_prefix (x ∷ xs) [] = none
strip_prefix (x ∷ xs) (y ∷ ys) = let rest = strip_prefix xs ys in if x == y then rest else none

-- A byte in front of the first part.
abbrev pub on_first : ℕ → List Text → List Text
on_first c [] = (c ∷ []) ∷ []
on_first c (part ∷ parts) = (c ∷ part) ∷ parts

-- `path.split('/')`
unfoldable pub split : Text → List Text
split [] = [] ∷ []
split (c ∷ cs) = let parts = split cs in if c == slash then [] ∷ parts else on_first c parts

-- A byte of `to_lowercase`; no character outside ASCII becomes one of the letters that the result is
-- compared with.
unfoldable pub to_lower : ℕ → ℕ
to_lower c = if leb 0x41 c && leb c 0x5a then c + 0x20 else c

abbrev pub with_decimal : ℕ → ℕ → Option ℕ
with_decimal value c =
    if leb 0x30 c && leb c 0x39 && ltb (value * 10 + (c - 0x30)) (2 ^ 32)
    then some (value * 10 + (c - 0x30))
    else none

unfoldable pub decimal_from : Option ℕ → Text → Option ℕ
decimal_from none cs = none
decimal_from (some value) [] = some value
decimal_from (some value) (c ∷ cs) = decimal_from (with_decimal value c) cs

-- `parse::<u32>()`
unfoldable pub parse_u32 : Text → Option ℕ
parse_u32 [] = none
parse_u32 (c ∷ []) = decimal_from (some 0) (c ∷ [])
parse_u32 (c ∷ d ∷ cs) =
    if c == 0x2b then decimal_from (some 0) (d ∷ cs) else decimal_from (some 0) (c ∷ d ∷ cs)
