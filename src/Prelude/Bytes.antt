-- ===== src/Prelude/Bytes.antt =====
-- The standard library's little-endian conversions, `from_le_bytes` and `to_le_bytes`.
use Prim.Native.Nat.{ℕ, ◌+◌, ◌*◌, ◌/◌, ◌%◌, ◌^◌, ◌<◌}
use mathlib.Core.Path.{◌≡◌}
use mathlib.Core.List.{List, [], ◌∷◌}
use native.Mathlib.Omega.{arith}

abbrev pub u16_from_le_bytes : ℕ → ℕ → ℕ
u16_from_le_bytes a b = a + 2 ^ 8 * b

abbrev pub u32_from_le_bytes : ℕ → ℕ → ℕ → ℕ → ℕ
u32_from_le_bytes a b c d = a + 2 ^ 8 * b + 2 ^ 16 * c + 2 ^ 24 * d

abbrev pub u16_to_le_bytes : ℕ → List ℕ
u16_to_le_bytes v = v % 2 ^ 8 ∷ v / 2 ^ 8 % 2 ^ 8 ∷ []

abbrev pub u32_to_le_bytes : ℕ → List ℕ
u32_to_le_bytes v = v % 2 ^ 8 ∷ v / 2 ^ 8 % 2 ^ 8 ∷ v / 2 ^ 16 % 2 ^ 8 ∷ v / 2 ^ 24 % 2 ^ 8 ∷ []

pub u16_bytes : (v : ℕ) → v < 2 ^ 16 → u16_from_le_bytes (v % 2 ^ 8) (v / 2 ^ 8 % 2 ^ 8) ≡ v
u16_bytes v h = omega arith

pub u32_bytes :
    (v : ℕ)
    → v < 2 ^ 32
    → u32_from_le_bytes (v % 2 ^ 8) (v / 2 ^ 8 % 2 ^ 8) (v / 2 ^ 16 % 2 ^ 8) (v / 2 ^ 24 % 2 ^ 8)
      ≡ v
u32_bytes v h = omega arith
