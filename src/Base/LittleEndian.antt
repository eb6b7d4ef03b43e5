-- ===== src/Base/LittleEndian.antt =====
-- Bytes as native numbers, and their little-endian reading, as `binary.LittleEndian` does it.
use Prim.Native.Nat.{ℕ, zero, suc, ◌+◌, ◌*◌}
use mathlib.Core.List.{List, [], ◌∷◌}

abbrev pub Bytes : Type 0
Bytes = List ℕ

-- The byte at an index. Every use in the source is within the slice.
abbrev pub byte_at : ℕ → Bytes → ℕ
byte_at i [] = 0
byte_at zero (b ∷ bs) = b
byte_at (suc i) (b ∷ bs) = byte_at i bs

abbrev pub u16_at : ℕ → Bytes → ℕ
u16_at i bs = byte_at i bs + 256 * byte_at (suc i) bs

abbrev pub u32_at : ℕ → Bytes → ℕ
u32_at i bs = u16_at i bs + 65536 * u16_at (suc (suc i)) bs
