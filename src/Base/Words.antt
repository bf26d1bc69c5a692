-- ===== src/Base/Words.antt =====
-- The fixed-width integers of C as bit patterns. A signed value is its pattern, too:
-- `sext16` widens it, `neg16` and `lt_s32` read its sign.
use Prim.Native.Nat.{ℕ, ◌+◌, ◌-◌, ◌/◌, ◌%◌, ◌^◌}
use mathlib.Core.Bool.{Bool}
use gandiva.Base.Tests.{ltb, leb, if◌then◌else◌}

abbrev pub u8 : ℕ → ℕ
u8 n = n % 2 ^ 8

abbrev pub u16 : ℕ → ℕ
u16 n = n % 2 ^ 16

abbrev pub u32 : ℕ → ℕ
u32 n = n % 2 ^ 32

-- `x >> k` on an unsigned value, and `x & (2 ^ k - 1)`.
abbrev pub shr : ℕ → ℕ → ℕ
shr x k = x / 2 ^ k

abbrev pub low_bits : ℕ → ℕ → ℕ
low_bits x k = x % 2 ^ k

-- The sign bit of an `ee_s16` and of an `ee_s32`.
abbrev pub neg16 : ℕ → Bool
neg16 x = leb 0x8000 x

abbrev pub neg32 : ℕ → Bool
neg32 x = leb 0x8000_0000 x

-- The promotion of an `ee_s16` to `int`, as 32-bit patterns.
abbrev pub sext16 : ℕ → ℕ
sext16 x = if neg16 x then x + 0xffff_0000 else x

-- `a < b` on `ee_s32`: the patterns are compared with the sign bit turned over.
abbrev pub lt_s32 : ℕ → ℕ → Bool
lt_s32 a b = ltb (u32 (a + 2 ^ 31)) (u32 (b + 2 ^ 31))

-- Negation, in 32 and in 16 bits.
abbrev pub neg_u32 : ℕ → ℕ
neg_u32 x = u32 (2 ^ 32 - x)

abbrev pub neg_u16 : ℕ → ℕ
neg_u16 x = u16 (2 ^ 16 - x)
