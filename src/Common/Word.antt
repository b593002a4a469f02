-- ===== src/Common/Word.antt =====
-- Words of fixed width as native numbers: casts, shifts, and signed reading of a bit pattern.
-- A signed value of width w is kept as its two's complement pattern below 2 ^ w.
use Prim.Native.Nat.{ℕ, ◌+◌, ◌-◌, ◌*◌, ◌/◌, ◌%◌, ◌^◌}
use mathlib.Core.Bool.{Bool}
use zr_soc.Common.Tests.{ltb, leb, if◌then◌else◌}

abbrev pub u8 : ℕ → ℕ
u8 n = n % 2 ^ 8

abbrev pub u16 : ℕ → ℕ
u16 n = n % 2 ^ 16

abbrev pub u32 : ℕ → ℕ
u32 n = n % 2 ^ 32

infixl 75 ◌<<<◌ ◌>>>◌
abbrev pub ◌<<<◌ : ℕ → ℕ → ℕ
x <<< k = x * 2 ^ k

abbrev pub ◌>>>◌ : ℕ → ℕ → ℕ
x >>> k = x / 2 ^ k

-- The pattern of -x.
abbrev pub neg16 : ℕ → ℕ
neg16 x = (2 ^ 16 - x) % 2 ^ 16

abbrev pub neg32 : ℕ → ℕ
neg32 x = (2 ^ 32 - x) % 2 ^ 32

-- `x < 0` for a signed pattern.
abbrev pub is_neg16 : ℕ → Bool
is_neg16 x = leb (2 ^ 15) x

abbrev pub is_neg32 : ℕ → Bool
is_neg32 x = leb (2 ^ 31) x

-- The conversion of a 16-bit signed value to 32 bits.
abbrev pub sext16 : ℕ → ℕ
sext16 x = if is_neg16 x then x + (2 ^ 32 - 2 ^ 16) else x

-- Signed comparison: adding 2 ^ 31 maps the signed order to the unsigned one.
abbrev pub slt32 : ℕ → ℕ → Bool
slt32 a b = ltb ((a + 2 ^ 31) % 2 ^ 32) ((b + 2 ^ 31) % 2 ^ 32)
