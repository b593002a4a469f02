-- ===== src/Common/Bits/Mask.antt =====
-- Masks of low bits as remainders, and a bit set above a smaller number as a sum.
use Prim.Native.Nat.{ℕ, zero, suc, ◌+◌, ◌-◌, ◌*◌, ◌/◌, ◌%◌, ◌^◌, ◌≤◌, ◌<◌, bit_and, bit_or}
use mathlib.Core.Path.{◌≡◌, refl, ap, ap₂, sym, ◌∙◌}
use native.Mathlib.Nat.{pow-suc, one-le-pow}
use native.Mathlib.Omega.{arith}
use zr_soc.Common.Bits.Shift.{mod_pow_suc}
use zr_soc.Common.Bits.Step.{bit_and_step, bit_or_step}

and_zero_fuel : (n a : ℕ) → a ≤ n → bit_and a 0 ≡ 0
and_zero_fuel n zero h = refl
and_zero_fuel zero (suc a) h = absurd (omega arith)
and_zero_fuel (suc n) (suc a) h =
    omega (arith, bit_and_step (suc a) 0, and_zero_fuel n (suc a / 2) (omega arith))

pub bit_and-zero : (a : ℕ) → bit_and a 0 ≡ 0
bit_and-zero a = and_zero_fuel a a (omega arith)

or_zero_fuel : (n a : ℕ) → a ≤ n → bit_or a 0 ≡ a
or_zero_fuel n zero h = refl
or_zero_fuel zero (suc a) h = absurd (omega arith)
or_zero_fuel (suc n) (suc a) h =
    omega (arith, bit_or_step (suc a) 0, or_zero_fuel n (suc a / 2) (omega arith))

pub bit_or-zero : (a : ℕ) → bit_or a 0 ≡ a
bit_or-zero a = or_zero_fuel a a (omega arith)

-- `a & (2 ^ k - 1)` is the remainder: the lowest digit of the mask is one, the rest a shorter mask.
pub bit_and-mask : (k a : ℕ) → bit_and a (2 ^ k - 1) ≡ a % 2 ^ k
bit_and-mask zero a = bit_and-zero a ∙ omega arith
bit_and-mask (suc k) a =
    bit_and_step a (2 ^ suc k - 1)
    ∙ ap₂ (λ (s t : ℕ). bit_and (a / 2) s * 2 + t) (omega (arith, pow-suc 2 k))
        (omega (arith, pow-suc 2 k, one-le-pow k 2))
    ∙ ap (λ (t : ℕ). t * 2 + a % 2) (bit_and-mask k (a / 2))
    ∙ sym (mod_pow_suc a k)

-- `r | (1 << k)` for `r` below the bit.
pub bit_or-top : (k r : ℕ) → r < 2 ^ k → bit_or r (2 ^ k) ≡ r + 2 ^ k
bit_or-top zero zero h = refl
bit_or-top zero (suc r) h = absurd (omega arith)
bit_or-top (suc k) r h =
    ground (arith, pow-suc 2 k, bit_or_step r (2 ^ suc k), bit_or-top k (r / 2))
