-- ===== src/Common/Bits/Step.antt =====
-- The native operations mean `bitwise`, a recursion on binary digits with fuel. Here the fuel is
-- dropped: one equation for the lowest digit of each operation.
use Prim.Native.Nat.{
  ℕ, zero, suc, ◌+◌, ◌-◌, ◌*◌, ◌/◌, ◌%◌, ◌≤◌, ◌<◌, min, max, bit_and, bit_or, bit_xor, digits,
  bitwise, differ, bit_and-bitwise, bit_or-bitwise, bit_xor-bitwise,
}
use mathlib.Core.Path.{◌≡◌, refl, sym, ap, ◌∙◌}
use native.Mathlib.Omega.{arith}

module _ (zeros : ℕ → ℕ) (bit : ℕ → ℕ → ℕ) where
  -- One more unit of fuel makes no difference, and so none of any spare fuel.
  one_more : (n a b : ℕ) → a ≤ n → digits zeros bit n a b ≡ digits zeros bit (suc n) a b
  one_more zero zero b h = refl
  one_more zero (suc a) b h = absurd (omega arith)
  one_more (suc n) zero b h = refl
  one_more (suc n) (suc a) b h =
      ap (λ (t : ℕ). t * 2 + bit (suc a % 2) (b % 2)) (one_more n (suc a / 2) (b / 2) (omega arith))

  spare : (k a b : ℕ) → bitwise zeros bit a b ≡ digits zeros bit (k + a) a b
  spare zero a b = ap (λ n. digits zeros bit n a b) (omega arith)
  spare (suc k) a b =
      spare k a b ∙ one_more (k + a) a b (omega arith) ∙ ap (λ n. digits zeros bit n a b) (grow k a)
    where
      grow : (k a : ℕ) → suc (k + a) ≡ suc k + a
      grow k a = omega arith

  lowest_digit :
      (a b : ℕ)
      → bitwise zeros bit (suc a) b
        ≡ bitwise zeros bit (suc a / 2) (b / 2) * 2 + bit (suc a % 2) (b % 2)
  lowest_digit a b =
      ap (λ (t : ℕ). t * 2 + bit (suc a % 2) (b % 2))
        (ap (λ n. digits zeros bit n (suc a / 2) (b / 2)) (omega arith)
          ∙ sym (spare (a - suc a / 2) (suc a / 2) (b / 2)))

differ-lt_two : (x y : ℕ) → x < 2 → y < 2 → differ x y ≡ (x + y) % 2
differ-lt_two zero y p q = omega arith
differ-lt_two (suc x) zero p q = omega arith
differ-lt_two (suc zero) (suc zero) p q = refl
differ-lt_two (suc zero) (suc (suc y)) p q = absurd (omega arith)
differ-lt_two (suc (suc x)) (suc y) p q = absurd (omega arith)

pub bit_xor_step : (a b : ℕ) → bit_xor a b ≡ bit_xor (a / 2) (b / 2) * 2 + (a % 2 + b % 2) % 2
bit_xor_step zero b = simp bit_xor-bitwise (omega arith)
bit_xor_step (suc a) b = simp bit_xor-bitwise (
    omega (
      arith,
      lowest_digit (λ y. y) differ a b,
      differ-lt_two (suc a % 2) (b % 2) (omega arith) (omega arith),
    ))

-- `&` and `|` have the smaller and the larger of the two lowest digits.
pub bit_or_step : (p q : ℕ) → bit_or p q ≡ bit_or (p / 2) (q / 2) * 2 + max (p % 2) (q % 2)
bit_or_step zero q = simp bit_or-bitwise (omega arith)
bit_or_step (suc p) q = simp bit_or-bitwise (lowest_digit (λ y. y) max p q)

pub bit_and_step : (p q : ℕ) → bit_and p q ≡ bit_and (p / 2) (q / 2) * 2 + min (p % 2) (q % 2)
bit_and_step zero q = simp bit_and-bitwise (omega arith)
bit_and_step (suc p) q = simp bit_and-bitwise (lowest_digit (λ y. zero) min p q)
