-- ===== src/Common/Bits/Shift.antt =====
-- Shifts and low bits of `&` and `|`, and bounds of `|`.
use Prim.Native.Nat.{ℕ, zero, suc, ◌+◌, ◌*◌, ◌/◌, ◌%◌, ◌^◌, ◌<◌, min, max, bit_and, bit_or}
use mathlib.Core.Path.{◌≡◌, refl, ap, ap₂, ◌∙◌, sym, subst}
use native.Mathlib.Nat.{
  pow-suc, one-le-pow, div-div-eq-div-mul, mod_def, mod-add-div, mod-eq_of_lt, mod-lt,
}
use native.Mathlib.Omega.{arith}
use zr_soc.Common.Bits.Step.{bit_and_step, bit_or_step}

or_half : (a b : ℕ) → bit_or a b / 2 ≡ bit_or (a / 2) (b / 2)
or_half a b = omega (arith, bit_or_step a b)

div_pow_suc : (a k : ℕ) → a / 2 ^ suc k ≡ a / 2 / 2 ^ k
div_pow_suc a k =
    ap (λ (t : ℕ). a / t) (pow-suc 2 k ∙ omega arith) ∙ sym (div-div-eq-div-mul a 2 (2 ^ k))

double_mul : (m q : ℕ) → m * 2 * q ≡ 2 * (m * q)
double_mul m q = grind arith

pub mod_pow_suc : (a k : ℕ) → a % 2 ^ suc k ≡ a / 2 % 2 ^ k * 2 + a % 2
mod_pow_suc a k = omega (
  arith,
  mod_def a (2 ^ suc k),
  ap₂ ◌*◌ (pow-suc 2 k) (div_pow_suc a k),
  double_mul (2 ^ k) (a / 2 / 2 ^ k),
  mod-add-div (a / 2) (2 ^ k),
)

div_one : (a : ℕ) → a / 1 ≡ a
div_one a = omega arith

pub bit_or-div : (k a b : ℕ) → bit_or a b / 2 ^ k ≡ bit_or (a / 2 ^ k) (b / 2 ^ k)
bit_or-div zero a b = div_one (bit_or a b) ∙ ap₂ bit_or (sym (div_one a)) (sym (div_one b))
bit_or-div (suc k) a b =
    div_pow_suc (bit_or a b) k
    ∙ ap (λ (t : ℕ). t / 2 ^ k) (or_half a b)
    ∙ bit_or-div k (a / 2) (b / 2)
    ∙ ap₂ bit_or (sym (div_pow_suc a k)) (sym (div_pow_suc b k))

half_of_mod : (a k : ℕ) → a % 2 ^ suc k / 2 ≡ a / 2 % 2 ^ k
half_of_mod a k = omega (arith, mod_pow_suc a k)

parity_of_mod : (a k : ℕ) → a % 2 ^ suc k % 2 ≡ a % 2
parity_of_mod a k = omega (arith, mod_pow_suc a k)

mod_one : (a : ℕ) → a % 1 ≡ 0
mod_one a = omega arith

module _ (op : ℕ → ℕ → ℕ) (bit : ℕ → ℕ → ℕ) (none : op 0 0 ≡ 0)
    (step : (a b : ℕ) → op a b ≡ op (a / 2) (b / 2) * 2 + bit (a % 2) (b % 2))
    (small : (a b : ℕ) → bit (a % 2) (b % 2) < 2) where
  op-mod : (k a b : ℕ) → op a b % 2 ^ k ≡ op (a % 2 ^ k) (b % 2 ^ k)
  op-mod zero a b = mod_one (op a b) ∙ sym none ∙ ap₂ op (sym (mod_one a)) (sym (mod_one b))
  op-mod (suc k) a b =
      mod_pow_suc (op a b) k
      ∙ ap₂ (λ (s t : ℕ). s % 2 ^ k * 2 + t) (omega (arith, step a b, small a b))
          (omega (arith, step a b, small a b))
      ∙ ap (λ (t : ℕ). t * 2 + bit (a % 2) (b % 2)) (op-mod k (a / 2) (b / 2))
      ∙ sym (
          step (a % 2 ^ suc k) (b % 2 ^ suc k)
          ∙ ap₂ (λ (s t : ℕ). s * 2 + t) (ap₂ op (half_of_mod a k) (half_of_mod b k))
              (ap₂ bit (parity_of_mod a k) (parity_of_mod b k)))

pub bit_or-mod : (k a b : ℕ) → bit_or a b % 2 ^ k ≡ bit_or (a % 2 ^ k) (b % 2 ^ k)
bit_or-mod = op-mod bit_or max refl bit_or_step (λ a b. omega arith)

pub bit_and-mod : (k a b : ℕ) → bit_and a b % 2 ^ k ≡ bit_and (a % 2 ^ k) (b % 2 ^ k)
bit_and-mod = op-mod bit_and min refl bit_and_step (λ a b. omega arith)

pub bit_or-lt : (k a b : ℕ) → a < 2 ^ k → b < 2 ^ k → bit_or a b < 2 ^ k
bit_or-lt k a b h i =
    subst (λ (t : ℕ). t < 2 ^ k) (bit_or-mod k a b ∙ ap₂ bit_or (mod-eq_of_lt h) (mod-eq_of_lt i))
      (mod-lt (bit_or a b) (one-le-pow k 2 (omega arith)))
