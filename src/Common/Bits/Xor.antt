-- ===== src/Common/Bits/Xor.antt =====
-- `^` is a commutative group operation on the naturals in which every element is its own inverse.
use Prim.Native.Nat.{ℕ, zero, suc, ◌+◌, ◌*◌, ◌/◌, ◌%◌, ◌^◌, ◌≤◌, ◌<◌, bit_xor, bit_xor-bitwise}
use mathlib.Core.Path.{◌≡◌, refl, ap, sym, ◌∙◌}
use native.Mathlib.Nat.{mul-add, pow-suc}
use native.Mathlib.Omega.{arith}
use zr_soc.Common.Bits.Step.{bit_xor_step}

pub bit_xor-half : (a b : ℕ) → bit_xor a b / 2 ≡ bit_xor (a / 2) (b / 2)
bit_xor-half a b = omega (arith, bit_xor_step a b)

pub bit_xor-parity : (a b : ℕ) → bit_xor a b % 2 ≡ (a % 2 + b % 2) % 2
bit_xor-parity a b = omega (arith, bit_xor_step a b)

self_fuel : (n a : ℕ) → a ≤ n → bit_xor a a ≡ 0
self_fuel n zero h = refl
self_fuel zero (suc a) h = absurd (omega arith)
self_fuel (suc n) (suc a) h =
    omega (arith, bit_xor_step (suc a) (suc a), self_fuel n (suc a / 2) (omega arith))

pub bit_xor_self : (a : ℕ) → bit_xor a a ≡ 0
bit_xor_self a = self_fuel a a (omega arith)

pub zero-bit_xor : (a : ℕ) → bit_xor 0 a ≡ a
zero-bit_xor a = bit_xor-bitwise 0 a

comm_fuel : (n a b : ℕ) → a ≤ n → b ≤ n → bit_xor a b ≡ bit_xor b a
comm_fuel zero zero zero p q = refl
comm_fuel zero (suc a) b p q = absurd (omega arith)
comm_fuel zero zero (suc b) p q = absurd (omega arith)
comm_fuel (suc n) a b p q = omega (
  arith,
  bit_xor_step a b,
  bit_xor_step b a,
  comm_fuel n (a / 2) (b / 2) (omega arith) (omega arith),
)

pub bit_xor_comm : (a b : ℕ) → bit_xor a b ≡ bit_xor b a
bit_xor_comm a b = comm_fuel (a + b) a b (omega arith) (omega arith)

assoc_fuel :
    (n a b c : ℕ) → a ≤ n → b ≤ n → c ≤ n → bit_xor (bit_xor a b) c ≡ bit_xor a (bit_xor b c)
assoc_fuel zero zero zero zero p q r = refl
assoc_fuel zero (suc a) b c p q r = absurd (omega arith)
assoc_fuel zero zero (suc b) c p q r = absurd (omega arith)
assoc_fuel zero zero zero (suc c) p q r = absurd (omega arith)
assoc_fuel (suc n) a b c p q r = ground (
  arith,
  bit_xor_step (bit_xor a b) c,
  bit_xor_step a (bit_xor b c),
  bit_xor-half a b,
  bit_xor-half b c,
  bit_xor-parity a b,
  bit_xor-parity b c,
  assoc_fuel n (a / 2) (b / 2) (c / 2) (omega arith) (omega arith) (omega arith),
)

pub bit_xor_assoc : (a b c : ℕ) → bit_xor (bit_xor a b) c ≡ bit_xor a (bit_xor b c)
bit_xor_assoc a b c = assoc_fuel (a + b + c) a b c (omega arith) (omega arith) (omega arith)

-- Applying the same mask twice gives the number back.
pub bit_xor_cancel : (a b : ℕ) → bit_xor (bit_xor a b) b ≡ a
bit_xor_cancel a b = rw (bit_xor_assoc a b b, bit_xor_self b, bit_xor_comm a 0) (zero-bit_xor a)

pub bit_xor-lt : (k a b : ℕ) → a < 2 ^ k → b < 2 ^ k → bit_xor a b < 2 ^ k
bit_xor-lt zero zero zero p q = omega arith
bit_xor-lt zero (suc a) b p q = absurd (omega arith)
bit_xor-lt zero zero (suc b) p q = absurd (omega arith)
bit_xor-lt (suc k) a b p q =
    ground (arith, pow-suc 2 k, bit_xor_step a b, bit_xor-lt k (a / 2) (b / 2))

pub bit_xor-zero : (a : ℕ) → bit_xor a 0 ≡ a
bit_xor-zero a = rw (bit_xor_comm a 0) (zero-bit_xor a)

-- A bit above the number is added.
pub bit_xor-top : (k r : ℕ) → r < 2 ^ k → bit_xor r (2 ^ k) ≡ r + 2 ^ k
bit_xor-top zero zero h = refl
bit_xor-top zero (suc r) h = absurd (omega arith)
bit_xor-top (suc k) r h =
    ground (arith, pow-suc 2 k, bit_xor_step r (2 ^ suc k), bit_xor-top k (r / 2))

pub bit_xor_right_comm : (a b c : ℕ) → bit_xor (bit_xor a b) c ≡ bit_xor (bit_xor a c) b
bit_xor_right_comm a b c =
    rw (bit_xor_assoc a b c, bit_xor_assoc a c b) (ap (bit_xor a) (bit_xor_comm b c))

pub bit_xor_interchange :
    (a b c d : ℕ) → bit_xor (bit_xor a b) (bit_xor c d) ≡ bit_xor (bit_xor a c) (bit_xor b d)
bit_xor_interchange a b c d =
    rw (← bit_xor_assoc (bit_xor a b) c d, ← bit_xor_assoc (bit_xor a c) b d)
      (ap (λ t. bit_xor t d) (bit_xor_right_comm a b c))

-- Adding a common number is injective.
pub bit_xor_cancel_right : (a b c : ℕ) → bit_xor a c ≡ bit_xor b c → a ≡ b
bit_xor_cancel_right a b c e =
    sym (bit_xor_cancel a c) ∙ ap (λ t. bit_xor t c) e ∙ bit_xor_cancel b c

pub bit_xor_cancel_left : (a b c : ℕ) → bit_xor c a ≡ bit_xor c b → a ≡ b
bit_xor_cancel_left a b c e = bit_xor_cancel_right a b c (bit_xor_comm a c ∙ e ∙ bit_xor_comm c b)

double_field : (q k : ℕ) → q * 2 ^ suc k ≡ q * 2 ^ k + q * 2 ^ k
double_field q k = ap (λ (p : ℕ). q * p) (pow-suc 2 k ∙ omega arith) ∙ mul-add q (2 ^ k) (2 ^ k)

-- Disjoint fields are added.
pub bit_xor-fields : (w q r : ℕ) → r < 2 ^ w → bit_xor r (q * 2 ^ w) ≡ q * 2 ^ w + r
bit_xor-fields zero q zero h = omega (arith, zero-bit_xor (q * 1))
bit_xor-fields zero q (suc r) h = absurd (omega arith)
bit_xor-fields (suc w) q r h =
    let low = bit_xor-fields w q (r / 2) (omega (arith, pow-suc 2 w)) in
    omega
      (arith, double_field q w, low, bit_xor_step r (q * 2 ^ suc w), ap (bit_xor (r / 2)) (half w))
  where
    half : (w : ℕ) → q * 2 ^ suc w / 2 ≡ q * 2 ^ w
    half w = omega (arith, double_field q w)
