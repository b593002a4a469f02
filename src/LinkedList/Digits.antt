-- ===== src/LinkedList/Digits.antt =====
-- The bits of an item of sw/coremark/core_list_join.c: its mark, its cached value, and its parameter.
use Prim.Native.Nat.{bit_or-bitwise}
use zr_soc.Common.{
  ℕ, ◌*◌, ◌/◌, ◌%◌, ◌^◌, ◌<◌, ◌≡◌, refl, sym, ap, ◌∙◌, bit_and, bit_or, bit_or-div, bit_or-mod,
  bit_and-mod, bit_or-lt, bit_or_step, bit_and-mask, bit_and-zero, arith,
}
use zr_soc.LinkedList.Calc.{optype, dtype, cached}

zero-bit_or : (a : ℕ) → bit_or 0 a ≡ a
zero-bit_or a = simp bit_or-bitwise refl

low_of_mask : (d : ℕ) → bit_and d 0xff00 % 2 ^ 7 ≡ 0
low_of_mask d = bit_and-mod 7 d 0xff00 ∙ bit_and-zero (d % 2 ^ 7)

pub seven_bits : (v : ℕ) → bit_and v 0x007f ≡ v % 2 ^ 7
seven_bits v = bit_and-mask 7 v

-- A cached item is recognised, and gives the value that was cached.
pub optype-cached : (d v : ℕ) → optype (cached d v) ≡ 1
unfolding optype cached
optype-cached d v =
    let a = bit_and d 0xff00 in
    let w = bit_and v 0x007f in
    bit_and-mask 1 (bit_or (bit_or a 0x80) w / 2 ^ 7)
    ∙ ap (λ (t : ℕ). t % 2)
        (bit_or-div 7 (bit_or a 0x80) w
          ∙ ap (λ (t : ℕ). bit_or t (w / 2 ^ 7)) (bit_or-div 7 a 0x80))
    ∙ odd (a / 2 ^ 7) (w / 2 ^ 7)
  where
    odd : (a w : ℕ) → bit_or (bit_or a 1) w % 2 ≡ 1
    odd a w = omega (arith, bit_or_step (bit_or a 1) w, bit_or_step a 1)

pub low-cached : (d v : ℕ) → bit_and (cached d v) 0x007f ≡ bit_and v 0x007f
unfolding cached
low-cached d v =
    let a = bit_and d 0xff00 in
    seven_bits _
    ∙ bit_or-mod 7 (bit_or a 0x80) (bit_and v 0x7f)
    ∙ ap (λ (t : ℕ). bit_or t (bit_and v 0x7f % 2 ^ 7))
        (bit_or-mod 7 a 0x80 ∙ ap (λ (t : ℕ). bit_or t 0) (low_of_mask d))
    ∙ zero-bit_or (bit_and v 0x7f % 2 ^ 7)
    ∙ (ap (λ (t : ℕ). t % 2 ^ 7) (seven_bits v) ∙ mod_twice v ∙ sym (seven_bits v))
  where
    mod_twice : (v : ℕ) → v % 2 ^ 7 % 2 ^ 7 ≡ v % 2 ^ 7
    mod_twice v = omega arith

pub dtype-lt : (d : ℕ) → dtype d < 2 ^ 8
unfolding dtype
dtype-lt d =
    let low = bit_and-mask 4 (d / 2 ^ 3) in
    bit_or-lt 8 (bit_and (d / 2 ^ 3) 0xf) (bit_and (d / 2 ^ 3) 0xf * 2 ^ 4) (omega (arith, low))
      (omega (arith, low))
