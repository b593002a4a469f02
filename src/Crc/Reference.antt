-- ===== src/Crc/Reference.antt =====
-- `crcu8` against CRC-16/ARC as it is written in the literature: the byte is added to the register
-- first, and the register is then shifted eight times with the reversed polynomial 0xa001.
use native.Mathlib.Nat.{add_comm, pow-suc}
use zr_soc.Common.{
  ℕ, zero, suc, ◌/◌, ◌%◌, ◌^◌, ◌<◌, ◌≡◌, refl, bit_xor, arith, sym, ◌∙◌, ap, bit_xor_assoc,
  bit_xor-half, bit_xor-parity, bit_xor-zero, bit_xor-lt, bit_xor_right_comm, bit_xor_cancel_right,
  bit_xor-top,
}
use zr_soc.Crc.{Round, round, crc_round, crc_rounds, crcu8, crcu16}
use zr_soc.Crc.Step.{feedback, crc_round_lem, crc_round-lt, feedback-lt, crcu8-lt}

unfoldable pub arc_shift : ℕ → ℕ
arc_shift c = bit_xor (c / 2) (feedback (c % 2))

unfoldable pub arc_shifts : ℕ → ℕ → ℕ
arc_shifts zero c = c
arc_shifts (suc n) c = arc_shifts n (arc_shift c)

unfoldable pub arc_byte : ℕ → ℕ → ℕ
unfolding arc_shifts arc_shift
arc_byte a c = arc_shifts 8 (bit_xor c a)

-- The two words of a round added up make the one register of the reference.
arc_shift-xor :
    (r : Round)
    → r.crc < 2 ^ 16
    → arc_shift (bit_xor r.crc r.input) ≡ bit_xor (crc_round r).crc (crc_round r).input
unfolding arc_shift
arc_shift-xor r h =
    rw
      (
        crc_round_lem r.input r.crc h,
        bit_xor-half r.crc r.input,
        bit_xor-parity r.crc r.input,
        add_comm (r.crc % 2) (r.input % 2),
      )
      (bit_xor_right_comm _ _ _)

arc_shifts-rounds :
    (n : ℕ) (r : Round)
    → r.crc < 2 ^ 16
    → arc_shifts n (bit_xor r.crc r.input) ≡ bit_xor (crc_rounds n r).crc (crc_rounds n r).input
unfolding arc_shifts crc_rounds
arc_shifts-rounds zero r h = refl
arc_shifts-rounds (suc n) r h =
    rw (arc_shift-xor r h) (arc_shifts-rounds n (crc_round r) (crc_round-lt r h))

crc_rounds-input :
    (n : ℕ) (r : Round) → r.crc < 2 ^ 16 → r.input < 2 ^ n → (crc_rounds n r).input ≡ 0
unfolding crc_rounds
crc_rounds-input zero r h p = omega arith
crc_rounds-input (suc n) r h p =
    crc_rounds-input n (crc_round r) (crc_round-lt r h)
      (rw (crc_round_lem r.input r.crc h) (omega (arith, pow-suc 2 n)))

-- On a byte and a 16-bit register, `crcu8` is one byte of CRC-16/ARC.
pub crcu8-arc : (a c : ℕ) → a < 2 ^ 8 → c < 2 ^ 16 → crcu8 a c ≡ arc_byte a c
unfolding crcu8 arc_byte
crcu8-arc a c p h =
    sym
      (arc_shifts-rounds 8 (round a c) h ∙ rw (crc_rounds-input 8 (round a c) h p) (bit_xor-zero _))

top_bit : (h d : ℕ) → h < 2 ^ 15 → d < 2 → bit_xor h (feedback d) / 2 ^ 15 ≡ d
top_bit h zero p q = omega (arith, bit_xor-zero h)
top_bit h (suc zero) p q = omega (
  arith,
  bit_xor_assoc h 0x2001 0x8000,
  bit_xor-lt 15 h 0x2001 p (omega arith),
  bit_xor-top 15 (bit_xor h 0x2001) (bit_xor-lt 15 h 0x2001 p (omega arith)),
)
top_bit h (suc (suc d)) p q = absurd (omega arith)

-- A shift can be undone: the top bit of the result is the bit that was shifted out.
arc_shift-top : (c : ℕ) → c < 2 ^ 16 → arc_shift c / 2 ^ 15 ≡ c % 2
unfolding arc_shift
arc_shift-top c h = top_bit (c / 2) (c % 2) (omega arith) (omega arith)

arc_shift_injective : (c d : ℕ) → c < 2 ^ 16 → d < 2 ^ 16 → arc_shift c ≡ arc_shift d → c ≡ d
arc_shift_injective c d p q e =
    let low : c % 2 ≡ d % 2 =
      sym (arc_shift-top c p) ∙ ap (λ (t : ℕ). t / 2 ^ 15) e ∙ arc_shift-top d q in
    let high : c / 2 ≡ d / 2 =
      bit_xor_cancel_right (c / 2) (d / 2) (feedback (d % 2))
        (ap (λ t. bit_xor (c / 2) (feedback t)) (sym low) ∙ unfold arc_shift in e) in
    omega arith

arc_shift-lt : (c : ℕ) → c < 2 ^ 16 → arc_shift c < 2 ^ 16
unfolding arc_shift
arc_shift-lt c h = bit_xor-lt 16 _ _ (omega arith) (feedback-lt _)

pub arc_shifts_injective :
    (n c d : ℕ) → c < 2 ^ 16 → d < 2 ^ 16 → arc_shifts n c ≡ arc_shifts n d → c ≡ d
unfolding arc_shifts
arc_shifts_injective zero c d p q e = e
arc_shifts_injective (suc n) c d p q e =
    arc_shift_injective c d p q
      (arc_shifts_injective n (arc_shift c) (arc_shift d) (arc_shift-lt c p) (arc_shift-lt d q) e)

-- The result of a byte shows the register with the byte added.
crcu8-joint :
    (a b c d : ℕ)
    → a < 2 ^ 8
    → b < 2 ^ 8
    → c < 2 ^ 16
    → d < 2 ^ 16
    → crcu8 a c ≡ crcu8 b d
    → bit_xor c a ≡ bit_xor d b
unfolding arc_byte
crcu8-joint a b c d pa pb pc pd e =
    arc_shifts_injective 8 (bit_xor c a) (bit_xor d b) (bit_xor-lt 16 c a pc (omega arith))
      (bit_xor-lt 16 d b pd (omega arith)) (sym (crcu8-arc a c pa pc) ∙ e ∙ crcu8-arc b d pb pd)

crcu8_injective_crc :
    (a c d : ℕ) → a < 2 ^ 8 → c < 2 ^ 16 → d < 2 ^ 16 → crcu8 a c ≡ crcu8 a d → c ≡ d
crcu8_injective_crc a c d pa pc pd e =
    bit_xor_cancel_right c d a (crcu8-joint a a c d pa pa pc pd e)

-- A later word keeps two different registers apart.
pub crcu16_injective_crc : (w c d : ℕ) → c < 2 ^ 16 → d < 2 ^ 16 → crcu16 w c ≡ crcu16 w d → c ≡ d
unfolding crcu16
crcu16_injective_crc w c d p q e =
    crcu8_injective_crc (w % 2 ^ 8) c d (omega arith) p q (
      crcu8_injective_crc (w / 2 ^ 8 % 2 ^ 8) _ _ (omega arith) (crcu8-lt _ c p) (crcu8-lt _ d q) e)
