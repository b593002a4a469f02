-- ===== src/Crc/Step.antt =====
-- One round of `crcu8` as arithmetic, and the ranges of the results.
use zr_soc.Common.{
  ℕ, zero, suc, ◌+◌, ◌/◌, ◌%◌, ◌^◌, ◌<◌, ◌≡◌, refl, bit_and, bit_or, bit_xor, arith, ◌==◌,
  if◌then◌else◌, u8, bit_xor_step, bit_and-mask, bit_or-top, bit_xor-top, bit_xor-lt, bit_xor-half,
  bit_xor_assoc, zero-bit_xor, bit_xor-zero, sym, ◌∙◌, ap,
}
use zr_soc.Crc.{Round, round, crc_round, crc_rounds, crcu8, crcu16, crc16, crcu32}

-- The feedback of a round: 0xa001 when the low bits differ, the reversed polynomial.
abbrev pub feedback : ℕ → ℕ
feedback zero = 0
feedback (suc _) = 0xa001

low_bit : (a b : ℕ) → u8 (bit_xor (bit_and a 1) (bit_and (u8 b) 1)) ≡ (a % 2 + b % 2) % 2
low_bit a b =
    rw (bit_and-mask 1 a, bit_and-mask 1 (u8 b))
      (ground
        (arith, bit_xor_step (a % 2) (u8 b % 2), bit_xor-lt 8 (a % 2) (u8 b % 2), zero-bit_xor 0))

shift_in : (c : ℕ) → c < 2 ^ 16 → bit_or (bit_xor c 0x4002 / 2) 0x8000 ≡ bit_xor (c / 2) 0xa001
shift_in c h =
    let small : bit_xor (c / 2) 0x2001 < 2 ^ 15 =
      bit_xor-lt 15 (c / 2) 0x2001 (omega arith) (omega arith) in
    rw (bit_xor-half c 0x4002) (
      bit_or-top 15 (bit_xor (c / 2) 0x2001) small
      ∙ sym (bit_xor-top 15 (bit_xor (c / 2) 0x2001) small)
      ∙ bit_xor_assoc (c / 2) 0x2001 0x8000)

-- A round shifts both words and folds the feedback in.
pub crc_round_lem :
    (a c : ℕ)
    → c < 2 ^ 16
    → crc_round (round a c) ≡ round (a / 2) (bit_xor (c / 2) (feedback ((a % 2 + c % 2) % 2)))
unfolding crc_round
crc_round_lem a c h =
    rw (low_bit a c, shift_in c h, bit_and-mask 15 (c / 2))
      (split ((a % 2 + c % 2) % 2) (omega arith))
  where
    split :
        (d : ℕ)
        → d < 2
        → (if d == 1
            then round (a / 2) (bit_xor (c / 2) 0xa001)
            else round (a / 2) (c / 2 % 2 ^ 15))
          ≡ round (a / 2) (bit_xor (c / 2) (feedback d))
    split zero p = ap (round (a / 2)) (omega (arith, bit_xor-zero (c / 2)))
    split (suc zero) p = refl
    split (suc (suc d)) p = absurd (omega arith)

pub feedback-lt : (d : ℕ) → feedback d < 2 ^ 16
feedback-lt zero = omega arith
feedback-lt (suc d) = omega arith

pub crc_round-lt : (r : Round) → r.crc < 2 ^ 16 → (crc_round r).crc < 2 ^ 16
crc_round-lt r h = rw (crc_round_lem r.input r.crc h) (
    bit_xor-lt 16 (r.crc / 2) (feedback ((r.input % 2 + r.crc % 2) % 2)) (omega arith)
      (feedback-lt _))

pub crc_rounds-lt : (n : ℕ) (r : Round) → r.crc < 2 ^ 16 → (crc_rounds n r).crc < 2 ^ 16
unfolding crc_rounds
crc_rounds-lt zero r h = h
crc_rounds-lt (suc n) r h = crc_rounds-lt n (crc_round r) (crc_round-lt r h)

pub crcu8-lt : (a c : ℕ) → c < 2 ^ 16 → crcu8 a c < 2 ^ 16
unfolding crcu8
crcu8-lt a c h = crc_rounds-lt 8 (round a c) h

pub crcu16-lt : (a c : ℕ) → c < 2 ^ 16 → crcu16 a c < 2 ^ 16
unfolding crcu16
crcu16-lt a c h = crcu8-lt _ _ (crcu8-lt _ c h)

pub crc16-lt : (a c : ℕ) → c < 2 ^ 16 → crc16 a c < 2 ^ 16
unfolding crc16
crc16-lt = crcu16-lt

pub crcu32-lt : (a c : ℕ) → c < 2 ^ 16 → crcu32 a c < 2 ^ 16
unfolding crcu32
crcu32-lt a c h = crc16-lt _ _ (crc16-lt _ c h)
