-- ===== src/Crc/Linear.antt =====
-- The shift register is linear over exclusive or; a 16-bit word goes through it as one register.
use mathlib.Core.Path.{◌≡⟨◌⟩◌, ◌∎}
use native.Mathlib.Nat.{pow-suc}
use zr_soc.Common.{
  ℕ, zero, suc, ◌+◌, ◌*◌, ◌/◌, ◌%◌, ◌^◌, ◌<◌, ◌≡◌, refl, bit_xor, arith, sym, ◌∙◌, ap, ap₂,
  bit_xor_assoc, bit_xor-half, bit_xor-parity, bit_xor-zero, bit_xor-lt, bit_xor_interchange,
  bit_xor_cancel_left, bit_xor-fields,
}
use zr_soc.Crc.{crcu8, crcu16}
use zr_soc.Crc.Step.{feedback, crcu8-lt}
use zr_soc.Crc.Reference.{arc_shift, arc_shifts, arc_byte, crcu8-arc, arc_shifts_injective}

feedback-xor :
    (p q : ℕ) → p < 2 → q < 2 → feedback ((p + q) % 2) ≡ bit_xor (feedback p) (feedback q)
feedback-xor zero zero h k = refl
feedback-xor zero (suc zero) h k = refl
feedback-xor (suc zero) zero h k = refl
feedback-xor (suc zero) (suc zero) h k = refl
feedback-xor (suc (suc p)) q h k = absurd (omega arith)
feedback-xor zero (suc (suc q)) h k = absurd (omega arith)
feedback-xor (suc zero) (suc (suc q)) h k = absurd (omega arith)

arc_shift_linear : (c d : ℕ) → arc_shift (bit_xor c d) ≡ bit_xor (arc_shift c) (arc_shift d)
unfolding arc_shift
arc_shift_linear c d =
    rw
      (
        bit_xor-half c d,
        bit_xor-parity c d,
        feedback-xor (c % 2) (d % 2) (omega arith) (omega arith),
      )
      (bit_xor_interchange _ _ _ _)

arc_shifts_linear :
    (n c d : ℕ) → arc_shifts n (bit_xor c d) ≡ bit_xor (arc_shifts n c) (arc_shifts n d)
unfolding arc_shifts
arc_shifts_linear zero c d = refl
arc_shifts_linear (suc n) c d =
    rw (arc_shift_linear c d) (arc_shifts_linear n (arc_shift c) (arc_shift d))

-- `crcu8` is linear: the checksum of a difference is the difference of the checksums.
pub crcu8_linear :
    (a b c d : ℕ)
    → a < 2 ^ 8
    → b < 2 ^ 8
    → c < 2 ^ 16
    → d < 2 ^ 16
    → crcu8 (bit_xor a b) (bit_xor c d) ≡ bit_xor (crcu8 a c) (crcu8 b d)
unfolding arc_byte
crcu8_linear a b c d pa pb pc pd =
    rw
      (
        crcu8-arc a c pa pc,
        crcu8-arc b d pb pd,
        crcu8-arc (bit_xor a b) (bit_xor c d) (bit_xor-lt 8 a b pa pb) (bit_xor-lt 16 c d pc pd),
        bit_xor_interchange c d a b,
      )
      (arc_shifts_linear 8 (bit_xor c a) (bit_xor d b))

arc_shift-double : (x : ℕ) → arc_shift (2 * x) ≡ x
unfolding arc_shift
arc_shift-double x =
    let half : 2 * x / 2 ≡ x = omega arith in
    let even : 2 * x % 2 ≡ 0 = omega arith in
    ap₂ (λ h p. bit_xor h (feedback p)) half even ∙ bit_xor-zero x

-- Zero bits that are shifted out leave no trace.
arc_shifts-mul : (n x : ℕ) → arc_shifts n (x * 2 ^ n) ≡ x
unfolding arc_shifts
arc_shifts-mul zero x = omega arith
arc_shifts-mul (suc n) x =
    let twice : x * 2 ^ suc n ≡ 2 * (x * 2 ^ n) =
      omega (arith, ap (λ (t : ℕ). x * t) (pow-suc 2 n)) in
    ap (λ t. arc_shifts n (arc_shift t)) twice
    ∙ ap (arc_shifts n) (arc_shift-double (x * 2 ^ n))
    ∙ arc_shifts-mul n x

arc_byte_lem : (a c : ℕ) → arc_byte a c ≡ arc_shifts 8 (bit_xor c a)
unfolding arc_byte
arc_byte_lem a c = refl

arc_shifts_sixteen : (c : ℕ) → arc_shifts 16 c ≡ arc_shifts 8 (arc_shifts 8 c)
unfolding arc_shifts
arc_shifts_sixteen c = refl

arc_byte-arc_byte :
    (h l c : ℕ) → arc_byte h (arc_byte l c) ≡ arc_shifts 16 (bit_xor c (bit_xor l (h * 2 ^ 8)))
arc_byte-arc_byte h l c =
    arc_byte h (arc_byte l c)
    ≡⟨ arc_byte_lem h (arc_byte l c) ∙ ap (λ t. arc_shifts 8 (bit_xor t h)) (arc_byte_lem l c) ⟩
      arc_shifts 8 (bit_xor (arc_shifts 8 (bit_xor c l)) h)
    ≡⟨ ap (λ t. arc_shifts 8 (bit_xor (arc_shifts 8 (bit_xor c l)) t)) (sym (arc_shifts-mul 8 h)) ⟩
      arc_shifts 8 (bit_xor (arc_shifts 8 (bit_xor c l)) (arc_shifts 8 (h * 2 ^ 8)))
    ≡⟨ ap (arc_shifts 8) (sym (arc_shifts_linear 8 (bit_xor c l) (h * 2 ^ 8))) ⟩
      arc_shifts 8 (arc_shifts 8 (bit_xor (bit_xor c l) (h * 2 ^ 8)))
    ≡⟨ sym (arc_shifts_sixteen _) ∙ ap (arc_shifts 16) (bit_xor_assoc c l (h * 2 ^ 8)) ⟩
      arc_shifts 16 (bit_xor c (bit_xor l (h * 2 ^ 8))) ∎

-- On a 16-bit word and a 16-bit register, `crcu16` is sixteen shifts of CRC-16/ARC on their sum.
pub crcu16-arc : (w c : ℕ) → w < 2 ^ 16 → c < 2 ^ 16 → crcu16 w c ≡ arc_shifts 16 (bit_xor c w)
unfolding crcu16
crcu16-arc w c p q =
    crcu8-arc (w / 2 ^ 8 % 2 ^ 8) _ (omega arith) (crcu8-lt _ c q)
    ∙ ap₂ arc_byte high (crcu8-arc (w % 2 ^ 8) c (omega arith) q)
    ∙ arc_byte-arc_byte (w / 2 ^ 8) (w % 2 ^ 8) c
    ∙ ap (λ t. arc_shifts 16 (bit_xor c t)) whole
  where
    high : w / 2 ^ 8 % 2 ^ 8 ≡ w / 2 ^ 8
    high = omega arith

    whole : bit_xor (w % 2 ^ 8) (w / 2 ^ 8 * 2 ^ 8) ≡ w
    whole = omega (arith, bit_xor-fields 8 (w / 2 ^ 8) (w % 2 ^ 8))

-- Two words that give the same checksum from one register are the same word.
pub crcu16_injective_word :
    (v w c : ℕ) → v < 2 ^ 16 → w < 2 ^ 16 → c < 2 ^ 16 → crcu16 v c ≡ crcu16 w c → v ≡ w
crcu16_injective_word v w c p q r e = bit_xor_cancel_left v w c (
    arc_shifts_injective 16 (bit_xor c v) (bit_xor c w) (bit_xor-lt 16 c v r p)
      (bit_xor-lt 16 c w r q) (sym (crcu16-arc v c p r) ∙ e ∙ crcu16-arc w c q r))
