-- ===== src/Printf/Interpreter/Overrun.antt =====
-- The length of what `ee_printf` of sw/coremark/barebone-arty-a7/ee_printf.c writes to its buffer.
use zr_soc.Common.{
  ℕ, ◌^◌, ◌≤◌, ◌<◌, ◌≡◌, refl, u32, is_neg32, leb, if◌then◌else◌, true, false, List, [], ◌∷◌, ◌++◌,
  length, length-append, some, ok, fault, le→leb, lt→leb, arith,
}
use zr_soc.Printf.{Flags, number, rounds, is_digit}
use zr_soc.Printf.Digits.{number-Printed}
use zr_soc.Printf.Format.{
  word, take_flags, is_flag, take_width, star_width, take_word, take_precision, take_qualifier,
  print_number, no_flags, minus_one,
}
use zr_soc.Printf.Interpreter.{
  FltText, print_conversion, convert_one, format_round, format_loop, ee_vsprintf, send_text,
  ee_printf,
}

-- `%*d`
abbrev pub wide_format : List ℕ
wide_format = b'%' ∷ b'*' ∷ b'd' ∷ []

full : (width : ℕ) → width < 2 ^ 31 → rounds (u32 width) ≡ width
unfolding rounds
full width h = ground arith

long :
    (out : List ℕ)
    → 256 ≤ length (out ++ [])
    → (if leb 256 (length (out ++ [])) then fault else ok (send_text (out ++ []))) ≡ fault
long out h = rw (le→leb 256 (length (out ++ [])) h) refl

module _ {F : Type 0} (flt : FltText F) (width num : ℕ) (small : width < 2 ^ 31) where
  -- The flags of `%*d`.
  abbrev pub decimal : Flags
  decimal = record no_flags { sign = true }

  not_negative : is_neg32 (u32 width) ≡ false
  not_negative = lt→leb (2 ^ 31) (u32 width) (omega arith)

  convert_wide :
      (out : List ℕ)
      → number decimal (u32 num) 10 (u32 width) minus_one ≡ ok (some out)
      → convert_one flt (b'*' ∷ b'd' ∷ []) (word width ∷ word num ∷ [])
        ≡ ok (record { out = out; fmt = []; args = [] })
  unfolding convert_one take_flags is_flag take_width star_width take_word take_precision
      take_qualifier print_conversion print_number is_digit
  convert_wide out e = rw not_negative (rw e refl)

  vsprintf-wide :
      (out : List ℕ)
      → number decimal (u32 num) 10 (u32 width) minus_one ≡ ok (some out)
      → ee_vsprintf flt wide_format (word width ∷ word num ∷ []) ≡ ok (out ++ [])
  unfolding ee_vsprintf format_loop format_round
  vsprintf-wide out e = rw (convert_wide out e) refl

  -- A field of 256 characters and more, as the argument of `%*d` may ask for, does not fit into the buffer
  -- of `ee_printf`, which is written beyond its end.
  pub ee_printf-overrun :
      256 ≤ width → ee_printf flt wide_format (word width ∷ word num ∷ []) ≡ fault
  unfolding ee_printf
  ee_printf-overrun h =
      let p =
        number-Printed decimal (u32 num) 10 (u32 width) minus_one (omega arith) (omega arith)
          (omega arith) in
      rw (vsprintf-wide p.0 p.1)
        (long p.0 (omega (arith, length-append p.0 [], p.2.width, full width small)))
