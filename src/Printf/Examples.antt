-- ===== src/Printf/Examples.antt =====
-- The theorems on formatted printing at concrete formats, and some texts that are printed.
use zr_soc.Common.{ℕ, ◌-◌, ◌^◌, ◌≡◌, refl, true, some, List, [], ◌∷◌, ok, fault, arith}
use zr_soc.Printf.{
  Flags, number, digit, is_digit, skip_atoi, rounds, sign_of, magnitude, convert, to_digits,
  backwards, one_char, prefix, layout_number,
}
use zr_soc.Printf.Format.{
  word, no_flags, take_flags, is_flag, add_flag, take_word, take_width, set_precision, after_point,
  take_precision, take_qualifier, print_number,
}
use zr_soc.Printf.Interpreter.{
  FltText, print_conversion, convert_one, format_round, format_loop, ee_vsprintf, ee_printf,
}
use zr_soc.Printf.Interpreter.Pieces.{
  Piece, plain, percent, char, string, numeric, decimal, upper_hex, pointer,
}
use zr_soc.Printf.Interpreter.Overrun.{wide_format, ee_printf-overrun}

abbrev no_float : FltText ℕ
no_float x size precision f = []

abbrev signed : Flags
signed = record no_flags { sign = true; zeropad = true }

number-padded :
    number signed (2 ^ 32 - 123) 10 8 (2 ^ 32 - 1)
    ≡ ok (some (b'-' ∷ b'0' ∷ b'0' ∷ b'0' ∷ b'0' ∷ b'1' ∷ b'2' ∷ b'3' ∷ []))
unfolding number to_digits convert digit sign_of magnitude prefix layout_number one_char backwards
    rounds
number-padded = refl

-- `x=%5.3x|` with 10.
abbrev hexadecimal : List ℕ
hexadecimal = b'x' ∷ b'=' ∷ b'%' ∷ b'5' ∷ b'.' ∷ b'3' ∷ b'x' ∷ b'|' ∷ []

vsprintf-hexadecimal :
    ee_vsprintf no_float hexadecimal (word 10 ∷ [])
    ≡ ok (b'x' ∷ b'=' ∷ b' ' ∷ b' ' ∷ b'0' ∷ b'0' ∷ b'a' ∷ b'|' ∷ [])
unfolding ee_vsprintf format_loop format_round convert_one take_flags is_flag add_flag take_width
    skip_atoi is_digit take_precision after_point set_precision take_qualifier print_conversion
    print_number take_word number to_digits convert digit sign_of magnitude prefix layout_number
    one_char backwards rounds
vsprintf-hexadecimal = refl

-- `%d%% %s%c%X %p` with -5, a text, a colon, 255 and an address.
abbrev pieces : List Piece
pieces =
    numeric decimal (2 ^ 32 - 5)
    ∷ percent
    ∷ plain b' '
    ∷ string (b'o' ∷ b'f' ∷ [])
    ∷ char b':'
    ∷ numeric upper_hex 255
    ∷ plain b' '
    ∷ numeric pointer 4096
    ∷ []

ee_printf-overrun_example : ee_printf no_float wide_format (word 300 ∷ word 7 ∷ []) ≡ fault
ee_printf-overrun_example = ee_printf-overrun no_float 300 7 (omega arith) (omega arith)
