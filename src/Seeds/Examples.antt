-- ===== src/Seeds/Examples.antt =====
-- Tests of the seeds, and the theorems on arguments at `-2K` and `0x34ffM`.
use zr_soc.Common.{◌*◌, ◌≡◌, refl, [], ◌∷◌, ◌++◌, ok, u32, neg32, arith}
use zr_soc.Seeds.{
  is_hex, is_decimal, hex_digit, scan_hex, scan_number, qualify, parse_unsigned, parseval,
}
use zr_soc.Seeds.Decimal.{kilo, mega, written, value, parseval-decimal}
use zr_soc.Seeds.Hexadecimal.{hex_written, hex_value_from, parseval-hexadecimal}

-- `0x3415` is read as a hexadecimal number.
hexadecimal : parseval (b'0' ∷ b'x' ∷ b'3' ∷ b'4' ∷ b'1' ∷ b'5' ∷ 0 ∷ []) ≡ ok 0x3415
unfolding parseval parse_unsigned scan_number scan_hex hex_digit is_hex is_decimal qualify
hexadecimal = refl

parseval-decimal_example :
    (parseval (written (2 ∷ []) ++ b'K' ∷ 0 ∷ []) ≡ ok (u32 (value (2 ∷ []) * 1024)))
    × (parseval (b'-' ∷ written (2 ∷ []) ++ b'K' ∷ 0 ∷ [])
        ≡ ok (neg32 (u32 (value (2 ∷ []) * 1024))))
parseval-decimal_example = parseval-decimal (2 ∷ []) b'K' 1024 (0 ∷ []) (omega arith, tt) kilo

parseval-hexadecimal_example :
    (parseval (b'0' ∷ b'x' ∷ hex_written (3 ∷ 4 ∷ 15 ∷ 15 ∷ []) ++ b'M' ∷ 0 ∷ [])
      ≡ ok (u32 (hex_value_from 0 (3 ∷ 4 ∷ 15 ∷ 15 ∷ []) * (1024 * 1024))))
    × (parseval (b'-' ∷ b'0' ∷ b'x' ∷ hex_written (3 ∷ 4 ∷ 15 ∷ 15 ∷ []) ++ b'M' ∷ 0 ∷ [])
        ≡ ok (neg32 (u32 (hex_value_from 0 (3 ∷ 4 ∷ 15 ∷ 15 ∷ []) * (1024 * 1024)))))
parseval-hexadecimal_example =
    parseval-hexadecimal (3 ∷ 4 ∷ 15 ∷ 15 ∷ []) b'M' (1024 * 1024) (0 ∷ [])
      (omega arith, (omega arith, (omega arith, (omega arith, tt)))) mega
