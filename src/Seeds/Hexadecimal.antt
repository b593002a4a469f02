-- ===== src/Seeds/Hexadecimal.antt =====
-- Hexadecimal arguments, with sign and qualifier, as `parseval` of sw/coremark/core_util.c reads them.
use zr_soc.Common.{
  ℕ, ◌+◌, ◌-◌, ◌*◌, ◌<◌, ◌≡◌, refl, ap, ◌∙◌, true, false, List, [], ◌∷◌, ◌++◌, All, ok, u32, neg32,
  ltb, if◌then◌else◌, arith,
}
use zr_soc.Seeds.{is_decimal, is_hex, hex_digit, scan_hex, scan_number, parse_unsigned, parseval}
use zr_soc.Seeds.Decimal.{Suffix, plain, kilo, mega, qualify-Suffix}

-- The byte that writes a value below 16.
abbrev pub hex_byte : ℕ → ℕ
hex_byte d = if ltb d 10 then b'0' + d else b'a' + (d - 10)

-- The digits of a number, as values below 16, in the order in which they are written.
abbrev pub AreHexDigits : List ℕ → Type 0
AreHexDigits = All (λ d. d < 16)

-- The text of the digits.
unfoldable pub hex_written : List ℕ → List ℕ
hex_written [] = []
hex_written (d ∷ ds) = hex_byte d ∷ hex_written ds

-- The number that the digits write, with `v` in front of them.
unfoldable pub hex_value_from : ℕ → List ℕ → ℕ
hex_value_from v [] = v
hex_value_from v (d ∷ ds) = hex_value_from (v * 16 + d) ds

not_hex : (c f : ℕ) → Suffix c f → is_hex c ≡ false
unfolding is_hex is_decimal
not_hex c f plain = refl
not_hex c f kilo = refl
not_hex c f mega = refl

hex_byte-is_hex : (d : ℕ) → d < 16 → is_hex (hex_byte d) ≡ true
unfolding is_hex is_decimal
hex_byte-is_hex d h = ground arith

hex_digit-hex_byte : (d : ℕ) → d < 16 → hex_digit (hex_byte d) ≡ d
unfolding hex_digit
hex_digit-hex_byte d h = ground arith

-- The loop reads the digits and stops at the byte behind them.
scan_hex-written :
    (ds : List ℕ) (w c : ℕ) (s : List ℕ)
    → AreHexDigits ds
    → is_hex c ≡ false
    → scan_hex (hex_written ds ++ c ∷ s) (u32 w) ≡ ok (u32 (hex_value_from w ds), c ∷ s)
unfolding scan_hex hex_written hex_value_from
scan_hex-written [] w c s h n = rw n refl
scan_hex-written (d ∷ ds) w c s (h, hs) n =
    rw (hex_byte-is_hex d h, hex_digit-hex_byte d h)
      (ap (scan_hex (hex_written ds ++ c ∷ s)) {x = u32 (u32 (u32 w * 16) + d)}
          {y = u32 (w * 16 + d)} (omega arith)
        ∙ scan_hex-written ds (w * 16 + d) c s hs n)

parse_unsigned-hexadecimal :
    (ds : List ℕ) (c f : ℕ) (s : List ℕ)
    → AreHexDigits ds
    → Suffix c f
    → parse_unsigned (b'0' ∷ b'x' ∷ hex_written ds ++ c ∷ s) ≡ ok (u32 (hex_value_from 0 ds * f))
unfolding parse_unsigned scan_number
parse_unsigned-hexadecimal ds c f s h x =
    rw (scan_hex-written ds 0 c s h (not_hex c f x)) (qualify-Suffix (hex_value_from 0 ds) c f s x)

-- A text of hexadecimal digits with the letters `a` to `f`, of any length and with `0x` in front, with a
-- qualifier `K` or `M` or with the end of the string behind it, is read as its number times 1024, times
-- 1024 * 1024 or as it is, modulo 2 ^ 32, and with a minus sign in front as the negative of that.
pub parseval-hexadecimal :
    (ds : List ℕ) (c f : ℕ) (s : List ℕ)
    → AreHexDigits ds
    → Suffix c f
    → (parseval (b'0' ∷ b'x' ∷ hex_written ds ++ c ∷ s) ≡ ok (u32 (hex_value_from 0 ds * f)))
      × (parseval (b'-' ∷ b'0' ∷ b'x' ∷ hex_written ds ++ c ∷ s)
          ≡ ok (neg32 (u32 (hex_value_from 0 ds * f))))
unfolding parseval
parseval-hexadecimal ds c f s h x =
    let run = parse_unsigned-hexadecimal ds c f s h x in (run, rw run refl)
