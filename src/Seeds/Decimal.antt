-- ===== src/Seeds/Decimal.antt =====
-- Decimal arguments, with sign and qualifier, as `parseval` of sw/coremark/core_util.c reads them.
use zr_soc.Common.{
  ℕ, ◌+◌, ◌-◌, ◌*◌, ◌<◌, ◌≡◌, refl, ap, ◌∙◌, ◌==◌, Bool, true, false, ◌&&◌, List, [], ◌∷◌, ◌++◌,
  All, ok, u32, neg32, ne→==, le→leb, arith,
}
use zr_soc.Seeds.{is_decimal, scan_decimal, scan_number, qualify, parse_unsigned, parseval}

-- The digits of a number, as values below ten, in the order in which they are written.
abbrev pub AreDigits : List ℕ → Type 0
AreDigits = All (λ d. d < 10)

-- The text of the digits.
unfoldable pub written : List ℕ → List ℕ
written [] = []
written (d ∷ ds) = (b'0' + d) ∷ written ds

-- The number that the digits write, with `v` in front of them.
unfoldable pub value_from : ℕ → List ℕ → ℕ
value_from v [] = v
value_from v (d ∷ ds) = value_from (v * 10 + d) ds

abbrev pub value : List ℕ → ℕ
value = value_from 0

-- What may follow a number: a qualifier or the end, and the factor that it stands for.
pub data Suffix : ℕ → ℕ → Type 0 where
  plain : Suffix 0 1
  kilo : Suffix b'K' 1024
  mega : Suffix b'M' (1024 * 1024)

abbrev pub suffix_byte : {c f : ℕ} → Suffix c f → ℕ
suffix_byte {c} x = c

not_decimal : (c f : ℕ) → Suffix c f → is_decimal c ≡ false
unfolding is_decimal
not_decimal c f plain = refl
not_decimal c f kilo = refl
not_decimal c f mega = refl

not_zero_or_x :
    (c f : ℕ) → Suffix c f → ((c == b'0') ≡ false) × ((c == b'x') ≡ false) × ((c == b'-') ≡ false)
not_zero_or_x c f plain = (refl, refl, refl)
not_zero_or_x c f kilo = (refl, refl, refl)
not_zero_or_x c f mega = (refl, refl, refl)

digit-is_decimal : (d : ℕ) → d < 10 → is_decimal (b'0' + d) ≡ true
unfolding is_decimal
digit-is_decimal d h =
    rw (le→leb b'0' (b'0' + d) (omega arith)) (le→leb (b'0' + d) b'9' (omega arith))

-- The loop reads the digits and stops at the byte behind them.
scan_decimal-written :
    (ds : List ℕ) (w c : ℕ) (s : List ℕ)
    → AreDigits ds
    → is_decimal c ≡ false
    → scan_decimal (written ds ++ c ∷ s) (u32 w) ≡ ok (u32 (value_from w ds), c ∷ s)
unfolding scan_decimal written value_from
scan_decimal-written [] w c s h n = rw n refl
scan_decimal-written (d ∷ ds) w c s (h, hs) n = rw (digit-is_decimal d h) (
    ap (scan_decimal (written ds ++ c ∷ s)) {x = u32 (u32 (u32 w * 10) + (b'0' + d - b'0'))}
      {y = u32 (w * 10 + d)} (omega arith)
    ∙ scan_decimal-written ds (w * 10 + d) c s hs n)

and_false : (t : Bool) → (t && false) ≡ false
and_false true = refl
and_false false = refl

-- A text of digits has no prefix of a hexadecimal number.
scan_number-written :
    (ds : List ℕ) (c f : ℕ) (s : List ℕ)
    → AreDigits ds
    → Suffix c f
    → scan_number (written ds ++ c ∷ s) ≡ scan_decimal (written ds ++ c ∷ s) 0
unfolding scan_number written
scan_number-written [] c f [] h x = rw (not_zero_or_x c f x).0 refl
scan_number-written [] c f (d ∷ s) h x = rw (not_zero_or_x c f x).0 refl
scan_number-written (d ∷ []) c f s h x =
    rw (not_zero_or_x c f x).1 (rw (and_false (b'0' + d == b'0')) refl)
scan_number-written (d ∷ e ∷ ds) c f s (h, (i, hs)) x =
    rw (ne→== (b'0' + e) b'x' (λ q. omega (arith, q, i))) (rw (and_false (b'0' + d == b'0')) refl)

pub qualify-Suffix :
    (n c f : ℕ) (s : List ℕ) → Suffix c f → qualify (u32 n) (c ∷ s) ≡ ok (u32 (n * f))
unfolding qualify
qualify-Suffix n c f s plain = ap ok (omega arith)
qualify-Suffix n c f s kilo = ap ok (omega arith)
qualify-Suffix n c f s mega = ap ok (omega arith)

parse_unsigned-written :
    (ds : List ℕ) (c f : ℕ) (s : List ℕ)
    → AreDigits ds
    → Suffix c f
    → parse_unsigned (written ds ++ c ∷ s) ≡ ok (u32 (value ds * f))
unfolding parse_unsigned
parse_unsigned-written ds c f s h x =
    rw (scan_number-written ds c f s h x, scan_decimal-written ds 0 c s h (not_decimal c f x))
      (qualify-Suffix (value ds) c f s x)

no_sign :
    (ds : List ℕ) (c f : ℕ) (s : List ℕ)
    → AreDigits ds
    → Suffix c f
    → parseval (written ds ++ c ∷ s) ≡ parse_unsigned (written ds ++ c ∷ s)
unfolding parseval written
no_sign [] c f s h x = rw (not_zero_or_x c f x).2 refl
no_sign (d ∷ ds) c f s (h, hs) x = rw (ne→== (b'0' + d) b'-' (λ q. omega (arith, q))) refl

-- A text of decimal digits, of any length, with a qualifier `K` or `M` or with the end of the string
-- behind it, is read as its number times 1024, times 1024 * 1024 or as it is, modulo 2 ^ 32, and with a
-- minus sign in front as the negative of that.
pub parseval-decimal :
    (ds : List ℕ) (c f : ℕ) (s : List ℕ)
    → AreDigits ds
    → Suffix c f
    → (parseval (written ds ++ c ∷ s) ≡ ok (u32 (value ds * f)))
      × (parseval (b'-' ∷ written ds ++ c ∷ s) ≡ ok (neg32 (u32 (value ds * f))))
unfolding parseval
parseval-decimal ds c f s h x =
    let run = parse_unsigned-written ds c f s h x in (no_sign ds c f s h x ∙ run, rw run refl)
