-- ===== src/Printf.antt =====
-- Formatted printing of the port to the Arty A7, sw/coremark/barebone-arty-a7/ee_printf.c. A conversion
-- is the list of the bytes that it writes from `str` on. A text is the list of its bytes before the zero.
pub mod Digits
pub mod Format
pub mod Interpreter
mod Examples
use zr_soc.Common.{
  ℕ, zero, suc, ◌+◌, ◌-◌, ◌*◌, ◌/◌, ◌%◌, ◌^◌, max, u32, neg32, is_neg32, ltb, leb, ◌==◌,
  if◌then◌else◌, Bool, true, false, not, ◌&&◌, ◌||◌, Option, none, some, List, [], ◌∷◌, ◌++◌,
  length, replicate, Run, ok, out_of_fuel, ◌>>=◌,
}

-- The bits ZEROPAD to UPPERCASE of `type`.
pub record Flags : Type 0 where
  pub zeropad : Bool
  pub sign : Bool
  pub plus : Bool
  pub space : Bool
  pub left_justified : Bool
  pub hex_prep : Bool
  pub uppercase : Bool

-- `digits[d]` or `upper_digits[d]`.
unfoldable pub digit : (upper : Bool) → ℕ → ℕ
digit upper d = if ltb d 10 then b'0' + d else if upper then b'A' + (d - 10) else b'a' + (d - 10)

unfoldable pub strnlen : List ℕ → (count : ℕ) → ℕ
strnlen [] count = 0
strnlen (c ∷ cs) zero = 0
strnlen (c ∷ cs) (suc count) = strnlen cs count + 1

unfoldable pub is_digit : ℕ → Bool
is_digit c = leb b'0' c && leb c b'9'

-- The number at the start of the text, an `int` whose overflow wraps, and the text behind it.
unfoldable pub skip_atoi : (i : ℕ) → List ℕ → ℕ × List ℕ
skip_atoi i [] = (i, [])
skip_atoi i (c ∷ cs) =
    let rest = skip_atoi (u32 (i * 10 + c - b'0')) cs in if is_digit c then rest else (i, c ∷ cs)

-- How often `while (size-- > 0)` runs for the pattern of an `int`.
unfoldable pub rounds : ℕ → ℕ
rounds size = if is_neg32 size then 0 else size

-- The character of the sign, 0 for none.
unfoldable pub sign_of : Flags → ℕ → ℕ
sign_of f num =
    if f.sign
    then (if is_neg32 num then b'-' else if f.plus then b'+' else if f.space then b' ' else 0)
    else 0

unfoldable pub magnitude : Flags → ℕ → ℕ
magnitude f num = if f.sign && is_neg32 num then neg32 num else num

-- `while (num != 0)`: the digits in `tmp`, the last one first.
unfoldable pub convert : ℕ → (upper : Bool) → (base num : ℕ) → Run (List ℕ)
convert zero upper base num = if num == 0 then ok [] else out_of_fuel
convert (suc fuel) upper base num =
    let more = convert fuel upper base (num / base) >>= λ ds. ok (digit upper (num % base) ∷ ds) in
    if num == 0 then ok [] else more

unfoldable pub to_digits : (upper : Bool) → (base num : ℕ) → Run (List ℕ)
to_digits upper base num = if num == 0 then ok (b'0' ∷ []) else convert 32 upper base num

-- `while (i-- > 0) *str++ = tmp[i];`
unfoldable pub backwards : List ℕ → List ℕ
backwards [] = []
backwards (c ∷ cs) = backwards cs ++ c ∷ []

unfoldable pub one_char : ℕ → List ℕ
one_char c = if c == 0 then [] else c ∷ []

unfoldable pub prefix : Flags → (base : ℕ) → List ℕ
prefix f base =
    if f.hex_prep
    then (if base == 8 then b'0' ∷ [] else if base == 16 then b'0' ∷ b'x' ∷ [] else [])
    else []

-- `number` from the padding on: the room that is left goes to the first of the three loops that fill it.
unfoldable pub layout_number :
    Flags → (sign : ℕ) → (front tmp : List ℕ) → (precision room : ℕ) → List ℕ
layout_number f sign front tmp precision room =
    let zeropad = f.zeropad && not f.left_justified in
    let early = if zeropad || f.left_justified then 0 else room in
    let middle = if f.left_justified then 0 else room - early in
    replicate early b' '
    ++ one_char sign
    ++ front
    ++ replicate middle (if zeropad then b'0' else b' ')
    ++ replicate (precision - length tmp) b'0'
    ++ backwards tmp
    ++ replicate (room - early - middle) b' '

-- `none` is the NULL that is returned for a base out of range. `size` and `precision` are used only in
-- tests and counts of a positive value, so that a negative one counts as none.
unfoldable pub number : Flags → (num base size precision : ℕ) → Run (Option (List ℕ))
number f num base size precision =
    if ltb base 2 || ltb 36 base
    then ok none
    else (to_digits f.uppercase base (magnitude f num) >>= λ tmp.
        let sign = sign_of f num in
        let front = prefix f base in
        let p = max (length tmp) (rounds precision) in
        ok (
          some (
            layout_number f sign front tmp p
              (rounds size - length (one_char sign) - length front - p))))

-- `addr[i] >> 4` and `addr[i] & 0x0F`.
unfoldable pub hex_pair : (upper : Bool) → ℕ → List ℕ
hex_pair upper a = digit upper (a / 16) ∷ digit upper (a % 16) ∷ []

-- The bytes with a separator before each but the first.
unfoldable pub separated : (byte_text : ℕ → List ℕ) → (separator : ℕ) → List ℕ → List ℕ
separated byte_text separator [] = []
separated byte_text separator (a ∷ []) = byte_text a
separated byte_text separator (a ∷ (b ∷ bs)) =
    byte_text a ++ separator ∷ separated byte_text separator (b ∷ bs)

-- `while (len < size--)`, before the text or behind it.
unfoldable pub justify : Flags → (size : ℕ) → List ℕ → List ℕ
justify f size text =
    let pad = replicate (rounds size - length text) b' ' in
    if f.left_justified then text ++ pad else pad ++ text

unfoldable pub eaddr : Flags → (size : ℕ) → (addr : List ℕ) → List ℕ
eaddr f size addr = justify f size (separated (hex_pair f.uppercase) b':' addr)

unfoldable pub decimal_byte : ℕ → List ℕ
decimal_byte n =
    if n == 0
    then digit false 0 ∷ []
    else if leb 100 n
    then digit false (n / 100) ∷ digit false (n % 100 / 10) ∷ digit false (n % 100 % 10) ∷ []
    else if leb 10 n
    then digit false (n / 10) ∷ digit false (n % 10) ∷ []
    else digit false n ∷ []

unfoldable pub iaddr : Flags → (size : ℕ) → (addr : List ℕ) → List ℕ
iaddr f size addr = justify f size (separated decimal_byte b'.' addr)
