-- ===== src/Seeds.antt =====
-- The seeds of the benchmark, sw/coremark/core_util.c: from the command line (parseval and get_seed_args)
-- and from volatile variables (get_seed_32). A string is the list of its bytes, with its zero byte.
pub mod Decimal
pub mod Hexadecimal
mod Examples
use zr_soc.Common.{
  ℕ, zero, suc, ◌+◌, ◌-◌, ◌*◌, ltb, leb, ◌==◌, if◌then◌else◌, Bool, true, false, ◌&&◌, ◌||◌, List,
  [], ◌∷◌, Option, some, none, Run, ok, fault, ◌>>=◌, from_option, get_elem?, u32, neg32,
}

unfoldable pub is_decimal : ℕ → Bool
is_decimal c = leb b'0' c && leb c b'9'

unfoldable pub is_hex : ℕ → Bool
is_hex c = is_decimal c || (leb b'a' c && leb c b'f')

-- `digit=*valstring-'0'; if (digit>9) digit=10+*valstring-'a';`
unfoldable pub hex_digit : ℕ → ℕ
hex_digit c = if ltb 9 (c - b'0') then 10 + c - b'a' else c - b'0'

-- The loop over the digits of a hexadecimal number.
unfoldable pub scan_hex : List ℕ → (retval : ℕ) → Run (ℕ × List ℕ)
scan_hex [] retval = fault
scan_hex (c ∷ s) retval =
    let rest = scan_hex s (u32 (u32 (retval * 16) + hex_digit c)) in
    if is_hex c then rest else ok (retval, c ∷ s)

-- The loop over the digits of a decimal number.
unfoldable pub scan_decimal : List ℕ → (retval : ℕ) → Run (ℕ × List ℕ)
scan_decimal [] retval = fault
scan_decimal (c ∷ s) retval =
    let rest = scan_decimal s (u32 (u32 (retval * 10) + (c - b'0'))) in
    if is_decimal c then rest else ok (retval, c ∷ s)

-- `(valstring[0] == '0') && (valstring[1] == 'x')`, with what follows the prefix.
unfoldable pub scan_number : List ℕ → Run (ℕ × List ℕ)
scan_number [] = fault
scan_number (c ∷ []) = if c == b'0' then fault else scan_decimal (c ∷ []) 0
scan_number (c ∷ d ∷ s) =
    if (c == b'0') && (d == b'x') then scan_hex s 0 else scan_decimal (c ∷ d ∷ s) 0

-- The qualifiers `K` and `M`.
unfoldable pub qualify : ℕ → List ℕ → Run ℕ
qualify retval [] = fault
qualify retval (c ∷ s) =
    let retval1 = if c == b'K' then u32 (retval * 1024) else retval in
    ok (if c == b'M' then u32 (retval1 * (1024 * 1024)) else retval1)

-- A number without its sign.
unfoldable pub parse_unsigned : List ℕ → Run ℕ
parse_unsigned s = do r ← scan_number s; qualify r.0 r.1

unfoldable pub parseval : List ℕ → Run ℕ
parseval [] = fault
parseval (c ∷ s) =
    if c == b'-' then (parse_unsigned s >>= λ v. ok (neg32 v)) else parse_unsigned (c ∷ s)

unfoldable pub get_seed_args : (i argc : ℕ) → (argv : List (List ℕ)) → Run ℕ
get_seed_args i argc argv = if ltb i argc then from_option (get_elem? argv i) >>= parseval else ok 0

-- `seed1_volatile` to `seed5_volatile`.
pub record Volatile : Type 0 where
  pub seed1_volatile : ℕ
  pub seed2_volatile : ℕ
  pub seed3_volatile : ℕ
  pub seed4_volatile : ℕ
  pub seed5_volatile : ℕ

unfoldable pub get_seed_32 : Volatile → ℕ → ℕ
get_seed_32 v i =
    if i == 1
    then v.seed1_volatile
    else if i == 2
    then v.seed2_volatile
    else if i == 3
    then v.seed3_volatile
    else if i == 4
    then v.seed4_volatile
    else if i == 5
    then v.seed5_volatile
    else 0
