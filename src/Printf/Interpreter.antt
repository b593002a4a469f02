-- ===== src/Printf/Interpreter.antt =====
-- The loop of `ee_vsprintf` over the format, and `ee_printf`, of sw/coremark/barebone-arty-a7/ee_printf.c.
-- `flt`, the conversion of a floating point value, is an argument.
pub mod Ending
pub mod Total
pub mod Overrun
pub mod Pieces
use zr_soc.Common.{
  ℕ, zero, suc, ◌+◌, ◌-◌, ◌^◌, leb, ◌==◌, if◌then◌else◌, Bool, true, false, not, ◌&&◌, ◌||◌, List,
  [], ◌∷◌, ◌++◌, length, Run, ok, fault, out_of_fuel, ◌>>=◌,
}
use zr_soc.Printf.{Flags}
use zr_soc.Printf.Format.{
  Argument, Conversion, Written, no_flags, minus_one, take_flags, take_width, take_precision,
  take_qualifier, take_double, print_char, print_text, print_pointer, print_address, print_number,
}

-- `flt`: the value, the size, the precision, and the flags.
abbrev pub FltText : Type 0 → Type 0
FltText F = F → ℕ → ℕ → Flags → List ℕ

unfoldable pub print_double : {F : Type 0} → FltText F → List ℕ → Conversion F → Run (Written F)
print_double flt cs k = take_double k.args >>= λ a. ok (record {
  out = flt a.0 k.field_width k.precision (record k.flags { sign = true });
  fmt = cs;
  args = a.1;
})

-- The second `switch`, on the character of the conversion.
unfoldable pub print_conversion : {F : Type 0} → FltText F → List ℕ → Conversion F → Run (Written F)
print_conversion flt [] k = ok (record { out = b'%' ∷ []; fmt = []; args = k.args })
print_conversion flt (c ∷ cs) k =
    if c == b'c'
    then print_char cs k
    else if c == b's'
    then print_text cs k
    else if c == b'p'
    then print_pointer cs k
    else if c == b'A'
    then print_address true cs k
    else if c == b'a'
    then print_address false cs k
    else if c == b'o'
    then print_number k.flags 8 cs k
    else if c == b'X'
    then print_number (record k.flags { uppercase = true }) 16 cs k
    else if c == b'x'
    then print_number k.flags 16 cs k
    else if c == b'd' || c == b'i'
    then print_number (record k.flags { sign = true }) 10 cs k
    else if c == b'u'
    then print_number k.flags 10 cs k
    else if c == b'f'
    then print_double flt cs k
    else ok (record { out = if c == b'%' then c ∷ [] else b'%' ∷ c ∷ []; fmt = cs; args = k.args })

-- What follows a `%`.
unfoldable pub convert_one : {F : Type 0} → FltText F → List ℕ → List (Argument F) → Run (Written F)
convert_one flt cs args =
    let f = take_flags cs no_flags in
    let k : Conversion _ = record {
      flags = f.0;
      field_width = minus_one;
      precision = minus_one;
      qualifier = 0;
      fmt = f.1;
      args = args;
    } in
    take_width f.1 k >>= λ w.
    take_precision w.fmt w >>= λ p. let q = take_qualifier p.fmt p in print_conversion flt q.fmt q

-- A round of `for (str = buf; *fmt; fmt++)`.
unfoldable pub format_round :
    {F : Type 0} → FltText F → ℕ → List ℕ → List (Argument F) → Run (Written F)
format_round flt c cs args =
    if c == b'%'
    then convert_one flt cs args
    else ok (record { out = c ∷ []; fmt = cs; args = args })

-- The loop, with the rounds left: the text that is written to the buffer.
unfoldable pub format_loop :
    {F : Type 0} → ℕ → FltText F → (fmt : List ℕ) → List (Argument F) → Run (List ℕ)
format_loop fuel flt [] args = ok []
format_loop zero flt (c ∷ cs) args = out_of_fuel
format_loop (suc fuel) flt (c ∷ cs) args = format_round flt c cs args >>= λ w.
    format_loop fuel flt w.fmt w.args >>= λ out. ok (w.out ++ out)

-- Each round reads a character of the format at least.
unfoldable pub ee_vsprintf :
    {F : Type 0} → FltText F → (fmt : List ℕ) → List (Argument F) → Run (List ℕ)
ee_vsprintf flt fmt args = format_loop (length fmt) flt fmt args

-- `while (*p)`: the characters that are sent, which end at a zero.
unfoldable pub send_text : List ℕ → List ℕ
send_text [] = []
send_text (c ∷ cs) = let more = c ∷ send_text cs in if c == 0 then [] else more

-- The characters that go to the UART. The buffer has 256 bytes, one of them for the zero at the end; a
-- longer text is written behind it.
unfoldable pub ee_printf :
    {F : Type 0} → FltText F → (fmt : List ℕ) → List (Argument F) → Run (List ℕ)
ee_printf flt fmt args =
    ee_vsprintf flt fmt args >>= λ out. if leb 256 (length out) then fault else ok (send_text out)
