-- ===== src/Printf/Format.antt =====
-- The parts of `ee_vsprintf` of sw/coremark/barebone-arty-a7/ee_printf.c: flags, width, precision, and
-- each conversion with its arguments.
use zr_soc.Common.{
  take, ℕ, zero, suc, ◌-◌, ◌^◌, u8, u32, neg32, is_neg32, ◌==◌, if◌then◌else◌, Bool, true, false,
  ◌||◌, Option, none, some, List, [], ◌∷◌, ◌++◌, replicate, Run, ok, fault, ◌>>=◌, from_option,
}
use zr_soc.Printf.{Flags, strnlen, is_digit, skip_atoi, rounds, number, justify, eaddr, iaddr}

-- An argument behind the format: a word of 32 bits, a pointer to a text, which may be NULL, a pointer to
-- an address, or a floating point value.
pub data Argument (F : Type 0) : Type 0 where
  word : ℕ → Argument F
  text : Option (List ℕ) → Argument F
  address : List ℕ → Argument F
  double : F → Argument F

-- The variables of the loop, `fmt` as what is left of the format.
pub record Conversion (F : Type 0) : Type 0 where
  pub flags : Flags
  pub field_width : ℕ
  pub precision : ℕ
  pub qualifier : ℕ
  pub fmt : List ℕ
  pub args : List (Argument F)

-- -1 as an `int`.
abbrev pub minus_one : ℕ
minus_one = 2 ^ 32 - 1

abbrev pub no_flags : Flags
no_flags = record {
  zeropad = false;
  sign = false;
  plus = false;
  space = false;
  left_justified = false;
  hex_prep = false;
  uppercase = false;
}

unfoldable pub is_flag : ℕ → Bool
is_flag c = c == b'-' || c == b'+' || c == b' ' || c == b'#' || c == b'0'

unfoldable pub add_flag : ℕ → Flags → Flags
add_flag c f =
    if c == b'-'
    then record f { left_justified = true }
    else if c == b'+'
    then record f { plus = true }
    else if c == b' '
    then record f { space = true }
    else if c == b'#'
    then record f { hex_prep = true }
    else record f { zeropad = true }

-- From `repeat:` to the end of the `switch`.
unfoldable pub take_flags : List ℕ → Flags → Flags × List ℕ
take_flags [] f = (f, [])
take_flags (c ∷ cs) f =
    let more = take_flags cs (add_flag c f) in if is_flag c then more else (f, c ∷ cs)

-- `va_arg` of an `int`, `unsigned int`, `unsigned long` or `void *`.
unfoldable pub take_word : {F : Type 0} → List (Argument F) → Run (ℕ × List (Argument F))
take_word [] = fault
take_word (word w ∷ args) = ok (u32 w, args)
take_word (text t ∷ args) = fault
take_word (address a ∷ args) = fault
take_word (double d ∷ args) = fault

unfoldable pub take_text :
    {F : Type 0} → List (Argument F) → Run (Option (List ℕ) × List (Argument F))
take_text [] = fault
take_text (word w ∷ args) = fault
take_text (text t ∷ args) = ok (t, args)
take_text (address a ∷ args) = fault
take_text (double d ∷ args) = fault

unfoldable pub take_address : {F : Type 0} → List (Argument F) → Run (List ℕ × List (Argument F))
take_address [] = fault
take_address (word w ∷ args) = fault
take_address (text t ∷ args) = fault
take_address (address a ∷ args) = ok (a, args)
take_address (double d ∷ args) = fault

unfoldable pub take_double : {F : Type 0} → List (Argument F) → Run (F × List (Argument F))
take_double [] = fault
take_double (word w ∷ args) = fault
take_double (text t ∷ args) = fault
take_double (address a ∷ args) = fault
take_double (double d ∷ args) = ok (d, args)

-- The field width given by an argument: a negative one is for justification on the left.
unfoldable pub star_width : {F : Type 0} → List ℕ → Conversion F → Run (Conversion F)
star_width fmt k = take_word k.args >>= λ a.
    if is_neg32 a.0
    then ok (record k {
      flags = record k.flags { left_justified = true };
      field_width = neg32 a.0;
      fmt = fmt;
      args = a.1;
    })
    else ok (record k { field_width = a.0; fmt = fmt; args = a.1 })

unfoldable pub take_width : {F : Type 0} → List ℕ → Conversion F → Run (Conversion F)
take_width [] k = ok (record k { fmt = [] })
take_width (c ∷ cs) k =
    if is_digit c
    then (let n = skip_atoi 0 (c ∷ cs) in ok (record k { field_width = n.0; fmt = n.1 }))
    else if c == b'*'
    then star_width cs k
    else ok (record k { fmt = c ∷ cs })

-- `if (precision < 0) precision = 0;`
unfoldable pub set_precision : {F : Type 0} → ℕ → Conversion F → Conversion F
set_precision p k = record k { precision = rounds p }

unfoldable pub after_point : {F : Type 0} → List ℕ → Conversion F → Run (Conversion F)
after_point [] k = ok (set_precision minus_one (record k { fmt = [] }))
after_point (c ∷ cs) k =
    if is_digit c
    then (let n = skip_atoi 0 (c ∷ cs) in ok (set_precision n.0 (record k { fmt = n.1 })))
    else if c == b'*'
    then (take_word k.args >>= λ a. ok (set_precision a.0 (record k { fmt = cs; args = a.1 })))
    else ok (set_precision minus_one (record k { fmt = c ∷ cs }))

unfoldable pub take_precision : {F : Type 0} → List ℕ → Conversion F → Run (Conversion F)
take_precision [] k = ok k
take_precision (c ∷ cs) k = if c == b'.' then after_point cs k else ok k

unfoldable pub take_qualifier : {F : Type 0} → List ℕ → Conversion F → Conversion F
take_qualifier [] k = k
take_qualifier (c ∷ cs) k =
    if c == b'l' || c == b'L' then record k { qualifier = c; fmt = cs } else k

-- What is written, what is left of the format, and of the arguments.
pub record Written (F : Type 0) : Type 0 where
  pub out : List ℕ
  pub fmt : List ℕ
  pub args : List (Argument F)

unfoldable pub print_char : {F : Type 0} → List ℕ → Conversion F → Run (Written F)
print_char cs k = take_word k.args >>= λ a.
    let pad = replicate (rounds k.field_width - 1) b' ' in
    let c = u8 a.0 ∷ [] in
    ok
      (record { out = if k.flags.left_justified then c ++ pad else pad ++ c; fmt = cs; args = a.1 })

-- `"<NULL>"`
abbrev pub null_text : List ℕ
null_text = b'<' ∷ b'N' ∷ b'U' ∷ b'L' ∷ b'L' ∷ b'>' ∷ []

unfoldable pub or_null : Option (List ℕ) → List ℕ
or_null none = null_text
or_null (some t) = t

unfoldable pub print_text : {F : Type 0} → List ℕ → Conversion F → Run (Written F)
print_text cs k = take_text k.args >>= λ a.
    let s = or_null a.0 in
    ok (record {
      out = justify k.flags k.field_width (take (strnlen s k.precision) s);
      fmt = cs;
      args = a.1;
    })

-- `addr[0]` to `addr[n-1]`.
unfoldable pub read_bytes : ℕ → List ℕ → Run (List ℕ)
read_bytes zero xs = ok []
read_bytes (suc n) [] = fault
read_bytes (suc n) (x ∷ xs) = read_bytes n xs >>= λ r. ok (x ∷ r)

unfoldable pub print_address :
    {F : Type 0} → (upper : Bool) → List ℕ → Conversion F → Run (Written F)
print_address upper cs k =
    let f = if upper then record k.flags { uppercase = true } else k.flags in
    take_address k.args >>= λ a.
    if k.qualifier == b'l'
    then (read_bytes 6 a.0 >>= λ b.
        ok (record { out = eaddr f k.field_width b; fmt = cs; args = a.1 }))
    else (read_bytes 4 a.0 >>= λ b.
        ok (record { out = iaddr f k.field_width b; fmt = cs; args = a.1 }))

-- The end of the loop's body: a NULL from `number` would be written through.
unfoldable pub print_number :
    {F : Type 0} → Flags → (base : ℕ) → List ℕ → Conversion F → Run (Written F)
print_number f base cs k = take_word k.args >>= λ a.
    number f a.0 base k.field_width k.precision >>= λ n.
    from_option n >>= λ out. ok (record { out = out; fmt = cs; args = a.1 })

unfoldable pub print_pointer : {F : Type 0} → List ℕ → Conversion F → Run (Written F)
print_pointer cs k =
    if k.field_width == minus_one
    then print_number (record k.flags { zeropad = true }) 16 cs (record k { field_width = 8 })
    else print_number k.flags 16 cs k
