-- ===== src/Printf/Digits.antt =====
-- The digits that `number` of sw/coremark/barebone-arty-a7/ee_printf.c writes, read back.
use native.Mathlib.Nat.{div-lt_iff_lt-mul, mod-add-div', mod-lt, mul-le-mul_left, pow-suc}
use zr_soc.Common.{
  ℕ, zero, suc, ◌+◌, ◌-◌, ◌*◌, ◌/◌, ◌%◌, ◌^◌, ◌≤◌, ◌<◌, ◌≡◌, refl, sym, ap, ap₂, ◌∙◌, max, leb,
  ◌==◌, if◌then◌else◌, Bool, true, false, not, ◌&&◌, ◌||◌, some, List, [], ◌∷◌, ◌++◌, length,
  replicate, length-append, length-replicate, ok, Reaches, bind-Reaches, ok-Reaches, Bool-cases,
  inl, inr, ==→eq, eq→==, le→ltb, arith,
}
use zr_soc.Printf.{
  Flags, digit, convert, to_digits, backwards, one_char, prefix, layout_number, number, rounds,
  sign_of, magnitude,
}

-- The value of a digit of any base up to 36.
pub digit_value : ℕ → ℕ
digit_value c = if leb c b'9' then c - b'0' else if leb c b'Z' then c - b'A' + 10 else c - b'a' + 10

-- Reading of a text in a base, with what stands before it.
pub read : (base : ℕ) → (seen : ℕ) → List ℕ → ℕ
read base seen [] = seen
read base seen (c ∷ cs) = read base (seen * base + digit_value c) cs

-- The value of digits that stand with the lowest first.
weigh : (base : ℕ) → List ℕ → ℕ
weigh base [] = 0
weigh base (d ∷ ds) = digit_value d + weigh base ds * base

digit_value-digit : (upper : Bool) (d : ℕ) → d < 36 → digit_value (digit upper d) ≡ d
unfolding digit_value digit
digit_value-digit upper d h = ground arith

read-append :
    (base seen : ℕ) (xs ys : List ℕ) → read base seen (xs ++ ys) ≡ read base (read base seen xs) ys
unfolding read
read-append base seen [] ys = refl
read-append base seen (x ∷ xs) ys = read-append base (seen * base + digit_value x) xs ys

read-backwards : (base : ℕ) (ds : List ℕ) → read base 0 (backwards ds) ≡ weigh base ds
unfolding read weigh backwards
read-backwards base [] = refl
read-backwards base (d ∷ ds) =
    read-append base 0 (backwards ds) (d ∷ [])
    ∙ ap (λ (t : ℕ). t * base + digit_value d) (read-backwards base ds)
    ∙ omega arith

zero_digit : (base : ℕ) → read base 0 (backwards (b'0' ∷ [])) ≡ 0
unfolding read backwards digit_value
zero_digit base = omega arith

halved : (n base fuel : ℕ) → 2 ≤ base → n < 2 ^ suc fuel → n / base < 2 ^ fuel
halved n base fuel b h =
    let larger = mul-le-mul_left (2 ^ fuel) b in
    (div-lt_iff_lt-mul (omega arith)).1 (omega (arith, pow-suc 2 fuel))

convert-weigh :
    (fuel : ℕ) (upper : Bool) (base num : ℕ)
    → 2 ≤ base
    → base ≤ 36
    → num < 2 ^ fuel
    → Reaches (λ ds. (weigh base ds ≡ num) × (length ds ≤ fuel)) (convert fuel upper base num)
unfolding convert weigh
convert-weigh zero upper base num b c h =
    rw (eq→== num 0 (omega arith)) (ok-Reaches (omega arith, omega arith))
convert-weigh (suc fuel) upper base num b c h = elim (Bool-cases (num == 0)) [
  | inl e ↦ rw e (ok-Reaches (sym (==→eq num 0 e), omega arith))
  | inr e ↦ rw e (
      bind-Reaches _ (convert-weigh fuel upper base (num / base) b c (halved num base fuel b h))
        (λ ds k.
          let low =
            digit_value-digit upper (num % base)
              (omega (arith, mod-lt num {m = base} (omega arith))) in
          ok-Reaches
            (ap₂ (λ (s t : ℕ). s + t * base) low k.0 ∙ mod-add-div' num base, omega (arith, k.1))))
]

to_digits-read :
    (upper : Bool) (base num : ℕ)
    → 2 ≤ base
    → base ≤ 36
    → num < 2 ^ 32
    → Reaches (λ tmp. read base 0 (backwards tmp) ≡ num) (to_digits upper base num)
unfolding to_digits
to_digits-read upper base num b c h = elim (Bool-cases (num == 0)) [
  | inl e ↦ rw e (ok-Reaches (zero_digit base ∙ sym (==→eq num 0 e)))
  | inr e ↦ rw e (
      let r = convert-weigh 32 upper base num b c h in
      record { out = r.out; returns = r.returns; holds = read-backwards base r.out ∙ r.holds.0 })
]

-- What `number` writes: padding, the sign, the prefix of the base, zeros, the digits, padding.
pub record Printed (f : Flags) (num base size precision : ℕ) (out : List ℕ) : Type 0 where
  pub early : ℕ
  pub filler : ℕ
  pub zeros : ℕ
  pub digits : List ℕ
  pub late : ℕ
  pub shape :
      out
      ≡ replicate early b' '
        ++ one_char (sign_of f num)
        ++ prefix f base
        ++ replicate filler b'0'
        ++ replicate zeros b'0'
        ++ digits
        ++ replicate late b' '
  pub value : read base 0 digits ≡ magnitude f num
  pub width :
      length out
      ≡ max (rounds size) (
          length (one_char (sign_of f num))
          + length (prefix f base)
          + max (length digits) (rounds precision))

pub length-backwards : (xs : List ℕ) → length (backwards xs) ≡ length xs
unfolding backwards
length-backwards [] = refl
length-backwards (x ∷ xs) =
    omega (arith, length-append (backwards xs) (x ∷ []), length-backwards xs)

ruleset lengths = (length-append, length-replicate, length-backwards)

length-parts :
    (e m z l c : ℕ) (a b d : List ℕ)
    → length
        (replicate e b' ' ++ a ++ b ++ replicate m c ++ replicate z b'0' ++ d ++ replicate l b' ')
      ≡ e + length a + length b + m + z + length d + l
length-parts e m z l c a b d = simp lengths (omega arith)

none_left : (n : ℕ) → n - n ≡ 0
none_left n = omega arith

same_filler :
    (zeropad left : Bool) (room : ℕ)
    → replicate {A = ℕ}
        (if left then 0 else room - (if (zeropad && not left) || left then 0 else room))
        (if zeropad && not left then b'0' else b' ')
      ≡ replicate {A = ℕ}
          (if left then 0 else room - (if (zeropad && not left) || left then 0 else room))
          b'0'
same_filler true true room = refl
same_filler false true room = refl
same_filler true false room = refl
same_filler false false room = rw (none_left room) refl

module _ (f : Flags) (sign : ℕ) (front tmp : List ℕ) (precision room : ℕ) where
  length-layout_number :
      length (layout_number f sign front tmp precision room)
      ≡ room + length (one_char sign) + length front + (precision - length tmp) + length tmp
  unfolding layout_number
  length-layout_number =
      length-parts _ _ _ _ _ (one_char sign) front (backwards tmp)
      ∙ ground (arith, length-backwards tmp)

  -- The padding is of one kind.
  pub record Laid (out : List ℕ) : Type 0 where
    pub early : ℕ
    pub filler : ℕ
    pub late : ℕ
    pub shape :
        out
        ≡ replicate early b' '
          ++ one_char sign
          ++ front
          ++ replicate filler b'0'
          ++ replicate (precision - length tmp) b'0'
          ++ backwards tmp
          ++ replicate late b' '

  layout_number-Laid : Laid (layout_number f sign front tmp precision room)
  unfolding layout_number
  layout_number-Laid =
      let early = if (f.zeropad && not f.left_justified) || f.left_justified then 0 else room in
      let middle = if f.left_justified then 0 else room - early in
      let late = room - early - middle in
      record {
        early = early;
        filler = middle;
        late = late;
        shape =
            ap
              (λ (x : List ℕ).
                replicate early b' '
                ++ one_char sign
                ++ front
                ++ x
                ++ replicate (precision - length tmp) b'0'
                ++ backwards tmp
                ++ replicate late b' ')
              (same_filler f.zeropad f.left_justified room);
      }

magnitude-lt : (f : Flags) (num : ℕ) → num < 2 ^ 32 → magnitude f num < 2 ^ 32
unfolding magnitude
magnitude-lt f num h = ground arith

pub number-Printed :
    (f : Flags) (num base size precision : ℕ)
    → 2 ≤ base
    → base ≤ 36
    → num < 2 ^ 32
    → (out : List ℕ) × (number f num base size precision ≡ ok (some out))
      × Printed f num base size precision out
unfolding number
number-Printed f num base size precision b c h =
    let r = to_digits-read f.uppercase base (magnitude f num) b c (magnitude-lt f num h) in
    let sign = sign_of f num in
    let front = prefix f base in
    let p = max (length r.out) (rounds precision) in
    let room = rounds size - length (one_char sign) - length front - p in
    let laid = layout_number-Laid f sign front r.out p room in
    (
      layout_number f sign front r.out p room,
      rw (le→ltb base 2 b, le→ltb 36 base c, r.returns) refl,
      record {
        early = laid.early;
        filler = laid.filler;
        zeros = p - length r.out;
        digits = backwards r.out;
        late = laid.late;
        shape = laid.shape;
        value = r.holds;
        width =
            length-layout_number f sign front r.out p room ∙ omega (arith, length-backwards r.out);
      },
    )
