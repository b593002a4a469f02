-- ===== src/Printf/Interpreter/Ending.antt =====
-- The parts of `ee_vsprintf` of sw/coremark/barebone-arty-a7/ee_printf.c end, and leave no more of the
-- format than there was.
use zr_soc.Common.{
  ℕ, zero, suc, ◌+◌, ◌*◌, ◌-◌, ◌^◌, ◌≤◌, ◌<◌, ◌==◌, if◌then◌else◌, Bool, true, false, List, [], ◌∷◌,
  length, u32, is_neg32, Run, ok, fault, out_of_fuel, ◌>>=◌, arith,
}
use zr_soc.Printf.{Flags, is_digit, skip_atoi}
use zr_soc.Printf.Digits.{number-Printed}
use zr_soc.Printf.Format.{
  Argument, word, text, address, double, Conversion, Written, take_flags, add_flag, take_word,
  take_text, take_address, take_double, star_width, take_width, set_precision, after_point,
  take_precision, take_qualifier, print_char, print_text, read_bytes, print_address, print_number,
}
use zr_soc.Printf.Interpreter.{FltText, print_double}

-- The code returns a value with the predicate, or has faulted; it has not run out of rounds.
unfoldable pub Ends {ℓ} : {A : Type ℓ} → (A → Type 0) → Run A → Type 0
Ends P (ok a) = P a
Ends P fault = Unit
Ends P out_of_fuel = ⊥

pub bind-Ends {ℓ κ} :
    {A : Type ℓ} {B : Type κ} (P : A → Type 0) (Q : B → Type 0) (r : Run A) (f : A → Run B)
    → Ends P r
    → ((a : A) → P a → Ends Q (f a))
    → Ends Q (r >>= f)
unfolding Ends
bind-Ends P Q (ok a) f h k = k a h
bind-Ends P Q fault f h k = tt
bind-Ends P Q out_of_fuel f h k = absurd h

pub if-Ends {ℓ} :
    {A : Type ℓ} (P : A → Type 0) (c : Bool) (x y : Run A)
    → Ends P x
    → Ends P y
    → Ends P (if c then x else y)
if-Ends P true x y h k = h
if-Ends P false x y h k = k

skip_atoi-length : (i : ℕ) (cs : List ℕ) → length (skip_atoi i cs).1 ≤ length cs
unfolding skip_atoi
skip_atoi-length i [] = omega arith
skip_atoi-length i (c ∷ cs) =
    let rest = skip_atoi-length (u32 (i * 10 + c - b'0')) cs in ground arith

pub take_flags-length : (cs : List ℕ) (f : Flags) → length (take_flags cs f).1 ≤ length cs
unfolding take_flags
take_flags-length [] f = omega arith
take_flags-length (c ∷ cs) f = let rest = take_flags-length cs (add_flag c f) in ground arith

take_word-lt : {F : Type 0} (args : List (Argument F)) → Ends (λ a. a.0 < 2 ^ 32) (take_word args)
unfolding take_word Ends
take_word-lt [] = tt
take_word-lt (word w ∷ args) = omega arith
take_word-lt (text t ∷ args) = tt
take_word-lt (address a ∷ args) = tt
take_word-lt (double d ∷ args) = tt

take_text-Ends : {F : Type 0} (args : List (Argument F)) → Ends (λ a. Unit) (take_text args)
unfolding take_text Ends
take_text-Ends [] = tt
take_text-Ends (word w ∷ args) = tt
take_text-Ends (text t ∷ args) = tt
take_text-Ends (address a ∷ args) = tt
take_text-Ends (double d ∷ args) = tt

take_address-Ends : {F : Type 0} (args : List (Argument F)) → Ends (λ a. Unit) (take_address args)
unfolding take_address Ends
take_address-Ends [] = tt
take_address-Ends (word w ∷ args) = tt
take_address-Ends (text t ∷ args) = tt
take_address-Ends (address a ∷ args) = tt
take_address-Ends (double d ∷ args) = tt

take_double-Ends : {F : Type 0} (args : List (Argument F)) → Ends (λ a. Unit) (take_double args)
unfolding take_double Ends
take_double-Ends [] = tt
take_double-Ends (word w ∷ args) = tt
take_double-Ends (text t ∷ args) = tt
take_double-Ends (address a ∷ args) = tt
take_double-Ends (double d ∷ args) = tt

read_bytes-Ends : (n : ℕ) (xs : List ℕ) → Ends (λ a. Unit) (read_bytes n xs)
unfolding read_bytes Ends
read_bytes-Ends zero xs = tt
read_bytes-Ends (suc n) [] = tt
read_bytes-Ends (suc n) (x ∷ xs) =
    bind-Ends (λ a. Unit) (λ a. Unit) (read_bytes n xs) _ (read_bytes-Ends n xs) (λ r u. tt)

pub le_refl : (n : ℕ) → n ≤ n
le_refl n = omega arith

module _ {F : Type 0} where
  -- No more of the format is left than this.
  unfoldable pub Left : ℕ → Conversion F → Type 0
  Left n k = length k.fmt ≤ n

  unfoldable pub Rest : ℕ → Written F → Type 0
  Rest n w = length w.fmt ≤ n

  after_word :
      (n : ℕ) (args : List (Argument F)) (f : ℕ × List (Argument F) → Run (Conversion F))
      → ((a : ℕ × List (Argument F)) → Ends (Left n) (f a))
      → Ends (Left n) (take_word args >>= f)
  after_word n args f k =
      bind-Ends (λ a. a.0 < 2 ^ 32) (Left n) (take_word args) f (take_word-lt args) (λ a u. k a)

  pub wider : (r : Run (Conversion F)) (m n : ℕ) → m ≤ n → Ends (Left m) r → Ends (Left n) r
  unfolding Ends Left
  wider (ok k) m n l h = omega arith
  wider fault m n l h = tt
  wider out_of_fuel m n l h = h

  pub take_width-Left : (cs : List ℕ) (k : Conversion F) → Ends (Left (length cs)) (take_width cs k)
  unfolding take_width star_width Left Ends
  take_width-Left [] k = omega arith
  take_width-Left (c ∷ cs) k =
      let less : length cs ≤ suc (length cs) = omega arith in
      let same : suc (length cs) ≤ suc (length cs) = omega arith in
      if-Ends (Left (suc (length cs))) (is_digit c) _ _ (skip_atoi-length 0 (c ∷ cs)) (
        if-Ends (Left (suc (length cs))) (c == b'*') _ _
          (after_word (suc (length cs)) k.args _
            (λ a. if-Ends (Left (suc (length cs))) (is_neg32 a.0) _ _ less less))
          same)

  after_point-Left : (cs : List ℕ) (k : Conversion F) → Ends (Left (length cs)) (after_point cs k)
  unfolding after_point set_precision Left Ends
  after_point-Left [] k = omega arith
  after_point-Left (c ∷ cs) k =
      let less : length cs ≤ suc (length cs) = omega arith in
      let same : suc (length cs) ≤ suc (length cs) = omega arith in
      if-Ends (Left (suc (length cs))) (is_digit c) _ _ (skip_atoi-length 0 (c ∷ cs)) (
        if-Ends (Left (suc (length cs))) (c == b'*') _ _
          (after_word (suc (length cs)) k.args _ (λ a. less)) same)

  pub take_precision-Left :
      (n : ℕ) (cs : List ℕ) (k : Conversion F)
      → length cs ≤ n
      → length k.fmt ≤ n
      → Ends (Left n) (take_precision cs k)
  unfolding take_precision Left Ends
  take_precision-Left n [] k h l = l
  take_precision-Left n (c ∷ cs) k h l =
      if-Ends (Left n) (c == b'.') (after_point cs k) (ok k)
        (wider (after_point cs k) (length cs) n (omega (arith, h)) (after_point-Left cs k)) l

  pub take_qualifier-Left :
      (n : ℕ) (cs : List ℕ) (k : Conversion F)
      → length cs ≤ n
      → length k.fmt ≤ n
      → length (take_qualifier cs k).fmt ≤ n
  unfolding take_qualifier
  take_qualifier-Left n [] k h l = l
  take_qualifier-Left n (c ∷ cs) k h l = ground arith

  -- A conversion that takes an argument and leaves what is behind its character.
  pub print_number-Rest :
      (f : Flags) (base : ℕ) (cs : List ℕ) (k : Conversion F)
      → 2 ≤ base
      → base ≤ 36
      → Ends (Rest (length cs)) (print_number f base cs k)
  unfolding print_number Rest Ends
  print_number-Rest f base cs k b c =
      bind-Ends (λ a. a.0 < 2 ^ 32) (Rest (length cs)) (take_word k.args) _ (take_word-lt k.args)
        (λ a u.
          let p = number-Printed f a.0 base k.field_width k.precision b c u in rw p.1 (omega arith))

  pub print_char-Rest : (cs : List ℕ) (k : Conversion F) → Ends (Rest (length cs)) (print_char cs k)
  unfolding print_char Rest Ends
  print_char-Rest cs k =
      bind-Ends (λ a. a.0 < 2 ^ 32) (Rest (length cs)) (take_word k.args) _ (take_word-lt k.args)
        (λ a u. omega arith)

  pub print_text-Rest : (cs : List ℕ) (k : Conversion F) → Ends (Rest (length cs)) (print_text cs k)
  unfolding print_text Rest Ends
  print_text-Rest cs k =
      bind-Ends (λ a. Unit) (Rest (length cs)) (take_text k.args) _ (take_text-Ends k.args)
        (λ a u. omega arith)

  pub print_double-Rest :
      (flt : FltText F) (cs : List ℕ) (k : Conversion F)
      → Ends (Rest (length cs)) (print_double flt cs k)
  unfolding print_double Rest Ends
  print_double-Rest flt cs k =
      bind-Ends (λ a. Unit) (Rest (length cs)) (take_double k.args) _ (take_double-Ends k.args)
        (λ a u. omega arith)

  pub print_address-Rest :
      (upper : Bool) (cs : List ℕ) (k : Conversion F)
      → Ends (Rest (length cs)) (print_address upper cs k)
  unfolding print_address Rest Ends
  print_address-Rest upper cs k =
      bind-Ends (λ a. Unit) (Rest (length cs)) (take_address k.args) _ (take_address-Ends k.args)
        (λ a u.
          if-Ends (Rest (length cs)) (k.qualifier == b'l') _ _
            (bind-Ends (λ b. Unit) (Rest (length cs)) (read_bytes 6 a.0) _ (read_bytes-Ends 6 a.0)
              (λ b t. le_refl (length cs)))
            (bind-Ends (λ b. Unit) (Rest (length cs)) (read_bytes 4 a.0) _ (read_bytes-Ends 4 a.0)
              (λ b t. le_refl (length cs))))
