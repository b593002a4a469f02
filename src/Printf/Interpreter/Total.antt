-- ===== src/Printf/Interpreter/Total.antt =====
-- `ee_vsprintf` of sw/coremark/barebone-arty-a7/ee_printf.c ends on every format.
use mathlib.Core.Path.{subst}
use zr_soc.Common.{
  ℕ, zero, suc, ◌≤◌, ◌≢◌, ◌==◌, Bool, true, false, ◌||◌, List, [], ◌∷◌, length, Run, ok, fault,
  out_of_fuel, arith,
}
use zr_soc.Printf.{Flags}
use zr_soc.Printf.Format.{
  Argument, Conversion, Written, take_flags, take_width, take_precision, take_qualifier,
  print_number, print_pointer, no_flags, minus_one,
}
use zr_soc.Printf.Interpreter.{
  FltText, print_conversion, convert_one, format_round, format_loop, ee_vsprintf,
}
use zr_soc.Printf.Interpreter.Ending.{
  Ends, wider, bind-Ends, if-Ends, take_flags-length, le_refl, Left, Rest, take_width-Left,
  take_precision-Left, take_qualifier-Left, print_number-Rest, print_char-Rest, print_text-Rest,
  print_double-Rest, print_address-Rest,
}

le_suc : (n : ℕ) → n ≤ suc n
le_suc n = omega arith

module _ {F : Type 0} (flt : FltText F) where
  larger_bound : (r : Run (Written F)) (m n : ℕ) → m ≤ n → Ends (Rest m) r → Ends (Rest n) r
  unfolding Ends Rest
  larger_bound (ok w) m n l h = omega arith
  larger_bound fault m n l h = tt
  larger_bound out_of_fuel m n l h = h

  print_pointer-Rest :
      (cs : List ℕ) (k : Conversion F) → Ends (Rest (length cs)) (print_pointer cs k)
  unfolding print_pointer
  print_pointer-Rest cs k =
      if-Ends (Rest (length cs)) (k.field_width == minus_one) _ _
        (print_number-Rest _ 16 cs _ (omega arith) (omega arith))
        (print_number-Rest _ 16 cs k (omega arith) (omega arith))

  print_conversion-Rest :
      (cs : List ℕ) (k : Conversion F) → Ends (Rest (length cs)) (print_conversion flt cs k)
  unfolding print_conversion Ends Rest
  print_conversion-Rest [] k = le_refl 0
  print_conversion-Rest (c ∷ cs) k =
      let shorter =
        λ (r : Run (Written F)). larger_bound r (length cs) (suc (length cs)) (omega arith) in
      let either = λ (b : Bool) (x y : Run (Written F)). if-Ends (Rest (suc (length cs))) b x y in
      let put = λ (f : Flags) (base : ℕ) (l : 2 ≤ base) (u : base ≤ 36).
        shorter (print_number f base cs k) (print_number-Rest f base cs k l u) in
      either (c == b'c') _ _ (shorter _ (print_char-Rest cs k)) (
        either (c == b's') _ _ (shorter _ (print_text-Rest cs k)) (
          either (c == b'p') _ _ (shorter _ (print_pointer-Rest cs k)) (
            either (c == b'A') _ _ (shorter _ (print_address-Rest true cs k)) (
              either (c == b'a') _ _ (shorter _ (print_address-Rest false cs k)) (
                either (c == b'o') _ _ (put _ 8 (omega arith) (omega arith)) (
                  either (c == b'X') _ _ (put _ 16 (omega arith) (omega arith)) (
                    either (c == b'x') _ _ (put _ 16 (omega arith) (omega arith)) (
                      either (c == b'd' || c == b'i') _ _ (put _ 10 (omega arith) (omega arith)) (
                        either (c == b'u') _ _ (put _ 10 (omega arith) (omega arith)) (
                          either (c == b'f') _ _ (shorter _ (print_double-Rest flt cs k))
                            (le_suc (length cs))))))))))))

  convert_one-Rest :
      (cs : List ℕ) (args : List (Argument F)) → Ends (Rest (length cs)) (convert_one flt cs args)
  unfolding convert_one Left
  convert_one-Rest cs args =
      let f = take_flags cs no_flags in
      let k : Conversion F = record {
        flags = f.0;
        field_width = minus_one;
        precision = minus_one;
        qualifier = 0;
        fmt = f.1;
        args = args;
      } in
      let n = length cs in
      bind-Ends (Left {F = F} n) (Rest n) (take_width f.1 k) _
        (wider (take_width f.1 k) (length f.1) n (take_flags-length cs no_flags)
          (take_width-Left f.1 k))
        (λ w l.
          bind-Ends (Left {F = F} n) (Rest n) (take_precision w.fmt w) _
            (take_precision-Left n w.fmt w l l)
            (λ p m.
              let q = take_qualifier p.fmt p in
              larger_bound (print_conversion flt q.fmt q) (length q.fmt) n
                (take_qualifier-Left n p.fmt p m m) (print_conversion-Rest q.fmt q)))

  format_round-Rest :
      (c : ℕ) (cs : List ℕ) (args : List (Argument F))
      → Ends (Rest (length cs)) (format_round flt c cs args)
  unfolding format_round Ends Rest
  format_round-Rest c cs args =
      if-Ends (Rest (length cs)) (c == b'%') _ _ (convert_one-Rest cs args) (le_refl (length cs))

  format_loop-Ends :
      (fuel : ℕ) (fmt : List ℕ) (args : List (Argument F))
      → length fmt ≤ fuel
      → Ends (λ out. Unit) (format_loop fuel flt fmt args)
  unfolding format_loop Ends Rest
  format_loop-Ends fuel [] args h = tt
  format_loop-Ends zero (c ∷ cs) args h = absurd (omega arith)
  format_loop-Ends (suc fuel) (c ∷ cs) args h =
      bind-Ends (Rest {F = F} (length cs)) (λ out. Unit) (format_round flt c cs args) _
        (format_round-Rest c cs args)
        (λ w l.
          bind-Ends (λ out. Unit) (λ out. Unit) (format_loop fuel flt w.fmt w.args) _
            (format_loop-Ends fuel w.fmt w.args (omega (arith, l))) (λ out u. tt))

  never : {A : Type 0} (P : A → Type 0) (r : Run A) → Ends P r → r ≢ out_of_fuel
  unfolding Ends
  never P r h e = subst (Ends P) e h

  -- Interpreting a format takes no more rounds than it has characters, whatever it holds and whatever the
  -- arguments are.
  pub ee_vsprintf-ends :
      (fmt : List ℕ) (args : List (Argument F)) → ee_vsprintf flt fmt args ≢ out_of_fuel
  unfolding ee_vsprintf
  ee_vsprintf-ends fmt args =
      never (λ out. Unit) (format_loop (length fmt) flt fmt args)
        (format_loop-Ends (length fmt) fmt args (le_refl (length fmt)))
