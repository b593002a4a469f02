-- ===== src/Options/Examples.antt =====
-- The theorems on the option `-c` at command lines with a value of one digit, and of two.
use zr_soc.Common.{
  ℕ, ◌+◌, ◌-◌, ◌*◌, ◌^◌, ◌≡◌, refl, ap, ◌≢◌, get_or, true, false, some, List, [], ◌∷◌, ok, fault,
  Reaches, arith,
}
use zr_soc.Sim.{Design, Shared}
use zr_soc.Sim.Clock.{system_loop, system_init}
use zr_soc.Sim.Timeout.{Finished}
use zr_soc.Options.{
  Text, Parsed, number, invalid_argument, Settings, cycles_option, dump_option, options,
  thread_argument, same, find, is_empty, cmd_option_exists,
}
use zr_soc.Options.Limit.{Given, options-timeout, options-undefined}

abbrev toy : Design ℕ
toy = record {
  evaluate = λ p d. d;
  tdo = λ d. 1;
  uart_rx_rdy = λ d. 1;
  uart_rx_err = λ d. 0;
  uart_rx_data = λ d. b'x';
  got_finish = λ d. false;
}

abbrev bench : Shared ℕ
bench = record {
  design = 0;
  pins = record { tck = 0; tms = 0; tdi = 0; trstn = 0; quit = 0; clk = 0; rst_n = 0 };
  locked = false;
  simtime = 0;
  dumps = [];
}

-- A number of one or two digits.
abbrev stoi : Text → Parsed
stoi [] = invalid_argument
stoi (c ∷ []) = number (c - b'0')
stoi (c ∷ (d ∷ ds)) = number ((c - b'0') * 10 + (d - b'0'))

abbrev three : List Text
three = dump_option ∷ (b'v' ∷ []) ∷ cycles_option ∷ (b'3' ∷ []) ∷ []

abbrev forty : List Text
forty = cycles_option ∷ (b'4' ∷ b'0' ∷ []) ∷ []

unequal : (t u : Text) (i : ℕ) → get_or t i 0 ≢ get_or u i 0 → t ≢ u
unequal t u i n e = n (ap (λ (x : Text). get_or x i 0) e)

three-Given : Given stoi three 3
unfolding cmd_option_exists find same is_empty
three-Given = record {
  before = dump_option ∷ (b'v' ∷ []) ∷ [];
  value = b'3' ∷ [];
  behind = [];
  split = refl;
  first =
      (unequal _ _ 1 (λ z. absurd (omega arith)), (unequal _ _ 0 (λ z. absurd (omega arith)), tt));
  present = refl;
  reads_as = refl;
  quiet = (refl, refl);
}

forty-Given : Given stoi forty 40
unfolding cmd_option_exists find same is_empty
forty-Given = record {
  before = [];
  value = b'4' ∷ b'0' ∷ [];
  behind = [];
  split = refl;
  first = tt;
  present = refl;
  reads_as = refl;
  quiet = (refl, refl);
}

options-timeout_example :
    (s : Settings) × (options stoi three ≡ ok (some s))
    × Reaches
        (Finished toy (thread_argument true s) (2 ^ 3))
        (system_loop (2 ^ 3 + 1) toy (thread_argument true s) (λ i m. m) bench system_init)
options-timeout_example =
    options-timeout stoi three 3 true toy (λ i m. m) bench three-Given (omega arith) (omega arith)
      (λ i m u. u) refl

options-undefined_example : options stoi forty ≡ fault
options-undefined_example = options-undefined stoi forty 40 forty-Given (omega arith) (omega arith)
