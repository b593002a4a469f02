-- ===== src/Options/Limit.antt =====
-- The option `-c` of verilator/sim.cpp, from the command line to the end of `sys_thrd`.
use zr_soc.Common.{
  ℕ, ◌+◌, ◌^◌, ◌≤◌, ◌<◌, ◌≡◌, refl, ap, ◌∙◌, ◌≢◌, Bool, false, some, List, ◌∷◌, ◌++◌, All, Run, ok,
  fault, ◌>>=◌, Reaches, lt→ltb, le→ltb, ne→==, arith,
}
use zr_soc.Sim.{Design, Shared}
use zr_soc.Sim.Clock.{shift_one, system_loop, system_init}
use zr_soc.Sim.Timeout.{Finished, Polite, system_loop-timeout, slt32-positive}
use zr_soc.Options.{
  Text, Parsed, number, Settings, short_help, long_help, cycles_option, default_settings,
  cmd_option_exists, is_empty, take_dump, set_cycles, take_cycles, options, thread_argument,
}
use zr_soc.Options.Lookup.{
  get_cmd_option-append, cmd_option_exists-append, cmd_option_exists-absent,
}

-- No help is asked for.
abbrev pub Quiet : List Text → Type 0
Quiet tokens =
    (cmd_option_exists tokens short_help ≡ false) × (cmd_option_exists tokens long_help ≡ false)

take_dump-cycs_pow :
    (tokens : List Text) (s : Settings) → (take_dump tokens s).cycs_pow ≡ s.cycs_pow
unfolding take_dump
take_dump-cycs_pow tokens s = ground arith

set_cycles-number :
    (n : ℕ) (s : Settings)
    → 0 < n
    → n < 31
    → set_cycles (number n) s ≡ ok (record s { cycs_pow = n })
unfolding set_cycles shift_one
set_cycles-number n s p q = rw (slt32-positive n p (omega arith), lt→ltb n 31 q) refl

set_cycles-undefined :
    (n : ℕ) (s : Settings) → 32 ≤ n → n < 2 ^ 31 → set_cycles (number n) s ≡ fault
unfolding set_cycles shift_one
set_cycles-undefined n s p q =
    rw (slt32-positive n (omega arith) q, le→ltb n 31 (omega arith), ne→== n 31 (λ e. omega arith))
      refl

-- The token after `-c` is read as this number.
pub record Given (stoi : Text → Parsed) (tokens : List Text) (n : ℕ) : Type 0 where
  pub before : List Text
  pub value : Text
  pub behind : List Text
  pub split : tokens ≡ before ++ cycles_option ∷ value ∷ behind
  pub first : All (λ t. t ≢ cycles_option) before
  pub present : is_empty value ≡ false
  pub reads_as : stoi value ≡ number n
  pub quiet : Quiet tokens

take_cycles-Given :
    (stoi : Text → Parsed) (tokens : List Text) (n : ℕ) (s : Settings)
    → Given stoi tokens n
    → take_cycles stoi tokens s ≡ set_cycles (number n) s
unfolding take_cycles
take_cycles-Given stoi tokens n s g =
    let value = get_cmd_option-append g.before cycles_option g.value g.behind g.first in
    let found = cmd_option_exists-append g.before cycles_option (g.value ∷ g.behind) g.first in
    rw (g.split, found, value, g.present, g.reads_as) refl

options-Quiet :
    (stoi : Text → Parsed) (tokens : List Text)
    → Quiet tokens
    → options stoi tokens
      ≡ (take_cycles stoi tokens (take_dump tokens default_settings) >>= λ s. ok (some s))
unfolding options
options-Quiet stoi tokens q = rw (q.0, q.1) refl

-- `-c` with a number from 1 to 30 is the timeout: the loop of `sys_thrd`, run with the settings that
-- `main` takes from such a command line, ends within 2 to that number of rounds and one, whatever the
-- testbench and the other thread do.
pub options-timeout :
    {D : Type 0} (stoi : Text → Parsed) (tokens : List Text) (n : ℕ) (vm_trace : Bool)
    (v : Design D) (others : ℕ → Shared D → Shared D) (m : Shared D)
    → Given stoi tokens n
    → 0 < n
    → n < 31
    → Polite others
    → m.locked ≡ false
    → (s : Settings) × (options stoi tokens ≡ ok (some s))
      × Reaches
          (Finished v (thread_argument vm_trace s) (2 ^ n))
          (system_loop (2 ^ n + 1) v (thread_argument vm_trace s) others m system_init)
unfolding thread_argument
options-timeout stoi tokens n vm_trace v others m g p q o u =
    let s = record (take_dump tokens default_settings) { cycs_pow = n } in
    (
      s,
      (options-Quiet stoi tokens g.quiet
          ∙ ap (λ (r : Run Settings). r >>= λ t. ok (some t))
              (take_cycles-Given stoi tokens n _ g ∙ set_cycles-number n _ p q)),
      system_loop-timeout v (thread_argument vm_trace s) others m p q o u,
    )

-- Without `-c` the settings have the default of 17.
pub options-default :
    (stoi : Text → Parsed) (tokens : List Text)
    → Quiet tokens
    → All (λ t. t ≢ cycles_option) tokens
    → (s : Settings) × (options stoi tokens ≡ ok (some s)) × (s.cycs_pow ≡ 17)
unfolding take_cycles
options-default stoi tokens q n =
    let absent = cmd_option_exists-absent tokens cycles_option n in
    (
      take_dump tokens default_settings,
      options-Quiet stoi tokens q ∙ rw absent refl,
      take_dump-cycs_pow tokens default_settings,
    )

-- `-c` with a number from 32 on shifts by the width of `int` or more, which is undefined.
pub options-undefined :
    (stoi : Text → Parsed) (tokens : List Text) (n : ℕ)
    → Given stoi tokens n
    → 32 ≤ n
    → n < 2 ^ 31
    → options stoi tokens ≡ fault
options-undefined stoi tokens n g p q =
    options-Quiet stoi tokens g.quiet
    ∙ ap (λ (r : Run Settings). r >>= λ t. ok (some t))
        (take_cycles-Given stoi tokens n _ g ∙ set_cycles-undefined n _ p q)
