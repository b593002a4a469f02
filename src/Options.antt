-- ===== src/Options.antt =====
-- The command line of the simulation driver, verilator/sim.cpp: the class `OptionsParser`, the options
-- of `main`, and the arguments of the threads. `std::stoi` is an argument.
pub mod Lookup
pub mod Limit
mod Examples
use zr_soc.Common.{
  ℕ, ◌==◌, slt32, if◌then◌else◌, Bool, true, false, not, ◌&&◌, ◌||◌, Option, none, some, List, [],
  ◌∷◌, Run, ok, ◌>>=◌,
}
use zr_soc.Sim.{ThArg}
use zr_soc.Sim.Clock.{shift_one}

-- The bytes of a string.
abbrev pub Text : Type 0
Text = List ℕ

unfoldable pub same : Text → Text → Bool
same [] [] = true
same [] (d ∷ ds) = false
same (c ∷ cs) [] = false
same (c ∷ cs) (d ∷ ds) = c == d && same cs ds

-- `for (int i=1; i < argc; ++i) tokens.push_back(argv[i]);`
unfoldable pub parse : (argv : List Text) → List Text
parse [] = []
parse (program ∷ arguments) = arguments

-- `std::find`: the tokens from the one found on, and none at the end.
unfoldable pub find : List Text → Text → List Text
find [] option = []
find (t ∷ ts) option = if same t option then t ∷ ts else find ts option

unfoldable pub second : List Text → Text
second [] = []
second (t ∷ []) = []
second (t ∷ (u ∷ us)) = u

unfoldable pub get_cmd_option : List Text → Text → Text
get_cmd_option tokens option = second (find tokens option)

unfoldable pub is_empty {ℓ} : {A : Type ℓ} → List A → Bool
is_empty [] = true
is_empty (x ∷ xs) = false

unfoldable pub cmd_option_exists : List Text → Text → Bool
cmd_option_exists tokens option = not (is_empty (find tokens option))

-- What `std::stoi` does: it returns an `int`, here its pattern, or throws.
pub data Parsed : Type 0 where
  number : ℕ → Parsed
  invalid_argument : Parsed
  out_of_range : Parsed

pub record Settings : Type 0 where
  pub cycs_pow : ℕ
  pub dump_on : Bool
  pub dump_path : Text

abbrev pub short_help : Text
short_help = b'-' ∷ b'h' ∷ []

abbrev pub long_help : Text
long_help = b'-' ∷ b'-' ∷ b'h' ∷ b'e' ∷ b'l' ∷ b'p' ∷ []

abbrev pub dump_option : Text
dump_option = b'-' ∷ b'd' ∷ []

abbrev pub cycles_option : Text
cycles_option = b'-' ∷ b'c' ∷ []

abbrev pub default_settings : Settings
default_settings = record { cycs_pow = 17; dump_on = false; dump_path = [] }

unfoldable pub take_dump : List Text → Settings → Settings
take_dump tokens s =
    if cmd_option_exists tokens dump_option
    then (let path = get_cmd_option tokens dump_option in
        record s { dump_path = path; dump_on = not (is_empty path) })
    else s

-- The message on the timeout computes `1<<cycs_pow`.
unfoldable pub set_cycles : Parsed → Settings → Run Settings
set_cycles (number n) s =
    if slt32 0 n
    then (shift_one n >>= λ limit. ok (record s { cycs_pow = n }))
    else ok (record s { cycs_pow = n })
set_cycles invalid_argument s = ok s
set_cycles out_of_range s = ok s

unfoldable pub take_cycles : (stoi : Text → Parsed) → List Text → Settings → Run Settings
take_cycles stoi tokens s =
    let value = get_cmd_option tokens cycles_option in
    if cmd_option_exists tokens cycles_option
    then (if is_empty value then ok s else set_cycles (stoi value) s)
    else ok s

-- The options of `main`; `none` is the return after the help message.
unfoldable pub options : (stoi : Text → Parsed) → List Text → Run (Option Settings)
options stoi tokens =
    if cmd_option_exists tokens short_help || cmd_option_exists tokens long_help
    then ok none
    else (take_cycles stoi tokens (take_dump tokens default_settings) >>= λ s. ok (some s))

-- `targs[i]`: the tracer is there when the build has it and the dump is on.
unfoldable pub thread_argument : (vm_trace : Bool) → Settings → ThArg
thread_argument vm_trace s = record {
  mutex = true;
  top = true;
  tfp = vm_trace && s.dump_on;
  max_cycs_pow = s.cycs_pow;
}
