-- ===== src/State/Examples.antt =====
-- Tests of the state machine benchmark, and its theorems at concrete blocks.
use zr_soc.Common.{ℕ, ◌≡◌, refl, inr, List, [], ◌∷◌, ◌++◌, replicate, arith, ok, Reaches}
use zr_soc.State.{
  start, s1, int, token, bump, next_state, scan, ee_isdigit, is_sign, core_state_transition,
}
use zr_soc.State.Scan.{Scanned, core_state_transition-Scanned}
use zr_soc.State.Grammar.{unsigned, IsFloat, IsScientific}
use zr_soc.State.Grammar.Sound.{Explained}
use zr_soc.State.Grammar.Classified.{core_state_transition-Classified}
use zr_soc.State.Bench.{
  codes, no_counts, core_init_state, core_bench_state, fill_loop, zero_loop, put_pattern,
  copy_pattern, write_at, choose, intpat, floatpat, scipat, errpat,
}
use zr_soc.State.Bench.Count.{Benched}
use zr_soc.State.Bench.Fill.{Initialised, core_init_state-Initialised}
use zr_soc.State.Bench.Whole.{core_init_state-core_bench_state}

-- A block of 20 bytes with the seed 0 has room for two patterns.
small_block : core_init_state 20 0 (replicate 20 1) ≡ ok (codes "5012,5012," ++ replicate 10 0)
unfolding core_init_state fill_loop zero_loop put_pattern copy_pattern write_at choose intpat
    floatpat scipat errpat
small_block = refl

abbrev minus_five : List ℕ
minus_five = codes "-5"

abbrev one_half : List ℕ
one_half = codes "1.5"

one_half-IsFloat : IsFloat one_half
one_half-IsFloat = record {
  sign = [];
  whole = b'1' ∷ [];
  fraction = b'5' ∷ [];
  sign_ok = unsigned;
  whole_ok = omega arith;
  fraction_ok = omega arith;
  shape = refl;
}

abbrev six_milli : List ℕ
six_milli = codes "1.5e-3"

six_milli-IsScientific : IsScientific six_milli
six_milli-IsScientific = record {
  mantissa = one_half;
  mark = b'e';
  sign = b'-';
  first = b'3';
  digits = [];
  mantissa_ok = one_half-IsFloat;
  mark_ok = inr refl;
  sign_ok = inr refl;
  first_ok = omega arith;
  digits_ok = tt;
  shape = refl;
}

abbrev after : List ℕ
after = b'7' ∷ 0 ∷ []

-- "-5,7" followed by a zero byte, as the machine leaves it.
minus_five_run :
    core_state_transition (minus_five ++ b',' ∷ after) no_counts
    ≡ ok (token int (bump s1 (bump start no_counts)) after)
unfolding core_state_transition scan next_state ee_isdigit is_sign
minus_five_run = refl

core_state_transition-Classified_example :
    Reaches
      (Explained (minus_five ++ b',' ∷ after) [])
      (core_state_transition (minus_five ++ b',' ∷ after) no_counts)
core_state_transition-Classified_example =
    core_state_transition-Classified no_counts b'-' (b'5' ∷ b',' ∷ after) tt (omega arith)

core_state_transition-Scanned_example :
    Scanned 4 (core_state_transition (b'-' ∷ b'5' ∷ b',' ∷ after) no_counts)
core_state_transition-Scanned_example =
    core_state_transition-Scanned no_counts b'-' (b'5' ∷ b',' ∷ after) tt (omega arith)

core_init_state-Initialised_example :
    Initialised 20 0 (9 ∷ []) (core_init_state 20 0 (replicate 20 1 ++ 9 ∷ []))
core_init_state-Initialised_example =
    core_init_state-Initialised 20 0 (replicate 20 1) (9 ∷ []) refl (omega arith) (omega arith)

core_init_state-core_bench_state_example :
    (mem : List ℕ) × (core_init_state 20 0 (replicate 20 1 ++ 9 ∷ []) ≡ ok mem)
    × Benched 20 0x3415 34 mem (core_bench_state 20 mem 0x3415 0x3415 34 0)
core_init_state-core_bench_state_example =
    core_init_state-core_bench_state 20 0 0x3415 0x3415 34 0 (replicate 20 1) (9 ∷ []) refl
      (omega arith) (omega arith) (omega arith) (omega arith) refl
