-- ===== src/Main/Examples.antt =====
-- Tests of the main program of the benchmark, and its theorems at the 2K performance run.
use zr_soc.Common.{
  ℕ, ◌+◌, ◌*◌, ◌≡◌, ◌≢◌, ◌↔◌, refl, true, false, [], ◌∷◌, some, ok, arith, replicate, Reaches,
}
use zr_soc.Crc.{crc16, crcu16, crcu8}
use zr_soc.Crc.Message.{crc_words}
use zr_soc.LinkedList.Store.{Results}
use zr_soc.Main.{
  executes, count_algorithms, assign_pointers, split_memory, seed_crc, known_run, Sizes,
  total_errors, judged_errors, check_data_types, size_error,
}
use zr_soc.Main.Setup.{MatrixBlock}
use zr_soc.Main.Timing.{perform, set_iterations, search_iterations, scale_iterations, timed}
use zr_soc.Main.Timing.Enough.{Steady, Performed, perform-Performed}
use zr_soc.Timer.{Timer, start_time, stop_time, barebones_clock, get_time, time_in_secs}
use zr_soc.Main.Split.{IsSplit, split_memory-IsSplit}
use zr_soc.Main.Verdict.{Reported, total_errors_iff}

-- 2000 bytes for all three algorithms.
three_blocks : split_memory 7 4096 2000 ≡ ok (666, some 4096 ∷ some 4762 ∷ some 5428 ∷ [])
unfolding split_memory assign_pointers count_algorithms executes
three_blocks = refl

two_algorithms : count_algorithms 3 0 5 ≢ 0
unfolding count_algorithms executes
two_algorithms e = omega (arith, e)

split_memory-IsSplit_example : IsSplit 5 4096 2000 (split_memory 5 4096 2000)
split_memory-IsSplit_example = split_memory-IsSplit 5 4096 2000 two_algorithms (omega arith)

abbrev performance : Results
performance = record {
  seed1 = 0;
  seed2 = 0;
  seed3 = 0x66;
  memblock3 = [];
  size = 666;
  iterations = 1;
  execs = 7;
  list = 8;
  mat = record { N = 0; A = []; B = []; C = [] };
  crc = 0;
  crclist = 0xe714;
  crcmatrix = 0x1fd7;
  crcstate = 0x8e3a;
  err = 0;
}

abbrev sizes : Sizes
sizes = record {
  ee_u8 = 1;
  ee_u16 = 2;
  ee_s16 = 2;
  ee_s32 = 4;
  ee_u32 = 4;
  ee_ptr_int = 4;
  int_pointer = 4;
}

-- The seeds are those of the known run 3.
known_seeds : known_run (seed_crc performance) ≡ some 3
unfolding known_run seed_crc crc_words crc16 crcu16 crcu8
known_seeds = refl

total_errors_iff_example :
    (total_errors performance sizes false ≡ 0)
    ↔ Reported performance sizes false (known_run (seed_crc performance))
total_errors_iff_example = total_errors_iff performance sizes false

abbrev unknown : Results
unknown = record performance { seed3 = 5 }

-- With seeds that are not known, a run that was too short makes up for the mark of unknown seeds.
short_run : total_errors unknown sizes true ≡ 0
unfolding total_errors judged_errors known_run seed_crc crc_words crc16 crcu16 crcu8
    check_data_types size_error
short_run = refl

-- The seeds of the validation run, with blocks of 32 bytes.
abbrev validation : Results
validation = record performance {
  seed1 = 0x3415;
  seed2 = 0x3415;
  size = 32;
  memblock3 = replicate 32 0;
}

abbrev matrix_block : MatrixBlock
matrix_block = record { memblk = 4762; A = replicate 4 0; B = replicate 4 0; C = replicate 4 0 }

-- 400000 cycles for each iteration, and 2000 more.
abbrev slow : ℕ → ℕ
slow n = 400000 * n + 2000

slow-Steady : Steady 400000 2000 slow
slow-Steady = record { at_least = λ n. omega arith; at_most = λ n. omega arith }

abbrev stopped : Timer
stopped = record { start_time_val = 0; stop_time_val = 0 }

-- The search ends with 1000 iterations, which take 4 seconds.
slow_run : perform 9 (λ n. 0) slow 0 stopped ≡ ok (3000, 1200002000)
unfolding perform set_iterations search_iterations scale_iterations timed start_time stop_time
    barebones_clock get_time time_in_secs
slow_run = refl

perform-Performed_example : Reaches (Performed slow) (perform 9 (λ n. 0) slow 0 stopped)
perform-Performed_example =
    perform-Performed 400000 2000 (λ n. 0) slow slow-Steady (omega arith) (omega arith) 9 stopped
      (omega arith) (omega arith)
