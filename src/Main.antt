-- ===== src/Main.antt =====
-- The main program of the benchmark, sw/coremark/core_main.c, with one context (MULTITHREAD is 1): the
-- seeds, the division of the memory, the iterations, and the judgement of the checksums.
pub mod Setup
pub mod Split
pub mod Timing
pub mod Verdict
mod Examples
use zr_soc.Common.{
  ℕ, zero, suc, ◌+◌, ◌*◌, ◌/◌, ◌%◌, ◌^◌, bit_and, ◌==◌, not, ◌&&◌, if◌then◌else◌, Bool, true, false,
  List, [], ◌∷◌, Option, some, none, Run, ok, fault, get_or, u16, u32, length,
}
use zr_soc.Crc.{crcu16}
use zr_soc.Crc.Message.{crc_words}
use zr_soc.LinkedList.Bench.{core_bench_list}
use zr_soc.LinkedList.Store.{Ptr, Memory, Results, Cmd, pure, ◌>>=◌, ◌>>◌, get_res, put_res}

-- One pass of the loop of `iterate`: the list benchmark with the index 1 and with the index -1. What the
-- two calls find in `info.data16` is `stale`.
unfoldable pub iteration : (rounds i : ℕ) → (stale : ℕ × ℕ) → Cmd (Unit {0})
iteration rounds i stale = do
  crc1 ← core_bench_list rounds 1 stale.0
  r1 ← get_res
  put_res (record r1 { crc = crcu16 crc1 r1.crc })
  crc2 ← core_bench_list rounds 0xffff stale.1
  r2 ← get_res
  let crc = crcu16 crc2 r2.crc
  put_res (record r2 { crc = crc; crclist = if i == 0 then crc else r2.crclist })

-- `for (i=0; i<iterations; i++)`, with `iterations - i` rounds left.
unfoldable pub iterate_loop : ℕ → (rounds i : ℕ) → (stale : ℕ → ℕ × ℕ) → Cmd (Unit {0})
iterate_loop zero rounds i stale = pure tt
iterate_loop (suc left) rounds i stale = do
  iteration rounds i (stale i)
  iterate_loop left rounds (i + 1) stale

unfoldable pub iterate : (rounds : ℕ) → (stale : ℕ → ℕ × ℕ) → Cmd (Unit {0})
iterate rounds stale = do
  r ← get_res
  put_res (record r { crc = 0; crclist = 0; crcmatrix = 0; crcstate = 0 })
  iterate_loop r.iterations rounds 0 stale

-- All algorithms if none is asked for, and the seeds that stand for the two standard runs.
unfoldable pub set_defaults : Results → Results
set_defaults r =
    let r1 = record r { execs = if r.execs == 0 then 7 else r.execs } in
    let r2 =
      if (r1.seed1 == 0) && (r1.seed2 == 0) && (r1.seed3 == 0)
      then record r1 { seed1 = 0; seed2 = 0; seed3 = 0x66 }
      else r1 in
    if (r2.seed1 == 1) && (r2.seed2 == 0) && (r2.seed3 == 0)
    then record r2 { seed1 = 0x3415; seed2 = 0x3415; seed3 = 0x66 }
    else r2

-- `(1<<(ee_u32)i) & execs`.
unfoldable pub executes : (execs i : ℕ) → Bool
executes execs i = not (bit_and (2 ^ i) execs == 0)

-- `num_algorithms`, with `left` algorithms from `i` on still to be looked at.
unfoldable pub count_algorithms : (left i execs : ℕ) → ℕ
count_algorithms zero i execs = 0
count_algorithms (suc left) i execs =
    let rest = count_algorithms left (i + 1) execs in if executes execs i then suc rest else rest

-- "Assign pointers": `memblock[i+1]` for each algorithm, where `j` of them have been served.
unfoldable pub assign_pointers : (left i j execs : ℕ) → (base size : ℕ) → List (Option Ptr)
assign_pointers zero i j execs base size = []
assign_pointers (suc left) i j execs base size =
    if executes execs i
    then some (u32 (base + u32 (size * j))) ∷ assign_pointers left (i + 1) (j + 1) execs base size
    else none ∷ assign_pointers left (i + 1) j execs base size

-- The size of each block and the blocks of the three algorithms; a division by zero is a fault.
unfoldable pub split_memory : (execs base total : ℕ) → Run (ℕ × List (Option Ptr))
split_memory execs base total =
    let n = count_algorithms 3 0 execs in
    if n == 0 then fault else ok (total / n, assign_pointers 3 0 0 execs base (total / n))

-- The tables of the checksums of the runs with known seeds.
unfoldable pub list_known_crc : List ℕ
list_known_crc = 0xd4b0 ∷ 0x3340 ∷ 0x6a79 ∷ 0xe714 ∷ 0xe3c1 ∷ []

unfoldable pub matrix_known_crc : List ℕ
matrix_known_crc = 0xbe52 ∷ 0x1199 ∷ 0x5608 ∷ 0x1fd7 ∷ 0x0747 ∷ []

unfoldable pub state_known_crc : List ℕ
state_known_crc = 0x5e47 ∷ 0x39bf ∷ 0xe5a4 ∷ 0x8e3a ∷ 0x8d84 ∷ []

unfoldable pub seed_crc : Results → ℕ
seed_crc r = crc_words (r.seed1 ∷ r.seed2 ∷ r.seed3 ∷ u16 r.size ∷ []) 0

-- The `switch` on `seedcrc`.
unfoldable pub known_run : (seedcrc : ℕ) → Option ℕ
known_run seedcrc =
    if seedcrc == 0x8a02
    then some 0
    else if seedcrc == 0x7b05
    then some 1
    else if seedcrc == 0x4eaf
    then some 2
    else if seedcrc == 0xe9f5
    then some 3
    else if seedcrc == 0x18f2
    then some 4
    else none

-- One of the three comparisons.
unfoldable pub crc_error : (execs i crc known : ℕ) → ℕ
crc_error execs i crc known = if executes execs i && not (crc == known) then 1 else 0

-- `results[0].err` for a run with known checksums.
unfoldable pub judge : Results → (known_id : ℕ) → ℕ
judge r id =
    crc_error r.execs 0 r.crclist (get_or list_known_crc id 0)
    + crc_error r.execs 1 r.crcmatrix (get_or matrix_known_crc id 0)
    + crc_error r.execs 2 r.crcstate (get_or state_known_crc id 0)

-- `sizeof` of the types of core_portme.h, and of a pointer to `int`.
pub record Sizes : Type 0 where
  pub ee_u8 : ℕ
  pub ee_u16 : ℕ
  pub ee_s16 : ℕ
  pub ee_s32 : ℕ
  pub ee_u32 : ℕ
  pub ee_ptr_int : ℕ
  pub int_pointer : ℕ

unfoldable pub size_error : (found wanted : ℕ) → ℕ
size_error found wanted = if found == wanted then 0 else 1

unfoldable pub check_data_types : Sizes → ℕ
check_data_types s =
    size_error s.ee_u8 1
    + size_error s.ee_u16 2
    + size_error s.ee_s16 2
    + size_error s.ee_s32 4
    + size_error s.ee_u32 4
    + size_error s.ee_ptr_int s.int_pointer

-- `total_errors` behind the comparison of the checksums: -1 for seeds that are not known.
unfoldable pub judged_errors : Results → (known_id : Option ℕ) → ℕ
judged_errors r none = 0xffff
judged_errors r (some id) = judge r id

-- `total_errors` as an `ee_s16` pattern, with the errors of `check_data_types` and with one for a run of
-- less than ten seconds.
unfoldable pub total_errors : Results → Sizes → (too_short : Bool) → ℕ
total_errors r sizes too_short = u16 (
    judged_errors r (known_run (seed_crc r))
    + check_data_types sizes
    + (if too_short then 1 else 0))
