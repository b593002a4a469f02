-- ===== src/LinkedList/Examples.antt =====
-- The theorems of the linked list benchmark at a list of three cells.
use zr_soc.Common.{
  inl, ℕ, false, false, ok, ◌≡◌, zero, suc, refl, ◌==◌, if◌then◌else◌, List, [], ◌∷◌, get_or, arith,
  Option, some, none, bit_xor-zero, sym, ◌∙◌,
}
use zr_soc.Matrix.{MatParams}
use zr_soc.Matrix.Test.{IsS16}
use zr_soc.LinkedList.{Free, core_list_find, core_list_reverse}
use zr_soc.LinkedList.Store.{Ptr, Head, head, Data, item, Memory, Results}
use zr_soc.LinkedList.Chain.{Cell, Linked, Distinct}
use zr_soc.LinkedList.Relink.{Relinked, core_list_reverse-Relinked}
use zr_soc.LinkedList.Search.{Holds, Found, core_list_find-Found}
use zr_soc.LinkedList.Removal.{Removed, core_list_remove-Removed}
use zr_soc.LinkedList.Insert.{Inserted, core_list_insert_new-Inserted}
use zr_soc.LinkedList.Bench.{crc_loop}
use zr_soc.LinkedList.Checksum.{crc_repeat, crc_loop-crc_repeat}
use zr_soc.LinkedList.Calc.{cmp_idx, difference}
use zr_soc.LinkedList.Sort.{Merging, merge_loop}
use zr_soc.LinkedList.Sort.Tail.{nothing}
use zr_soc.LinkedList.Sort.Step.{Mid}
use zr_soc.LinkedList.Sort.Next.{cmp_idx-Compares}
use zr_soc.LinkedList.Sort.Merge.{MergedTo, merge_loop-MergedTo}
use zr_soc.LinkedList.Cached.{Calculated, calc_func-Calculated}
use zr_soc.LinkedList.Switch.{Ready}

abbrev mats : MatParams
mats = record { N = 1; A = 2 ∷ []; B = 3 ∷ []; C = 0 ∷ [] }

abbrev results : Results
results = record {
  seed1 = 0;
  seed2 = 0;
  seed3 = 0x66;
  memblock3 = b'1' ∷ b',' ∷ 0 ∷ 0 ∷ [];
  size = 4;
  iterations = 1;
  execs = 7;
  list = 8;
  mat = mats;
  crc = 0;
  crclist = 0;
  crcmatrix = 0;
  crcstate = 0;
  err = 0;
}

-- Three linked cells, a free one, and their data.
abbrev heads : Ptr → Option Head
heads p =
    if p == 8
    then some (head 16 100)
    else if p == 16
    then some (head 24 104)
    else if p == 24
    then some (head 0 108)
    else if p == 32
    then some (head 0 0)
    else none

abbrev data_at : Ptr → Data
data_at p =
    if p == 100
    then item 0x8080 0
    else if p == 104
    then item 0x0002 1
    else if p == 108
    then item 0x0008 2
    else item 0 0

abbrev memory : Memory
memory = record { heads = heads; datas = λ p. some (data_at p); res = results }

abbrev c1 : Cell
c1 = record { at = 8; info = 100 }

abbrev c2 : Cell
c2 = record { at = 16; info = 104 }

abbrev c3 : Cell
c3 = record { at = 24; info = 108 }

abbrev cells : List Cell
cells = c1 ∷ c2 ∷ c3 ∷ []

cells-Linked : Linked heads cells 0
cells-Linked =
    (λ e. omega (arith, e), refl, (λ e. omega (arith, e), refl, (λ e. omega (arith, e), refl, tt)))

cells-Distinct : Distinct cells
cells-Distinct =
    ((λ e. omega (arith, e), (λ e. omega (arith, e), tt)), ((λ e. omega (arith, e), tt), (tt, tt)))

cells-Holds : Holds memory data_at cells
cells-Holds = (
  (λ e. omega (arith, e), refl),
  ((λ e. omega (arith, e), refl), ((λ e. omega (arith, e), refl), tt)),
)

core_list_reverse-Relinked_example :
    Relinked memory (c3 ∷ c2 ∷ c1 ∷ []) cells (core_list_reverse 4 8 memory)
core_list_reverse-Relinked_example =
    core_list_reverse-Relinked 4 memory cells (omega arith) cells-Linked cells-Distinct

core_list_find-Found_example :
    Found memory (item 0 2) data_at cells (core_list_find 4 8 (item 0 2) memory)
core_list_find-Found_example =
    core_list_find-Found 4 memory (item 0 2) data_at cells (omega arith) cells-Linked cells-Holds

core_list_remove-Removed_example : Removed memory c1 c2 (c3 ∷ []) 0
core_list_remove-Removed_example =
    core_list_remove-Removed memory c1 c2 (c3 ∷ []) 0 cells-Linked cells-Distinct

abbrev free : Free
free = record { memblock = 32; datablock = 112 }

core_list_insert_new-Inserted_example : Inserted memory c1 (c2 ∷ c3 ∷ []) 0 (item 5 7) free 100 200
core_list_insert_new-Inserted_example =
    core_list_insert_new-Inserted memory c1 (c2 ∷ c3 ∷ []) 0 (item 5 7) free 100 200 (head 0 0)
      (item 0 0) (omega arith, omega arith) cells-Linked cells-Distinct (λ e. omega (arith, e)) refl
      (λ e. omega (arith, e), (λ e. omega (arith, e), (λ e. omega (arith, e), tt)))
      (λ e. omega (arith, e)) refl

mats-IsS16 : IsS16 (2 ∷ [])
mats-IsS16 zero h = omega arith
mats-IsS16 (suc m) h = absurd (omega arith)

results-Ready : Ready results
results-Ready = record {
  block = record { room = omega arith; fits = omega arith; last = refl; before_last = refl };
  seeds = refl;
  survives = λ j ne e. ne (sym (bit_xor-zero (get_or results.memblock3 j 0)) ∙ e);
  small = omega arith;
  fits_A = omega arith;
  fits_B = omega arith;
  fits_C = omega arith;
  words = mats-IsS16;
}

calc_func-Calculated_example : Calculated memory 108 (item 0x0008 2)
calc_func-Calculated_example =
    calc_func-Calculated memory 108 (item 0x0008 2) (λ e. omega (arith, e)) refl results-Ready

crc_loop-crc_repeat_example : crc_loop 4 8 16 7 memory ≡ ok (crc_repeat 2 0x8080 7, memory)
crc_loop-crc_repeat_example =
    crc_loop-crc_repeat 4 memory 8 (head 16 100) (item 0x8080 0) (c2 ∷ c3 ∷ []) 7 (omega arith)
      (λ e. omega (arith, e)) refl (λ e. omega (arith, e)) refl cells-Linked.2

-- The start of the first merge of a sort.
abbrev merging : Merging
merging = record { p = 8; q = 16; psize = 1; qsize = 1; list = 0; tail = 0 }

merging-Mid : Mid heads [] (c1 ∷ []) (c2 ∷ []) (c3 ∷ []) merging
merging-Mid = record {
  stop = 16;
  p_at = refl;
  q_at = refl;
  p_size = refl;
  q_size = inl refl;
  p_run = (cells-Linked.0, refl, tt);
  q_run = cells-Linked.2;
  built = nothing;
  p_new = (tt, tt);
  q_new = (tt, (tt, tt));
  p_distinct = (tt, tt);
  q_distinct = cells-Distinct.1;
  apart = (cells-Distinct.0, tt);
}

abbrev by_idx : Ptr → Ptr → ℕ
by_idx a b = difference (data_at a).idx (data_at b).idx

merge_loop-MergedTo_example :
    MergedTo by_idx memory heads []
      (c1 ∷ [])
      (c2 ∷ [])
      (c3 ∷ [])
      (merge_loop 3 (cmp_idx false) merging memory)
merge_loop-MergedTo_example =
    merge_loop-MergedTo memory data_at (cmp_idx false) by_idx (cmp_idx-Compares memory data_at) 3
      heads [] (c1 ∷ []) (c2 ∷ []) (c3 ∷ []) merging merging-Mid (cells-Holds.0, tt)
      (cells-Holds.1.0, tt) (omega arith)
