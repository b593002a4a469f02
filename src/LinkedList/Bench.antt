-- ===== src/LinkedList/Bench.antt =====
-- `core_bench_list` of sw/coremark/core_list_join.c. All the loops get the same number of rounds.
use zr_soc.Common.{
  ℕ, zero, suc, ◌+◌, ◌-◌, ◌*◌, ◌/◌, ◌^◌, bit_and, ◌==◌, not, ◌&&◌, if◌then◌else◌, true, u16,
  is_neg16,
}
use zr_soc.Crc.{crc16}
use zr_soc.LinkedList.{core_list_find, core_list_reverse, core_list_remove, core_list_undo_remove}
use zr_soc.LinkedList.Sort.{core_list_mergesort}
use zr_soc.LinkedList.Calc.{cmp_complex, cmp_idx}
use zr_soc.LinkedList.Store.{
  Ptr, null, Data, item, Cmd, pure, ◌>>=◌, ◌>>◌, out_of_rounds, get_head, set_next, get_data,
  get_res,
}

-- The variables of the search loop.
pub record Finding : Type 0 where
  pub list : Ptr
  pub info : Data
  pub retval : ℕ
  pub found : ℕ
  pub missed : ℕ

-- `p->info->data16`.
unfoldable pub data16_at : Ptr → Cmd ℕ
data16_at p = do h ← get_head p; d ← get_data h.info; pure d.data16

-- "cache next item at the head of the list (if any)".
unfoldable pub cache_next : (list this_find : Ptr) → Cmd (Unit {0})
cache_next list this_find = do
  t ← get_head this_find
  if t.next == null then pure tt else do
    f ← get_head t.next
    set_next this_find f.next
    l ← get_head list
    set_next t.next l.next
    set_next list t.next

-- The two branches on what the search returned; the list has been reversed.
unfoldable pub use_missed : Finding → Cmd Finding
use_missed s = do
  l ← get_head s.list
  d ← data16_at l.next
  pure (record s { missed = u16 (s.missed + 1); retval = u16 (s.retval + bit_and (d / 2 ^ 8) 1) })

unfoldable pub use_found : (this_find : Ptr) → Finding → Cmd Finding
use_found this_find s = do
  d ← data16_at this_find
  let retval = if bit_and d 1 == 1 then u16 (s.retval + bit_and (d / 2 ^ 9) 1) else s.retval
  cache_next s.list this_find
  pure (record s { found = u16 (s.found + 1); retval = retval })

-- `if (info.idx>=0) info.idx++;`
unfoldable pub next_info : Data → Data
next_info d = if is_neg16 d.idx then d else item d.data16 (u16 (d.idx + 1))

-- `for (i=0; i<find_num; i++)`, with `find_num - i` rounds left.
unfoldable pub find_loop : ℕ → (rounds i : ℕ) → Finding → Cmd Finding
find_loop zero rounds i s = pure s
find_loop (suc left) rounds i s = do
  let info = item (bit_and i 0xff) s.info.idx
  this_find ← core_list_find rounds s.list info
  list ← core_list_reverse rounds s.list
  s' ←
      (if this_find == null
        then use_missed (record s { list = list; info = info })
        else use_found this_find (record s { list = list; info = info }))
  find_loop left rounds (i + 1) (record s' { info = next_info s'.info })

-- `while (finder) { retval=crc16(list->info->data16,retval); finder=finder->next; }`
unfoldable pub crc_loop : ℕ → (list finder : Ptr) → (retval : ℕ) → Cmd ℕ
crc_loop zero list finder retval = out_of_rounds
crc_loop (suc fuel) list finder retval =
    if finder == null
    then pure retval
    else do d ← data16_at list; h ← get_head finder; crc_loop fuel list h.next (crc16 d retval)

-- `stale` is what `info.data16` holds before the first assignment.
unfoldable pub core_bench_list : (rounds : ℕ) → (finder_idx stale : ℕ) → Cmd ℕ
core_bench_list rounds finder_idx stale = do
  r ← get_res
  s ←
      find_loop (if is_neg16 r.seed3 then 0 else r.seed3) rounds 0
        (record { list = r.list; info = item stale finder_idx; retval = 0; found = 0; missed = 0 })
  let retval1 = u16 (s.retval + s.found * 4 + (2 ^ 16 - s.missed))
  list ←
      (if not (is_neg16 finder_idx) && not (finder_idx == 0)
        then core_list_mergesort rounds s.list cmp_complex
        else pure s.list)
  l ← get_head list
  remover ← core_list_remove l.next
  f ← core_list_find rounds list s.info
  l' ← get_head list
  retval2 ← crc_loop rounds list (if f == null then l'.next else f) retval1
  core_list_undo_remove remover l'.next
  sorted ← core_list_mergesort rounds list (cmp_idx true)
  h ← get_head sorted
  crc_loop rounds sorted h.next retval2
