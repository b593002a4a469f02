-- ===== src/LinkedList/Sort.antt =====
-- `core_list_mergesort` of sw/coremark/core_list_join.c: runs of one length are merged in place, and the
-- length is doubled until one merge is left.
pub mod Tail
pub mod Step
pub mod Next
pub mod Merge
use zr_soc.Common.{
  ℕ, zero, suc, ◌+◌, ◌-◌, ◌*◌, ltb, leb, ◌==◌, not, if◌then◌else◌, Bool, ◌&&◌, ◌||◌, is_neg32,
}
use zr_soc.LinkedList.Store.{Ptr, null, Cmd, pure, ◌>>=◌, ◌>>◌, out_of_rounds, get_head, set_next}

-- A comparison of two data cells, which may change them; its result is an `ee_s32` pattern.
abbrev pub Cmp : Type 0
Cmp = (a b : Ptr) → Cmd ℕ

-- `c <= 0`.
unfoldable pub not_above : ℕ → Bool
not_above c = is_neg32 c || c == 0

-- `for (i = 0; i < insize; i++) { psize++; q = q->next; if (!q) break; }`, with `insize - i` rounds left.
unfoldable pub step_along : ℕ → (psize : ℕ) → (q : Ptr) → Cmd (ℕ × Ptr)
step_along zero psize q = pure (psize, q)
step_along (suc left) psize q = do
  h ← get_head q
  if h.next == null then pure (psize + 1, null) else step_along left (psize + 1) h.next

-- The variables of a merge.
pub record Merging : Type 0 where
  pub p : Ptr
  pub q : Ptr
  pub psize : ℕ
  pub qsize : ℕ
  pub list : Ptr
  pub tail : Ptr

-- `e = p; p = p->next; psize--;`
unfoldable pub take_p : Merging → Cmd (Ptr × Merging)
take_p s = do h ← get_head s.p; pure (s.p, record s { p = h.next; psize = s.psize - 1 })

-- `e = q; q = q->next; qsize--;`
unfoldable pub take_q : Merging → Cmd (Ptr × Merging)
take_q s = do h ← get_head s.q; pure (s.q, record s { q = h.next; qsize = s.qsize - 1 })

-- The next element of the merge.
unfoldable pub take_next : Cmp → Merging → Cmd (Ptr × Merging)
take_next cmp s =
    if s.psize == 0 then take_q s else if s.qsize == 0 || s.q == null then take_p s else do
      hp ← get_head s.p
      hq ← get_head s.q
      c ← cmp hp.info hq.info
      if not_above c then take_p s else take_q s

-- `if (tail) tail->next = e; else list = e; tail = e;`
unfoldable pub append_cell : Ptr → Merging → Cmd Merging
append_cell e s =
    if s.tail == null
    then pure (record s { list = e; tail = e })
    else do set_next s.tail e; pure (record s { tail = e })

-- `while (psize > 0 || (qsize > 0 && q))`.
unfoldable pub merge_loop : ℕ → Cmp → Merging → Cmd Merging
merge_loop zero cmp s = out_of_rounds
merge_loop (suc fuel) cmp s =
    if ltb 0 s.psize || (ltb 0 s.qsize && not (s.q == null))
    then (do (e, s') ← take_next cmp s; s'' ← append_cell e s'; merge_loop fuel cmp s'')
    else pure s

-- The variables of a pass.
pub record Pass : Type 0 where
  pub p : Ptr
  pub list : Ptr
  pub tail : Ptr
  pub nmerges : ℕ

-- `while (p)`.
unfoldable pub pass_loop : ℕ → Cmp → (insize : ℕ) → Pass → Cmd Pass
pass_loop zero cmp insize s = out_of_rounds
pass_loop (suc fuel) cmp insize s = if s.p == null then pure s else do
  (psize, q) ← step_along insize 0 s.p
  m ←
      merge_loop (insize + insize + 1) cmp
        (record { p = s.p; q = q; psize = psize; qsize = insize; list = s.list; tail = s.tail })
  pass_loop fuel cmp insize
      (record { p = m.q; list = m.list; tail = m.tail; nmerges = s.nmerges + 1 })

-- `while (1)`: a pass, the end of the list, and the next length. The same number of rounds serves for
-- the passes and for the merges of one pass.
unfoldable pub sort_loop : (fuel rounds : ℕ) → Cmp → (insize : ℕ) → Ptr → Cmd Ptr
sort_loop zero rounds cmp insize list = out_of_rounds
sort_loop (suc fuel) rounds cmp insize list = do
  s ← pass_loop rounds cmp insize (record { p = list; list = null; tail = null; nmerges = 0 })
  set_next s.tail null
  if leb s.nmerges 1 then pure s.list else sort_loop fuel rounds cmp (insize * 2) s.list

unfoldable pub core_list_mergesort : (rounds : ℕ) → Ptr → Cmp → Cmd Ptr
core_list_mergesort rounds list cmp = sort_loop rounds rounds cmp 1 list
