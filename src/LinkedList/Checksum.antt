-- ===== src/LinkedList/Checksum.antt =====
-- The loops of `core_bench_list` of sw/coremark/core_list_join.c that fold a list into the checksum, and
-- the room that `core_list_init` gives to the list.
use zr_soc.Common.{
  ℕ, zero, suc, ◌+◌, ◌*◌, ◌^◌, ◌<◌, ◌≤◌, ◌≡◌, refl, ◌≢◌, some, List, [], ◌∷◌, length, ok, ne→==,
  arith,
}
use zr_soc.Crc.{crc16}
use zr_soc.LinkedList.{head_size, data_size}
use zr_soc.LinkedList.Store.{Ptr, null, Head, head, Data, Memory}
use zr_soc.LinkedList.Chain.{Cell, first, Linked, get_head-ok, get_data-ok}
use zr_soc.LinkedList.Bench.{data16_at, crc_loop}
use zr_soc.LinkedList.Init.{list_size}

-- The checksum with one word folded in `n` times.
unfoldable pub crc_repeat : ℕ → (word crc : ℕ) → ℕ
crc_repeat zero word crc = crc
crc_repeat (suc n) word crc = crc_repeat n word (crc16 word crc)

data16_at-ok :
    (m : Memory) (p : Ptr) (h : Head) (d : Data)
    → p ≢ null
    → m.heads p ≡ some h
    → h.info ≢ null
    → m.datas h.info ≡ some d
    → data16_at p m ≡ ok (d.data16, m)
unfolding data16_at
data16_at-ok m p h d nn e nd ed =
    rw (get_head-ok m p h nn e) (rw (get_data-ok m h.info d nd ed) refl)

-- From any item on, with more rounds than cells are left, the loop folds in the data of the head of the
-- list once for each cell that is left: the data of these cells do not matter. The memory is not written.
pub crc_loop-crc_repeat :
    (fuel : ℕ) (m : Memory) (list : Ptr) (h : Head) (d : Data) (cells : List Cell) (retval : ℕ)
    → length cells < fuel
    → list ≢ null
    → m.heads list ≡ some h
    → h.info ≢ null
    → m.datas h.info ≡ some d
    → Linked m.heads cells null
    → crc_loop fuel list (first cells null) retval m
      ≡ ok (crc_repeat (length cells) d.data16 retval, m)
unfolding crc_loop crc_repeat
crc_loop-crc_repeat zero m list h d cells retval f nl el nd ed l = absurd (omega arith)
crc_loop-crc_repeat (suc fuel) m list h d [] retval f nl el nd ed l = refl
crc_loop-crc_repeat (suc fuel) m list h d (c ∷ cs) retval f nl el nd ed (nn, e, l) =
    rw (ne→== c.at null nn) (
      rw (data16_at-ok m list h d nl el nd ed) (
        rw (get_head-ok m c.at (head (first cs null) c.info) nn e) (
          crc_loop-crc_repeat fuel m list h d cs (crc16 d.data16 retval) (omega arith) nl el nd ed
            l)))

-- For a block of at least forty bytes, the list cells and the data cells of `size` items together are
-- no longer than the block, and the block is shorter than three items more at twenty bytes each.
pub list_size-fits :
    (blksize : ℕ)
    → 40 ≤ blksize
    → blksize < 2 ^ 32
    → (list_size blksize * head_size + list_size blksize * data_size ≤ blksize)
      × (blksize < (list_size blksize + 3) * 20)
unfolding list_size
list_size-fits blksize h k = (omega arith, omega arith)
