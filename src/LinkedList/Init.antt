-- ===== src/LinkedList/Init.antt =====
-- `core_list_init` of sw/coremark/core_list_join.c. The block holds cells of any content; the addresses
-- are those of a machine with pointers of 32 bits.
use zr_soc.Common.{
  ℕ, zero, suc, ◌+◌, ◌-◌, ◌*◌, ◌/◌, ◌^◌, bit_and, bit_or, bit_xor, ltb, ◌==◌, if◌then◌else◌, true,
  u16, u32, sext16,
}
use zr_soc.LinkedList.{Free, head_size, data_size, core_list_insert_new}
use zr_soc.LinkedList.Sort.{core_list_mergesort}
use zr_soc.LinkedList.Calc.{cmp_idx}
use zr_soc.LinkedList.Store.{
  Ptr, null, item, Cmd, pure, ◌>>=◌, ◌>>◌, out_of_rounds, get_head, set_next, set_info, get_data,
  set_data,
}

-- `size`, the number of items: the block over `16 + sizeof(list_data)`, less two, as an `ee_u32`.
unfoldable pub list_size : (blksize : ℕ) → ℕ
list_size blksize = u32 (blksize / (16 + data_size) + (2 ^ 32 - 2))

-- The data of item `i`.
unfoldable pub seed_data : (seed i : ℕ) → ℕ
seed_data seed i =
    let datpat = bit_and (u16 (bit_xor (sext16 seed) i)) 0xf in
    let dat = bit_or (datpat * 2 ^ 3) (bit_and i 0x7) in bit_or (dat * 2 ^ 8) dat

-- `for (i = 0; i < size; i++)`, with `size - i` rounds left.
unfoldable pub insert_loop :
    ℕ → (i seed : ℕ) → (list : Ptr) → Free → (memblock_end datablock_end : Ptr) → Cmd (Unit {0})
insert_loop zero i seed list f me de = pure tt
insert_loop (suc left) i seed list f me de = do
  (new, f') ← core_list_insert_new list (item (seed_data seed i) 0x7fff) f me de
  insert_loop left (i + 1) seed list f' me de

-- The index of an item, which is number `i` of the list.
unfoldable pub seed_idx : (size seed i : ℕ) → ℕ
seed_idx size seed i =
    if ltb i (size / 5)
    then u16 i
    else (let pat = u16 (bit_xor i (sext16 seed)) in
        bit_and 0x3fff (bit_or (bit_and (i + 1) 0x7 * 2 ^ 8) pat))

-- `a->idx = v;`
unfoldable pub set_idx : Ptr → ℕ → Cmd (Unit {0})
set_idx a v = do d ← get_data a; set_data a (item d.data16 v)

-- `while (finder->next != NULL)`.
unfoldable pub index_loop : ℕ → (size seed i : ℕ) → (finder : Ptr) → Cmd (Unit {0})
index_loop zero size seed i finder = out_of_rounds
index_loop (suc fuel) size seed i finder = do
  h ← get_head finder
  if h.next == null
      then pure tt
      else do set_idx h.info (seed_idx size seed i); index_loop fuel size seed (i + 1) h.next

-- The fake items of the head and of the tail, the items, their indices, and the sort.
unfoldable pub core_list_init :
    (rounds : ℕ) → (blksize : ℕ) → (memblock : Ptr) → (seed : ℕ) → Cmd Ptr
core_list_init rounds blksize memblock seed =
    let size = list_size blksize in
    let memblock_end = u32 (memblock + size * head_size) in
    let datablock = memblock_end in
    let datablock_end = u32 (datablock + size * data_size) in
    do
      set_next memblock null
      set_info memblock datablock
      set_data datablock (item 0x8080 0x0000)
      (tail, f) ←
          core_list_insert_new memblock (item 0xffff 0x7fff)
            (record { memblock = memblock + head_size; datablock = datablock + data_size })
            memblock_end datablock_end
      insert_loop size 0 seed memblock f memblock_end datablock_end
      h ← get_head memblock
      index_loop rounds size seed 1 h.next
      core_list_mergesort rounds memblock (cmp_idx true)
