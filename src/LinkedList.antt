-- ===== src/LinkedList.antt =====
-- The linked list benchmark, sw/coremark/core_list_join.c, with the structures of
-- sw/coremark/coremark.h: the operations that search and relink the list. A loop that follows the list
-- gets a number of rounds, which its theorems ask to be above the length of the list.
mod Examples
pub mod Store
pub mod Chain
pub mod Sort
pub mod Bench
pub mod Checksum
pub mod Relink
pub mod Search
pub mod Removal
pub mod Insert
pub mod Calc
pub mod Digits
pub mod Cached
pub mod Switch
pub mod Init
use zr_soc.Common.{
  ℕ, zero, suc, ◌+◌, ◌^◌, bit_and, leb, ◌==◌, not, if◌then◌else◌, Bool, true, false, is_neg16,
  sext16,
}
use Store.{
  Ptr, null, Head, head, Data, item, Memory, Cmd, pure, ◌>>=◌, ◌>>◌, out_of_rounds, get_head,
  set_next, set_info, get_data, set_data,
}

-- The condition under which `core_list_find` goes on at an item: by index if the one that is looked for
-- is not negative, else by the low byte of the data.
unfoldable pub differs : (wanted found : Data) → Bool
differs wanted found =
    if is_neg16 wanted.idx
    then not (bit_and (sext16 found.data16) 0xff == sext16 wanted.data16)
    else not (found.idx == wanted.idx)

unfoldable pub core_list_find : ℕ → Ptr → Data → Cmd Ptr
core_list_find zero list info = out_of_rounds
core_list_find (suc fuel) list info = if list == null then pure null else do
  h ← get_head list
  d ← get_data h.info
  if differs info d then core_list_find fuel h.next info else pure list

-- `while (list) { tmp = list->next; list->next = next; next = list; list = tmp; } return next;`
unfoldable pub reverse_loop : ℕ → (list next : Ptr) → Cmd Ptr
reverse_loop zero list next = out_of_rounds
reverse_loop (suc fuel) list next =
    if list == null
    then pure next
    else do h ← get_head list; set_next list next; reverse_loop fuel h.next list

unfoldable pub core_list_reverse : ℕ → Ptr → Cmd Ptr
core_list_reverse fuel list = reverse_loop fuel list null

-- The item keeps its cell and takes the data of the next one, whose cell is unlinked.
unfoldable pub core_list_remove : Ptr → Cmd Ptr
core_list_remove at = do
  h ← get_head at
  r ← get_head h.next
  set_info at r.info
  set_info h.next h.info
  i ← get_head at
  n ← get_head i.next
  set_next at n.next
  set_next h.next null
  pure h.next

unfoldable pub core_list_undo_remove : (item_removed item_modified : Ptr) → Cmd Ptr
core_list_undo_remove item_removed item_modified = do
  r ← get_head item_removed
  m ← get_head item_modified
  set_info item_removed m.info
  set_info item_modified r.info
  n ← get_head item_modified
  set_next item_removed n.next
  set_next item_modified item_removed
  pure item_removed

-- `sizeof(list_head)` and `sizeof(list_data)` on a machine with pointers of 32 bits.
abbrev pub head_size : ℕ
head_size = 8

abbrev pub data_size : ℕ
data_size = 4

unfoldable pub copy_info : Ptr → Data → Cmd (Unit {0})
copy_info to from = set_data to (item from.data16 from.idx)

-- `*memblock` and `*datablock`, the next free cells.
pub record Free : Type 0 where
  pub memblock : Ptr
  pub datablock : Ptr

-- The new item, `NULL` if a block is used up, and the next free cells.
unfoldable pub core_list_insert_new :
    (insert_point : Ptr) → Data → Free → (memblock_end datablock_end : Ptr) → Cmd (Ptr × Free)
core_list_insert_new insert_point info f memblock_end datablock_end =
    if leb memblock_end (f.memblock + head_size)
    then pure (null, f)
    else if leb datablock_end (f.datablock + data_size)
    then pure (null, f)
    else do
      p ← get_head insert_point
      set_next f.memblock p.next
      set_next insert_point f.memblock
      set_info f.memblock f.datablock
      copy_info f.datablock info
      pure (
        f.memblock,
        record { memblock = f.memblock + head_size; datablock = f.datablock + data_size },
      )
