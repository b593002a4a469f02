-- ===== src/LinkedList/Insert.antt =====
-- `core_list_insert_new` of sw/coremark/core_list_join.c.
use zr_soc.Common.{
  ◌+◌, ◌<◌, ◌≤◌, leb, ◌≡◌, refl, ◌∙◌, ◌≢◌, sym, Option, some, List, ◌∷◌, ok, ◌⊎◌, inl, inr,
  Bool-cases, ne→==, le→leb, lt→leb,
}
use zr_soc.LinkedList.{Free, head_size, data_size, copy_info, core_list_insert_new}
use zr_soc.LinkedList.Store.{Ptr, null, Head, head, Data, Memory, set_data, get_data, update}
use zr_soc.LinkedList.Chain.{
  Cell, first, Linked, Apart, Distinct, update_self, update-ne, Linked-update, with_heads,
  get_head-ok, set_next-ok, set_info-ok,
}

-- There is a cell and a data cell left before the last ones of the blocks.
abbrev pub HasRoom : Free → Ptr → Ptr → Type 0
HasRoom f me de = (f.memblock + head_size < me) × (f.datablock + data_size < de)

copy_info-ok :
    (m : Memory) (p : Ptr) (d d' : Data)
    → p ≢ null
    → m.datas p ≡ some d'
    → copy_info p d m ≡ ok (tt, record m { datas = update m.datas p d })
unfolding copy_info set_data get_data
copy_info-ok m p d d' nn e = rw (ne→== p null nn) (rw e refl)

-- The new item is linked in behind the insert point and holds a copy of the data in the next free data
-- cell, and both blocks move on by one cell.
pub record Inserted (m : Memory) (p : Cell) (cs : List Cell) (stop : Ptr) (d : Data) (f : Free)
    (me de : Ptr) : Type 0 where
  pub heads : Ptr → Option Head
  pub returns :
      core_list_insert_new p.at d f me de m
      ≡ ok (
        (
          f.memblock,
          record { memblock = f.memblock + head_size; datablock = f.datablock + data_size },
        ),
        record m { heads = heads; datas = update m.datas f.datablock d },
      )
  pub linked : Linked heads (p ∷ record { at = f.memblock; info = f.datablock } ∷ cs) stop
  pub frame : (a : Ptr) → a ≢ p.at → a ≢ f.memblock → heads a ≡ m.heads a

-- With room in both blocks and free cells that are not in the list, `core_list_insert_new` links a new
-- item with a copy of the data behind the insert point, and writes to no cell but these two.
pub core_list_insert_new-Inserted :
    (m : Memory) (p : Cell) (cs : List Cell) (stop : Ptr) (d : Data) (f : Free) (me de : Ptr)
    (h : Head) (d' : Data)
    → HasRoom f me de
    → Linked m.heads (p ∷ cs) stop
    → Distinct (p ∷ cs)
    → f.memblock ≢ null
    → m.heads f.memblock ≡ some h
    → Apart f.memblock (p ∷ cs)
    → f.datablock ≢ null
    → m.datas f.datablock ≡ some d'
    → Inserted m p cs stop d f me de
unfolding core_list_insert_new
core_list_insert_new-Inserted m p cs stop d f me de h d' (rm, rd) (np, ep, l) (op, dd) nf ef
      (fp, of) nd ed =
    let h1 = update m.heads f.memblock (head (first cs stop) h.info) in
    let h2 = update h1 p.at (head f.memblock p.info) in
    let h3 = update h2 f.memblock (head (first cs stop) f.datablock) in
    let fp' : f.memblock ≢ p.at = λ e. fp (sym e) in
    let e1p = update-ne m.heads f.memblock (head (first cs stop) h.info) p.at fp ∙ ep in
    let e2f =
      update-ne h1 p.at (head f.memblock p.info) f.memblock fp'
      ∙ update_self m.heads f.memblock (head (first cs stop) h.info) in
    record {
      heads = h3;
      returns = rw (lt→leb me (f.memblock + head_size) rm) (
          rw (lt→leb de (f.datablock + data_size) rd) (
            rw (get_head-ok m p.at (head (first cs stop) p.info) np ep) (
              rw (set_next-ok m f.memblock (first cs stop) h nf ef) (
                rw
                  (set_next-ok (with_heads m h1) p.at f.memblock (head (first cs stop) p.info) np
                    e1p)
                  (rw
                    (set_info-ok (with_heads m h2) f.memblock f.datablock
                      (head (first cs stop) h.info) nf e2f)
                    (rw (copy_info-ok (with_heads m h3) f.datablock d d' nd ed) refl))))));
      linked = (
        np,
        update-ne h2 f.memblock (head (first cs stop) f.datablock) p.at fp
            ∙ update_self h1 p.at (head f.memblock p.info),
        (
          nf,
          update_self h2 f.memblock (head (first cs stop) f.datablock),
          Linked-update h2 f.memblock _ cs stop of (
              Linked-update h1 p.at _ cs stop op (Linked-update m.heads f.memblock _ cs stop of l)),
        ),
      );
      frame = λ a ap af.
          update-ne h2 f.memblock (head (first cs stop) f.datablock) a af
          ∙ update-ne h1 p.at (head f.memblock p.info) a ap
          ∙ update-ne m.heads f.memblock (head (first cs stop) h.info) a af;
    }

-- Where one of the blocks has no room, `core_list_insert_new` returns `NULL` and leaves the memory and
-- the next free cells as they are.
pub core_list_insert_new-full :
    (m : Memory) (p : Ptr) (d : Data) (f : Free) (me de : Ptr)
    → (me ≤ f.memblock + head_size) ⊎ (de ≤ f.datablock + data_size)
    → core_list_insert_new p d f me de m ≡ ok ((null, f), m)
unfolding core_list_insert_new
core_list_insert_new-full m p d f me de (inl h) = rw (le→leb me (f.memblock + head_size) h) refl
core_list_insert_new-full m p d f me de (inr h) =
    elim (Bool-cases (leb me (f.memblock + head_size))) [
      | inl e ↦ rw e refl
      | inr e ↦ rw e (rw (le→leb de (f.datablock + data_size) h) refl)
    ]
