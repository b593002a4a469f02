-- ===== src/LinkedList/Removal.antt =====
-- `core_list_remove` and `core_list_undo_remove` of sw/coremark/core_list_join.c.
use zr_soc.Common.{◌≡◌, ◌∙◌, ◌≢◌, sym, ap, Option, some, List, ◌∷◌, ok}
use zr_soc.LinkedList.{core_list_remove, core_list_undo_remove}
use zr_soc.LinkedList.Store.{Ptr, null, Head, head, Memory, update}
use zr_soc.LinkedList.Chain.{
  Cell, first, Linked, Distinct, update_self, update-ne, update-same, update-update_self,
  update-update_ne, Linked-update, with_heads, get_head-ok, set_next-ok, set_info-ok,
}

-- The two cells after the removal of the second.
abbrev pub removed : (Ptr → Option Head) → (a b : Cell) → Ptr → Ptr → Option Head
removed h a b next = update (update h a.at (head next b.info)) b.at (head null a.info)

update_twice :
    (h : Ptr → Option Head) (p q : Ptr) (v w v' w' : Head)
    → p ≢ q
    → update (update (update (update h p v) q w) p v') q w' ≡ update (update h p v') q w'
update_twice h p q v w v' w' ne =
    ap (λ k. update (update k p v') q w') (update-update_ne h p q v w ne)
    ∙ ap (λ k. update k q w') (update-update_self (update h q w) p v v')
    ∙ ap (λ k. update k q w') (update-update_ne h q p w v' (λ e. ne (sym e)))
    ∙ update-update_self (update h p v') q w w'

core_list_remove-run :
    (m : Memory) (a b : Cell) (next : Ptr)
    → a.at ≢ null
    → b.at ≢ null
    → a.at ≢ b.at
    → m.heads a.at ≡ some (head b.at a.info)
    → m.heads b.at ≡ some (head next b.info)
    → core_list_remove a.at m ≡ ok (b.at, with_heads m (removed m.heads a b next))
unfolding core_list_remove
core_list_remove-run m a b next na nb ne ea eb =
    let h1 = update m.heads a.at (head b.at b.info) in
    let h2 = update h1 b.at (head next a.info) in
    let h3 = update h2 a.at (head next b.info) in
    let e1b = update-ne m.heads a.at (head b.at b.info) b.at (λ e. ne (sym e)) ∙ eb in
    let e2a =
      update-ne h1 b.at (head next a.info) a.at ne ∙ update_self m.heads a.at (head b.at b.info) in
    let e2b = update_self h1 b.at (head next a.info) in
    let e3b = update-ne h2 a.at (head next b.info) b.at (λ e. ne (sym e)) ∙ e2b in
    rw (get_head-ok m a.at (head b.at a.info) na ea) (
      rw (get_head-ok m b.at (head next b.info) nb eb) (
        rw (set_info-ok m a.at b.info (head b.at a.info) na ea) (
          rw (set_info-ok (with_heads m h1) b.at a.info (head next b.info) nb e1b) (
            rw (get_head-ok (with_heads m h2) a.at (head b.at b.info) na e2a) (
              rw (get_head-ok (with_heads m h2) b.at (head next a.info) nb e2b) (
                rw (set_next-ok (with_heads m h2) a.at next (head b.at b.info) na e2a) (
                  rw (set_next-ok (with_heads m h3) b.at null (head next a.info) nb e3b) (
                    ap (λ k. ok (b.at, with_heads m k))
                      (update_twice m.heads a.at b.at _ _ _ _ ne)))))))))

core_list_undo_remove-run :
    (m : Memory) (a b : Cell) (next : Ptr)
    → a.at ≢ null
    → b.at ≢ null
    → a.at ≢ b.at
    → m.heads a.at ≡ some (head b.at a.info)
    → m.heads b.at ≡ some (head next b.info)
    → core_list_undo_remove b.at a.at (with_heads m (removed m.heads a b next)) ≡ ok (b.at, m)
unfolding core_list_undo_remove
core_list_undo_remove-run m a b next na nb ne ea eb =
    let ne' : b.at ≢ a.at = λ e. ne (sym e) in
    let h0 = removed m.heads a b next in
    let h1 = update h0 b.at (head null b.info) in
    let h2 = update h1 a.at (head next a.info) in
    let h3 = update h2 b.at (head next b.info) in
    let e0b = update_self (update m.heads a.at (head next b.info)) b.at (head null a.info) in
    let e0a =
      update-ne (update m.heads a.at (head next b.info)) b.at (head null a.info) a.at ne
      ∙ update_self m.heads a.at (head next b.info) in
    let e1a = update-ne h0 b.at (head null b.info) a.at ne ∙ e0a in
    let e2a = update_self h1 a.at (head next a.info) in
    let e2b =
      update-ne h1 a.at (head next a.info) b.at ne' ∙ update_self h0 b.at (head null b.info) in
    let e3a = update-ne h2 b.at (head next b.info) a.at ne ∙ e2a in
    rw (get_head-ok (with_heads m h0) b.at (head null a.info) nb e0b) (
      rw (get_head-ok (with_heads m h0) a.at (head next b.info) na e0a) (
        rw (set_info-ok (with_heads m h0) b.at b.info (head null a.info) nb e0b) (
          rw (set_info-ok (with_heads m h1) a.at a.info (head next b.info) na e1a) (
            rw (get_head-ok (with_heads m h2) a.at (head next a.info) na e2a) (
              rw (set_next-ok (with_heads m h2) b.at next (head null b.info) nb e2b) (
                rw (set_next-ok (with_heads m h3) a.at b.at (head next a.info) na e3a) (
                  ap (λ k. ok (b.at, with_heads m k))
                    (update_twice h0 b.at a.at _ _ _ _ ne' ∙ back))))))))
  where
    back :
        update (update (removed m.heads a b next) b.at (head next b.info)) a.at (head b.at a.info)
        ≡ m.heads
    back =
        ap (λ k. update k a.at (head b.at a.info))
          (update-update_self (update m.heads a.at (head next b.info)) b.at _ _)
        ∙ update-update_ne (update m.heads a.at (head next b.info)) b.at a.at _ _ (λ e. ne (sym e))
        ∙ ap (λ k. update k b.at (head next b.info)) (update-update_self m.heads a.at _ _)
        ∙ ap (λ k. update k b.at (head next b.info))
            (update-same m.heads a.at (head b.at a.info) ea)
        ∙ update-same m.heads b.at (head next b.info) eb

-- What removal does to a list of two cells and more, and its reversal.
pub record Removed (m : Memory) (a b : Cell) (cs : List Cell) (stop : Ptr) : Type 0 where
  pub heads : Ptr → Option Head
  pub removes : core_list_remove a.at m ≡ ok (b.at, with_heads m heads)
  pub linked : Linked heads (record { at = a.at; info = b.info } ∷ cs) stop
  pub cut : heads b.at ≡ some (head null a.info)
  pub undoes : core_list_undo_remove b.at a.at (with_heads m heads) ≡ ok (b.at, m)

-- On a list of distinct cells that has an item `b` after the item `a`, `core_list_remove` at `a` returns
-- the cell of `b`, now unlinked and with the `info` of `a`; the list goes from the cell of `a`, with the
-- `info` of `b`, to what followed `b`; and `core_list_undo_remove` then gives back the memory as it was.
pub core_list_remove-Removed :
    (m : Memory) (a b : Cell) (cs : List Cell) (stop : Ptr)
    → Linked m.heads (a ∷ b ∷ cs) stop
    → Distinct (a ∷ b ∷ cs)
    → Removed m a b cs stop
core_list_remove-Removed m a b cs stop (na, ea, (nb, eb, l)) ((ne, outa), (outb, d)) =
    let ne' : a.at ≢ b.at = λ e. ne (sym e) in
    let h1 = update m.heads a.at (head (first cs stop) b.info) in
    record {
      heads = removed m.heads a b (first cs stop);
      removes = core_list_remove-run m a b (first cs stop) na nb ne' ea eb;
      linked = (
        na,
        update-ne h1 b.at (head null a.info) a.at ne'
            ∙ update_self m.heads a.at (head (first cs stop) b.info),
        Linked-update h1 b.at (head null a.info) cs stop outb
            (Linked-update m.heads a.at (head (first cs stop) b.info) cs stop outa l),
      );
      cut = update_self h1 b.at (head null a.info);
      undoes = core_list_undo_remove-run m a b (first cs stop) na nb ne' ea eb;
    }
