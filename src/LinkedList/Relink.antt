-- ===== src/LinkedList/Relink.antt =====
-- `core_list_reverse` of sw/coremark/core_list_join.c.
use mathlib.Core.List
use zr_soc.Common.{
  ℕ, zero, suc, ◌<◌, ◌≡◌, refl, ◌∙◌, sym, Option, List, [], ◌∷◌, length, All, Run, ok, ne→==, arith,
}
use zr_soc.LinkedList.{reverse_loop, core_list_reverse}
use zr_soc.LinkedList.Store.{Ptr, null, Head, head, Memory, update}
use zr_soc.LinkedList.Chain.{
  Cell, first, Linked, Apart, Distinct, update_self, update-ne, Linked-update, with_heads,
  get_head-ok, set_next-ok,
}

-- The command returns the head of a list of these cells, and has written to the cells of `touched` only.
pub record Relinked (m : Memory) (cells touched : List Cell) (r : Run (Ptr × Memory)) : Type 0 where
  pub heads : Ptr → Option Head
  pub returns : r ≡ ok (first cells null, with_heads m heads)
  pub linked : Linked heads cells null
  pub frame : (a : Ptr) → Apart a touched → heads a ≡ m.heads a

Apart-All : (c : Cell) (xs ys : List Cell) → All (λ x. Apart x.at (c ∷ ys)) xs → Apart c.at xs
Apart-All c [] ys h = tt
Apart-All c (x ∷ xs) ys ((ne, out), h) = ((λ e. ne (sym e)), Apart-All c xs ys h)

All-tail :
    (c : Cell) (xs ys : List Cell)
    → All (λ x. Apart x.at ys) xs
    → Apart c.at xs
    → All (λ x. Apart x.at (c ∷ ys)) xs
All-tail c [] ys h out = tt
All-tail c (x ∷ xs) ys (o, h) (ne, out) = (((λ e. ne (sym e)), o), All-tail c xs ys h out)

All-nil : (xs : List Cell) → All (λ x. Apart x.at []) xs
All-nil [] = tt
All-nil (x ∷ xs) = (tt, All-nil xs)

reverse_loop-Relinked :
    (fuel : ℕ) (m : Memory) (xs ys : List Cell)
    → length xs < fuel
    → Linked m.heads xs null
    → Linked m.heads ys null
    → Distinct xs
    → All (λ x. Apart x.at ys) xs
    → Relinked m (List.reverse_aux xs ys) xs (reverse_loop fuel (first xs null) (first ys null) m)
unfolding reverse_loop
reverse_loop-Relinked zero m xs ys f l k d s = absurd (omega arith)
reverse_loop-Relinked (suc fuel) m [] ys f l k d s = record {
  heads = m.heads;
  returns = refl;
  linked = k;
  frame = λ a o. refl;
}
reverse_loop-Relinked (suc fuel) m (x ∷ xs) ys f (nn, e, l) k (o, d) (s, ss) =
    let hd : Head = head (first ys null) x.info in
    let m' = with_heads m (update m.heads x.at hd) in
    let rest =
      reverse_loop-Relinked fuel m' xs (x ∷ ys) (omega arith)
        (Linked-update m.heads x.at hd xs null o l)
        (nn, update_self m.heads x.at hd, Linked-update m.heads x.at hd ys null s k) d
        (All-tail x xs ys ss o) in
    record {
      heads = rest.heads;
      returns = rw (ne→== x.at null nn) (
          rw (get_head-ok m x.at (head (first xs null) x.info) nn e) (
            rw (set_next-ok m x.at (first ys null) (head (first xs null) x.info) nn e)
              rest.returns));
      linked = rest.linked;
      frame = λ a (ne, out). rest.frame a out ∙ update-ne m.heads x.at hd a (λ q. ne (sym q));
    }

-- Reversing a list whose cells are distinct, with more rounds than it has cells, returns the head of the
-- list of the same cells, each with its `info`, in reverse order; no other cell, no data and no result is
-- written.
pub core_list_reverse-Relinked :
    (fuel : ℕ) (m : Memory) (xs : List Cell)
    → length xs < fuel
    → Linked m.heads xs null
    → Distinct xs
    → Relinked m (List.reverse xs) xs (core_list_reverse fuel (first xs null) m)
unfolding core_list_reverse
core_list_reverse-Relinked fuel m xs f l d =
    reverse_loop-Relinked fuel m xs [] f l tt d (All-nil xs)
