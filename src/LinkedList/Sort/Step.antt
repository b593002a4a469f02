-- ===== src/LinkedList/Sort/Step.antt =====
-- The state of a merge of `core_list_mergesort`, and one round of its loop.
use zr_soc.Common.{
  ◌-◌, ◌≤◌, ◌≡◌, refl, sym, ◌⊎◌, inl, inr, List, [], ◌∷◌, ◌++◌, length, Option, ok, arith,
}
use zr_soc.LinkedList.Store.{Ptr, null, Head, head, Memory}
use zr_soc.LinkedList.Chain.{Cell, first, Linked, Apart, Distinct, with_heads, get_head-ok}
use zr_soc.LinkedList.Sort.{Merging, take_p, take_q, append_cell}
use zr_soc.LinkedList.Sort.Tail.{Away, Away-snoc, Linked-agree, Built, append_cell-Appended}

-- The state of a merge: `ds` has been built, `xs` is left of the first run and `ys` of the second, and `zs`
-- lies behind the second run.
pub record Mid (h : Ptr → Option Head) (ds xs ys zs : List Cell) (s : Merging) : Type 0 where
  pub stop : Ptr
  pub p_at : s.p ≡ first xs stop
  pub q_at : s.q ≡ first (ys ++ zs) null
  pub p_size : s.psize ≡ length xs
  pub q_size : (s.qsize ≡ length ys) ⊎ ((length ys ≤ s.qsize) × (zs ≡ []))
  pub p_run : Linked h xs stop
  pub q_run : Linked h (ys ++ zs) null
  pub built : Built h ds s.list s.tail
  pub p_new : Away xs ds
  pub q_new : Away (ys ++ zs) ds
  pub p_distinct : Distinct xs
  pub q_distinct : Distinct (ys ++ zs)
  pub apart : Away xs (ys ++ zs)

-- A step has moved the cell `e` to the end of what has been built.
pub record Stepped (m : Memory) (h : Ptr → Option Head) (ds : List Cell) (e : Cell)
    (xs ys zs : List Cell) (s s1 : Merging) : Type 0 where
  pub heads : Ptr → Option Head
  pub after : Merging
  pub appends : append_cell e.at s1 (with_heads m h) ≡ ok (after, with_heads m heads)
  pub frame : (a : Ptr) → Apart a ds → heads a ≡ h a
  pub mid : Mid heads (ds ++ e ∷ []) xs ys zs after

Away-head : (y : Cell) (xs ys : List Cell) → Away xs (y ∷ ys) → Apart y.at xs × Away xs ys
Away-head y [] ys a = (tt, tt)
Away-head y (x ∷ xs) ys ((n, o), a) =
    let r = Away-head y xs ys a in (((λ e. n (sym e)), r.0), (o, r.1))

module _ (m : Memory) (h : Ptr → Option Head) (ds : List Cell) where
  abbrev pub after_p : Merging → Cell → List Cell → Ptr → Merging
  after_p s x xs stop = record s { p = first xs stop; psize = s.psize - 1 }

  pub take_p-ok :
      (x : Cell) (xs ys zs : List Cell) (s : Merging) (i : Mid h ds (x ∷ xs) ys zs s)
      → take_p s (with_heads m h) ≡ ok ((x.at, after_p s x xs i.stop), with_heads m h)
  unfolding take_p
  take_p-ok x xs ys zs s i = rw i.p_at (
      rw (get_head-ok (with_heads m h) x.at (head (first xs i.stop) x.info) i.p_run.0 i.p_run.1)
        refl)

  pub step_p :
      (x : Cell) (xs ys zs : List Cell) (s : Merging) (i : Mid h ds (x ∷ xs) ys zs s)
      → Stepped m h ds x xs ys zs s (after_p s x xs i.stop)
  step_p x xs ys zs s i =
      let a =
        append_cell-Appended m h ds x (first xs i.stop) (after_p s x xs i.stop) s.list s.tail
          i.built refl refl i.p_run.0 i.p_run.1 i.p_new.0 in
      record {
        heads = a.heads;
        after = record (after_p s x xs i.stop) { list = a.list; tail = x.at };
        appends = a.returns;
        frame = a.frame;
        mid = record {
          stop = i.stop;
          p_at = refl;
          q_at = i.q_at;
          p_size = omega (arith, i.p_size);
          q_size = i.q_size;
          p_run = Linked-agree h a.heads ds xs i.stop a.frame i.p_new.1 i.p_run.2;
          q_run = Linked-agree h a.heads ds (ys ++ zs) null a.frame i.q_new i.q_run;
          built = a.built;
          p_new = Away-snoc xs ds x i.p_new.1 i.p_distinct.0;
          q_new = Away-snoc (ys ++ zs) ds x i.q_new i.apart.0;
          p_distinct = i.p_distinct.1;
          q_distinct = i.q_distinct;
          apart = i.apart.1;
        };
      }

  abbrev pub after_q : Merging → Cell → List Cell → Merging
  after_q s y qs = record s { q = first qs null; qsize = s.qsize - 1 }

  pub take_q-ok :
      (y : Cell) (xs ys zs : List Cell) (s : Merging) (i : Mid h ds xs (y ∷ ys) zs s)
      → take_q s (with_heads m h) ≡ ok ((y.at, after_q s y (ys ++ zs)), with_heads m h)
  unfolding take_q
  take_q-ok y xs ys zs s i = rw i.q_at (
      rw
        (get_head-ok (with_heads m h) y.at (head (first (ys ++ zs) null) y.info) i.q_run.0
          i.q_run.1)
        refl)

  pub step_q :
      (y : Cell) (xs ys zs : List Cell) (s : Merging) (i : Mid h ds xs (y ∷ ys) zs s)
      → Stepped m h ds y xs ys zs s (after_q s y (ys ++ zs))
  step_q y xs ys zs s i =
      let s1 = after_q s y (ys ++ zs) in
      let a =
        append_cell-Appended m h ds y (first (ys ++ zs) null) s1 s.list s.tail i.built refl refl
          i.q_run.0 i.q_run.1 i.q_new.0 in
      let r = Away-head y xs (ys ++ zs) i.apart in
      record {
        heads = a.heads;
        after = record s1 { list = a.list; tail = y.at };
        appends = a.returns;
        frame = a.frame;
        mid = record {
          stop = i.stop;
          p_at = i.p_at;
          q_at = refl;
          p_size = i.p_size;
          q_size = elim i.q_size [
            | inl e ↦ inl (omega (arith, e))
            | inr e ↦ inr (omega (arith, e.0), e.1)
          ];
          p_run = Linked-agree h a.heads ds xs i.stop a.frame i.p_new i.p_run;
          q_run = Linked-agree h a.heads ds (ys ++ zs) null a.frame i.q_new.1 i.q_run.2;
          built = a.built;
          p_new = Away-snoc xs ds y i.p_new r.0;
          q_new = Away-snoc (ys ++ zs) ds y i.q_new.1 i.q_distinct.0;
          p_distinct = i.p_distinct;
          q_distinct = i.q_distinct.1;
          apart = r.1;
        };
      }
