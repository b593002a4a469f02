-- ===== src/LinkedList/Sort/Merge.antt =====
-- The inner loop of `core_list_mergesort`: two runs of a list are merged in place.
use mathlib.Core.Path.{subst}
use mathlib.Core.List.{append_assoc, append-nil}
use zr_soc.Common.{
  ℕ, zero, suc, ◌+◌, ◌<◌, ltb, ◌==◌, not, ◌&&◌, ◌||◌, true, false, Bool-cases, ◌≡◌, refl, sym, ◌∙◌,
  ◌≢◌, inl, inr, List, [], ◌∷◌, ◌++◌, length, Option, Run, ok, arith,
}
use zr_soc.LinkedList.Store.{Ptr, null, Head, Data, Memory}
use zr_soc.LinkedList.Chain.{Cell, Apart, with_heads}
use zr_soc.LinkedList.Search.{Holds}
use zr_soc.LinkedList.Sort.{Cmp, Merging, not_above, take_next, append_cell, merge_loop}
use zr_soc.LinkedList.Sort.Tail.{Apart-snoc}
use zr_soc.LinkedList.Sort.Step.{
  Mid, Stepped, after_p, after_q, take_p-ok, take_q-ok, step_p, step_q,
}
use zr_soc.LinkedList.Sort.Next.{Compares, going_p, going_q, stopped, next_p, next_q, next_of_both}

-- `out` is the stable merge of two runs: the first run goes first where neither is above.
pub data Merged (code : Ptr → Ptr → ℕ) : (xs ys out : List Cell) → Type 0 where
  end : Merged code [] [] []
  rest_p :
      (x : Cell) (xs out : List Cell) → Merged code xs [] out → Merged code (x ∷ xs) [] (x ∷ out)
  rest_q :
      (y : Cell) (ys out : List Cell) → Merged code [] ys out → Merged code [] (y ∷ ys) (y ∷ out)
  from_p :
      (x y : Cell) (xs ys out : List Cell)
      → not_above (code x.info y.info) ≡ true
      → Merged code xs (y ∷ ys) out
      → Merged code (x ∷ xs) (y ∷ ys) (x ∷ out)
  from_q :
      (x y : Cell) (xs ys out : List Cell)
      → not_above (code x.info y.info) ≡ false
      → Merged code (x ∷ xs) ys out
      → Merged code (x ∷ xs) (y ∷ ys) (y ∷ out)

-- The loop has merged `xs` and `ys` behind `ds` and written to their cells only.
pub record MergedTo (code : Ptr → Ptr → ℕ) (m : Memory) (h : Ptr → Option Head)
    (ds xs ys zs : List Cell) (r : Run (Merging × Memory)) : Type 0 where
  pub heads : Ptr → Option Head
  pub after : Merging
  pub out : List Cell
  pub merged : Merged code xs ys out
  pub returns : r ≡ ok (after, with_heads m heads)
  pub mid : Mid heads (ds ++ out) [] [] zs after
  pub frame : (a : Ptr) → Apart a ds → Apart a xs → Apart a ys → heads a ≡ h a

loop_step :
    (fuel : ℕ) (cmp : Cmp) (s s1 s2 : Merging) (e : Ptr) (n n' : Memory)
    → (ltb 0 s.psize || (ltb 0 s.qsize && not (s.q == null))) ≡ true
    → take_next cmp s n ≡ ok ((e, s1), n)
    → append_cell e s1 n ≡ ok (s2, n')
    → merge_loop (suc fuel) cmp s n ≡ merge_loop fuel cmp s2 n'
unfolding merge_loop
loop_step fuel cmp s s1 s2 e n n' c t a = rw (c, t, a) refl

module _ (m : Memory) (d : Ptr → Data) (cmp : Cmp) (code : Ptr → Ptr → ℕ)
    (compares : Compares m d cmp code) where
  -- What a merge of the rest makes of a merge whose first cell has been moved.
  after_step :
      {h : Ptr → Option Head} {ds xs ys zs xs' ys' : List Cell} {e : Cell} {s s1 : Merging}
      {r r' : Run (Merging × Memory)} (st : Stepped m h ds e xs' ys' zs s s1)
      → r ≡ r'
      → ((out : List Cell) → Merged code xs' ys' out → Merged code xs ys (e ∷ out))
      → ((a : Ptr) → Apart a xs → Apart a ys → (e.at ≢ a) × Apart a xs' × Apart a ys')
      → MergedTo code m st.heads (ds ++ e ∷ []) xs' ys' zs r'
      → MergedTo code m h ds xs ys zs r
  after_step {ds} {zs} {e} st run build parts x = record {
    heads = x.heads;
    after = x.after;
    out = e ∷ x.out;
    merged = build x.out x.merged;
    returns = run ∙ x.returns;
    mid = subst (λ t. Mid x.heads t [] [] zs x.after) (append_assoc ds (e ∷ []) x.out) x.mid;
    frame = λ a od ox oy.
        let p = parts a ox oy in x.frame a (Apart-snoc a ds e od p.0) p.1 p.2 ∙ st.frame a od;
  }

  -- With a comparison that writes nothing, from any state of a merge and with more rounds than cells are
  -- left in the two runs, the loop returns: it has put the stable merge of the two runs behind what was
  -- built, linked in place, and stands at what follows the second run. It writes to no other list cell
  -- and to no data.
  pub merge_loop-MergedTo :
      (fuel : ℕ) (h : Ptr → Option Head) (ds xs ys zs : List Cell) (s : Merging)
      → Mid h ds xs ys zs s
      → Holds m d xs
      → Holds m d ys
      → length xs + length ys < fuel
      → MergedTo code m h ds xs ys zs (merge_loop fuel cmp s (with_heads m h))
  merge_loop-MergedTo zero h ds xs ys zs s i dx dy f = absurd (omega (arith, f))
  merge_loop-MergedTo (suc fuel) h ds [] [] zs s i dx dy f = record {
    heads = h;
    after = s;
    out = [];
    merged = end;
    returns = unfold merge_loop in rw (stopped h ds zs s i) refl;
    mid = subst (λ t. Mid h t [] [] zs s) (sym (append-nil ds)) i;
    frame = λ a _ _ _. refl;
  }
  merge_loop-MergedTo (suc fuel) h ds [] (y ∷ ys) zs s i dx dy f =
      let st = step_q m h ds y [] ys zs s i in
      after_step st
        (loop_step fuel cmp s (after_q m h ds s y (ys ++ zs)) st.after y.at (with_heads m h)
          (with_heads m st.heads) (going_q h ds y ys zs s i) (next_q m cmp h ds y ys zs s i)
          st.appends)
        (λ out r. rest_q y ys out r) (λ a ox oy. (oy.0, tt, oy.1))
        (merge_loop-MergedTo fuel st.heads (ds ++ y ∷ []) [] ys zs st.after st.mid tt dy.1
          (omega (arith, f)))
  merge_loop-MergedTo (suc fuel) h ds (x ∷ xs) [] zs s i dx dy f =
      let st = step_p m h ds x xs [] zs s i in
      after_step st
        (loop_step fuel cmp s (after_p m h ds s x xs i.stop) st.after x.at (with_heads m h)
          (with_heads m st.heads) (going_p h ds x xs [] zs s i) (next_p m cmp h ds x xs zs s i)
          st.appends)
        (λ out r. rest_p x xs out r) (λ a ox oy. (ox.0, ox.1, tt))
        (merge_loop-MergedTo fuel st.heads (ds ++ x ∷ []) xs [] zs st.after st.mid dx.1 tt
          (omega (arith, f)))
  merge_loop-MergedTo (suc fuel) h ds (x ∷ xs) (y ∷ ys) zs s i dx dy f =
      elim (Bool-cases (not_above (code x.info y.info))) [
        | inl low ↦
            (let st = step_p m h ds x xs (y ∷ ys) zs s i in
              after_step st
                (loop_step fuel cmp s (after_p m h ds s x xs i.stop) st.after x.at (with_heads m h)
                  (with_heads m st.heads) (going_p h ds x xs (y ∷ ys) zs s i)
                  (next_of_both m d cmp code compares h ds x y xs ys zs s i dx.0 dy.0
                    ∙ rw low (take_p-ok m h ds x xs (y ∷ ys) zs s i))
                  st.appends)
                (λ out r. from_p x y xs ys out low r) (λ a ox oy. (ox.0, ox.1, oy))
                (merge_loop-MergedTo fuel st.heads (ds ++ x ∷ []) xs (y ∷ ys) zs st.after st.mid
                  dx.1 dy (omega (arith, f))))
        | inr high ↦
            (let st = step_q m h ds y (x ∷ xs) ys zs s i in
              after_step st
                (loop_step fuel cmp s (after_q m h ds s y (ys ++ zs)) st.after y.at (with_heads m h)
                  (with_heads m st.heads) (going_p h ds x xs (y ∷ ys) zs s i)
                  (next_of_both m d cmp code compares h ds x y xs ys zs s i dx.0 dy.0
                    ∙ rw high (take_q-ok m h ds y (x ∷ xs) ys zs s i))
                  st.appends)
                (λ out r. from_q x y xs ys out high r) (λ a ox oy. (oy.0, ox, oy.1))
                (merge_loop-MergedTo fuel st.heads (ds ++ y ∷ []) (x ∷ xs) ys zs st.after st.mid dx
                  dy.1 (omega (arith, f))))
      ]
