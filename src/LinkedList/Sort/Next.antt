-- ===== src/LinkedList/Sort/Next.antt =====
-- The tests of the inner loop of `core_list_mergesort`, and which run gives the next cell.
use zr_soc.Common.{
  ℕ, ◌<◌, ltb, ◌==◌, not, ◌&&◌, ◌||◌, if◌then◌else◌, Bool, true, false, lt→ltb, le→ltb, ne→==,
  eq→==, ◌≡◌, refl, sym, ap, ◌∙◌, ◌≢◌, ◌⊎◌, inl, inr, List, [], ◌∷◌, ◌++◌, Option, some, ok, arith,
}
use zr_soc.LinkedList.Store.{Ptr, null, Head, head, Data, Memory, get_head}
use zr_soc.LinkedList.Chain.{Cell, first, with_heads, get_head-ok, get_data-ok}
use zr_soc.LinkedList.Calc.{cmp_idx, difference}
use zr_soc.LinkedList.Sort.{Cmp, Merging, not_above, take_p, take_q, take_next}
use zr_soc.LinkedList.Sort.Step.{Mid, after_p, after_q, take_p-ok, take_q-ok}

-- On data cells that `d` tells, the comparison returns `code` of the two cells and writes nothing,
-- whatever the links are.
abbrev pub Compares : Memory → (Ptr → Data) → Cmp → (Ptr → Ptr → ℕ) → Type 0
Compares m d cmp code =
    (h : Ptr → Option Head) (a b : Ptr)
    → (a ≢ null) × (m.datas a ≡ some (d a))
    → (b ≢ null) × (m.datas b ≡ some (d b))
    → cmp a b (with_heads m h) ≡ ok (code a b, with_heads m h)

-- The comparison by index does so when `res` is not `NULL`.
pub cmp_idx-Compares :
    (m : Memory) (d : Ptr → Data)
    → Compares m d (cmp_idx false) (λ a b. difference (d a).idx (d b).idx)
unfolding cmp_idx
cmp_idx-Compares m d h a b (na, ea) (nb, eb) =
    rw (get_data-ok (with_heads m h) a (d a) na ea)
      (rw (get_data-ok (with_heads m h) b (d b) nb eb) refl)

-- The tests of the loop, by what is left of the two runs.
pub going_p :
    (h : Ptr → Option Head) (ds : List Cell) (x : Cell) (xs ys zs : List Cell) (s : Merging)
    → Mid h ds (x ∷ xs) ys zs s
    → (ltb 0 s.psize || (ltb 0 s.qsize && not (s.q == null))) ≡ true
going_p h ds x xs ys zs s i = rw (lt→ltb 0 s.psize (omega (arith, i.p_size))) refl

some_q :
    (h : Ptr → Option Head) (ds xs : List Cell) (y : Cell) (ys zs : List Cell) (s : Merging)
    → Mid h ds xs (y ∷ ys) zs s
    → (0 < s.qsize) × (s.q ≢ null)
some_q h ds xs y ys zs s i = (
  elim i.q_size [ inl e ↦ omega (arith, e) | inr e ↦ omega (arith, e.0) ],
  λ e. i.q_run.0 (sym i.q_at ∙ e),
)

pub going_q :
    (h : Ptr → Option Head) (ds : List Cell) (y : Cell) (ys zs : List Cell) (s : Merging)
    → Mid h ds [] (y ∷ ys) zs s
    → (ltb 0 s.psize || (ltb 0 s.qsize && not (s.q == null))) ≡ true
going_q h ds y ys zs s i =
    let q = some_q h ds [] y ys zs s i in
    rw (le→ltb 0 s.psize (omega (arith, i.p_size)), lt→ltb 0 s.qsize q.0, ne→== s.q null q.1) refl

no_q :
    (h : Ptr → Option Head) (ds xs zs : List Cell) (s : Merging)
    → Mid h ds xs [] zs s
    → (s.qsize ≡ 0) ⊎ (s.q ≡ null)
no_q h ds xs zs s i = elim i.q_size [
  | inl e ↦ inl e
  | inr e ↦ inr (i.q_at ∙ ap (λ t. first t null) e.1)
]

pub stopped :
    (h : Ptr → Option Head) (ds zs : List Cell) (s : Merging)
    → Mid h ds [] [] zs s
    → (ltb 0 s.psize || (ltb 0 s.qsize && not (s.q == null))) ≡ false
stopped h ds zs s i = rw (le→ltb 0 s.psize (omega (arith, i.p_size))) (elim (no_q h ds [] zs s i) [
  | inl e ↦ rw (le→ltb 0 s.qsize (omega (arith, e))) refl
  | inr e ↦ rw (eq→== s.q null e) (and_false (ltb 0 s.qsize))
])
  where
    and_false : (b : Bool) → (b && false) ≡ false
    and_false true = refl
    and_false false = refl

module _ (m : Memory) (cmp : Cmp) where
  pub next_q :
      (h : Ptr → Option Head) (ds : List Cell) (y : Cell) (ys zs : List Cell) (s : Merging)
      → Mid h ds [] (y ∷ ys) zs s
      → take_next cmp s (with_heads m h)
        ≡ ok ((y.at, after_q m h ds s y (ys ++ zs)), with_heads m h)
  unfolding take_next
  next_q h ds y ys zs s i = rw (eq→== s.psize 0 i.p_size) (take_q-ok m h ds y [] ys zs s i)

  pub next_p :
      (h : Ptr → Option Head) (ds : List Cell) (x : Cell) (xs zs : List Cell) (s : Merging)
      (i : Mid h ds (x ∷ xs) [] zs s)
      → take_next cmp s (with_heads m h) ≡ ok ((x.at, after_p m h ds s x xs i.stop), with_heads m h)
  unfolding take_next
  next_p h ds x xs zs s i =
      rw (ne→== s.psize 0 (λ e. omega (arith, e, i.p_size)), none_left (no_q h ds (x ∷ xs) zs s i))
        (take_p-ok m h ds x xs [] zs s i)
    where
      or_true : (b : Bool) → (b || true) ≡ true
      or_true true = refl
      or_true false = refl

      none_left : (s.qsize ≡ 0) ⊎ (s.q ≡ null) → (s.qsize == 0 || s.q == null) ≡ true
      none_left (inl e) = rw (eq→== s.qsize 0 e) refl
      none_left (inr e) = rw (eq→== s.q null e) (or_true (s.qsize == 0))

module _ (m : Memory) (d : Ptr → Data) (cmp : Cmp) (code : Ptr → Ptr → ℕ)
    (compares : Compares m d cmp code) where
  -- Both runs have a cell: the comparison of their data decides.
  pub next_of_both :
      (h : Ptr → Option Head) (ds : List Cell) (x y : Cell) (xs ys zs : List Cell) (s : Merging)
      (i : Mid h ds (x ∷ xs) (y ∷ ys) zs s)
      → (x.info ≢ null) × (m.datas x.info ≡ some (d x.info))
      → (y.info ≢ null) × (m.datas y.info ≡ some (d y.info))
      → take_next cmp s (with_heads m h) ≡ (
          if not_above (code x.info y.info)
          then take_p s (with_heads m h)
          else take_q s (with_heads m h))
  unfolding take_next
  next_of_both h ds x y xs ys zs s i dx dy =
      let q = some_q h ds (x ∷ xs) y ys zs s i in
      let n = with_heads m h in
      let hp =
        ap (λ t. get_head t n) i.p_at
        ∙ get_head-ok n x.at (head (first xs i.stop) x.info) i.p_run.0 i.p_run.1 in
      let hq =
        ap (λ t. get_head t n) i.q_at
        ∙ get_head-ok n y.at (head (first (ys ++ zs) null) y.info) i.q_run.0 i.q_run.1 in
      rw (ne→== s.psize 0 (λ e. omega (arith, e, i.p_size))) (
        rw (ne→== s.qsize 0 (λ e. omega (arith, e, q.0)), ne→== s.q null q.1)
          (rw hp (
            rw hq (rw (compares h x.info y.info dx dy) (branch (not_above (code x.info y.info)))))))
    where
      branch :
          (b : Bool)
          → (if b then take_p s else take_q s) (with_heads m h)
            ≡ (if b then take_p s (with_heads m h) else take_q s (with_heads m h))
      branch true = refl
      branch false = refl
