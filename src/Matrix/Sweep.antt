-- ===== src/Matrix/Sweep.antt =====
-- The two nested loops go through the cells 0, 1, ..., N * N - 1 in order.
use mathlib.Core.Path.{subst}
use native.Mathlib.Decide.{ℕ_discrete}
use zr_soc.Common.{
  ℕ, ◌+◌, ◌*◌, ◌^◌, ◌<◌, ◌≤◌, ◌≡◌, refl, ◌∙◌, List, length, get_or, set, length-set,
  get_or-set_self, get_or-set_ne, arith, Run, ok, for_loop, Reaches, for_loop-Reaches, ltb,
  if◌then◌else◌,
}
use zr_soc.Matrix.{cell, for_cells}

pub cell-lt : (n i j : ℕ) → i < n → j < n → i * n + j < n * n
cell-lt n i j p q = grind arith

-- The index does not wrap while the matrix is smaller than 2 ^ 32 cells.
pub cell_lem : (n i j : ℕ) → n * n ≤ 2 ^ 32 → i < n → j < n → cell n i j ≡ i * n + j
unfolding cell
cell_lem n i j h p q = omega (arith, cell-lt n i j p q)

module _ {ℓ κ} {S : Type ℓ} (n : ℕ) (P : ℕ → S → Type κ) (body : ℕ → ℕ → S → Run S)
    (keep : (i j : ℕ) (s : S)
      → i < n
      → j < n
      → P (i * n + j) s
      → Reaches (P (i * n + j + 1)) (body i j s)) where
  row : (i : ℕ) (s : S) → i < n → P (i * n) s → Reaches (P ((i + 1) * n)) (for_loop n 0 (body i) s)
  row i s h p =
      subst (λ k. Reaches (P k) (for_loop n 0 (body i) s)) (omega arith)
        (for_loop-Reaches (λ j. P (i * n + j)) n (body i)
          (λ j t q r. subst (λ k. Reaches (P k) (body i j t)) (omega arith) (keep i j t h q r)) n 0
          s (omega arith) (subst (λ k. P k s) (omega arith) p))

  pub for_cells-Reaches : (s : S) → P 0 s → Reaches (P (n * n)) (for_cells n body s)
  unfolding for_cells
  for_cells-Reaches s p =
      for_loop-Reaches (λ i. P (i * n)) n (λ i. for_loop n 0 (body i)) row n 0 s (omega arith)
        (subst (λ k. P k s) (omega arith) p)

-- `ys` is `xs` with the values of `f` in its first `k` cells.
pub record Updated (f : ℕ → ℕ) (xs : List ℕ) (k : ℕ) (ys : List ℕ) : Type 0 where
  pub same_length : length ys ≡ length xs
  pub values : (m : ℕ) → get_or ys m 0 ≡ (if ltb m k then f m else get_or xs m 0)

module _ (f : ℕ → ℕ) (xs : List ℕ) where
  pub Updated-none : Updated f xs 0 xs
  Updated-none = record { same_length = refl; values = λ m. ground arith }

  -- The cell that is written next still has its old value.
  pub Updated-next : (k : ℕ) (ys : List ℕ) → Updated f xs k ys → get_or ys k 0 ≡ get_or xs k 0
  Updated-next k ys u = u.values k ∙ ground arith

  pub Updated-set :
      (k : ℕ) (ys : List ℕ)
      → k < length xs
      → Updated f xs k ys
      → Updated f xs (k + 1) (set ys k (f k))
  Updated-set k ys h u = record {
    same_length = length-set ys k (f k) ∙ u.same_length;
    values = λ m. elim (ℕ_discrete k m) [
      | yes e ↦
          subst (λ t. get_or (set ys k (f k)) t 0 ≡ (if ltb t (k + 1) then f t else get_or xs t 0))
            e (get_or-set_self ys k (f k) 0 (omega (arith, u.same_length)) ∙ ground arith)
      | no ne ↦ get_or-set_ne ys k m (f k) 0 ne ∙ ground (arith, u.values m)
    ];
  }

  -- Sweeping the cells by writes of `f` gives the values of `f` in all cells of the matrix.
  pub sweep :
      (n : ℕ) (body : ℕ → ℕ → List ℕ → Run (List ℕ))
      → n * n ≤ length xs
      → ((i j : ℕ) (ys : List ℕ)
          → i < n
          → j < n
          → Updated f xs (i * n + j) ys
          → body i j ys ≡ ok (set ys (i * n + j) (f (i * n + j))))
      → Reaches (Updated f xs (n * n)) (for_cells n body xs)
  sweep n body fits writes =
      for_cells-Reaches n (Updated f xs) body
        (λ i j ys p q u. record {
          out = set ys (i * n + j) (f (i * n + j));
          returns = writes i j ys p q u;
          holds = Updated-set (i * n + j) ys (omega (arith, cell-lt n i j p q)) u;
        })
        xs Updated-none
