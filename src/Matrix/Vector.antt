-- ===== src/Matrix/Vector.antt =====
-- The product of the matrix and a vector, and the sum that is taken of a result.
use zr_soc.Common.{
  ℕ, zero, suc, ◌+◌, ◌*◌, ◌^◌, ◌<◌, ◌≤◌, ◌≡◌, refl, ap, ◌∙◌, List, length, get_or, set, arith, ok,
  Reaches, for_loop-Reaches, load-ok, u32,
}
use native.Mathlib.Numerals.{add-one}
use zr_soc.Matrix.{
  cell, product, mul16, matrix_mul_vect, Summing, summing, sum_step, sum_cell, matrix_sum,
}
use zr_soc.Matrix.Sweep.{cell-lt, cell_lem, for_cells-Reaches, Updated, Updated-none, Updated-set}
use zr_soc.Matrix.Products.{sum_to, accumulate_lem}

module _ (n : ℕ) (small : n * n ≤ 2 ^ 32) (C A B : List ℕ) (fits_A : n * n ≤ length A)
    (fits_B : n ≤ length B) (fits_C : n ≤ length C) where
  -- Row i of the matrix times the vector.
  abbrev pub row_product : ℕ → ℕ
  row_product i = u32 (sum_to n (λ j. mul16 (get_or A (i * n + j) 0) (get_or B j 0)))

  term :
      (i j : ℕ)
      → i < n
      → j < n
      → product A B (cell n i j) j ≡ ok (mul16 (get_or A (i * n + j) 0) (get_or B j 0))
  unfolding product
  term i j p q =
      rw
        (
          cell_lem n i j small p q,
          load-ok A (i * n + j) 0 (omega (arith, cell-lt n i j p q)),
          load-ok B j 0 (omega arith),
        )
        refl

  -- `matrix_mul_vect` stays inside the arrays, and leaves in C[i] the sum over j of A[i][j] * B[j],
  -- modulo 2 ^ 32, for each row i, and the rest of C as it was.
  pub matrix_mul_vect-Updated : Reaches (Updated row_product C n) (matrix_mul_vect n C A B)
  unfolding matrix_mul_vect
  matrix_mul_vect-Updated =
      for_loop-Reaches (Updated row_product C) n _
        (λ i ys p u. record {
          out = set ys i (row_product i);
          returns = accumulate_lem n i _ _ ys (λ j q. term i j p q) (omega (arith, u.same_length));
          holds = Updated-set row_product C i ys (omega arith) u;
        })
        n 0 C (omega arith) (Updated-none row_product C)

-- The sum over the first k cells, in order.
unfoldable pub sum_cells : (clipval : ℕ) → List ℕ → ℕ → Summing
sum_cells clipval C zero = summing 0 0 0
sum_cells clipval C (suc k) = sum_step clipval (get_or C k 0) (sum_cells clipval C k)

module _ (n : ℕ) (small : n * n ≤ 2 ^ 32) (C : List ℕ) (clipval : ℕ) (fits : n * n ≤ length C) where
  sum_cell_lem :
      (i j : ℕ) (s : Summing)
      → i < n
      → j < n
      → sum_cell n C clipval i j s ≡ ok (sum_step clipval (get_or C (i * n + j) 0) s)
  unfolding sum_cell
  sum_cell_lem i j s p q =
      rw (cell_lem n i j small p q, load-ok C (i * n + j) 0 (omega (arith, cell-lt n i j p q))) refl

  sum_cells-add_one :
      (k : ℕ)
      → sum_step clipval (get_or C k 0) (sum_cells clipval C k) ≡ sum_cells clipval C (k + 1)
  sum_cells-add_one k = rw add-one (unfold sum_cells in refl)

  -- `matrix_sum` stays inside the array, and is the sum over the N * N cells of the matrix in order.
  pub matrix_sum-sum_cells : matrix_sum n C clipval ≡ ok (sum_cells clipval C (n * n)).ret
  unfolding matrix_sum
  matrix_sum-sum_cells =
      let r =
        for_cells-Reaches n (λ k s. s ≡ sum_cells clipval C k) (sum_cell n C clipval)
          (λ i j s p q e. record {
            out = sum_step clipval (get_or C (i * n + j) 0) s;
            returns = sum_cell_lem i j s p q;
            holds =
                ap (sum_step clipval (get_or C (i * n + j) 0)) e ∙ sum_cells-add_one (i * n + j);
          })
          (summing 0 0 0) (unfold sum_cells in refl) in
      rw r.returns (ap (λ (s : Summing). ok s.ret) r.holds)
