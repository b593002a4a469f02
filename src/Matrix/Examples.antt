-- ===== src/Matrix/Examples.antt =====
-- The theorems of the matrix benchmark at matrices of two rows.
use zr_soc.Common.{
  ℕ, zero, suc, ◌≡◌, refl, List, [], ◌∷◌, replicate, arith, ok, Reaches, for_loop, load, store,
}
use zr_soc.Matrix.{
  matrix_mul_vect, matrix_mul_matrix, matrix_mul_matrix_bitextract, matrix_test, for_cells, product,
  accumulate, add_term, cell, mul16,
}
use zr_soc.Matrix.Sweep.{Updated}
use zr_soc.Matrix.Products.{fields, Sums, matrix_mul_matrix-Sums, matrix_mul_matrix_bitextract-Sums}
use zr_soc.Matrix.Vector.{row_product, matrix_mul_vect-Updated}
use zr_soc.Matrix.Test.{IsS16, Tested, matrix_test-Tested}
use zr_soc.Matrix.Init.{core_init_matrix}
use zr_soc.Matrix.Init.Fill.{IsInit, core_init_matrix-IsInit}

abbrev left : List ℕ
left = 1 ∷ 2 ∷ 3 ∷ 0xffff ∷ []

abbrev right : List ℕ
right = 5 ∷ 6 ∷ 7 ∷ 8 ∷ []

abbrev zeros : List ℕ
zeros = replicate 4 0

left-IsS16 : IsS16 left
left-IsS16 zero h = omega arith
left-IsS16 (suc zero) h = omega arith
left-IsS16 (suc (suc zero)) h = omega arith
left-IsS16 (suc (suc (suc zero))) h = omega arith
left-IsS16 (suc (suc (suc (suc m)))) h = absurd (omega arith)

-- The last entry of `left` is -1.
product_of_two : matrix_mul_matrix 2 zeros left right ≡ ok (19 ∷ 22 ∷ 8 ∷ 10 ∷ [])
unfolding matrix_mul_matrix for_cells for_loop load store accumulate add_term product cell mul16
product_of_two = refl

matrix_mul_matrix-Sums_example :
    Reaches
      (Sums 2 (omega arith) zeros left right (omega arith) (omega arith) (omega arith) (λ t. t))
      (matrix_mul_matrix 2 zeros left right)
matrix_mul_matrix-Sums_example =
    matrix_mul_matrix-Sums 2 (omega arith) zeros left right (omega arith) (omega arith)
      (omega arith)

matrix_mul_matrix_bitextract-Sums_example :
    Reaches
      (Sums 2 (omega arith) zeros left right (omega arith) (omega arith) (omega arith) fields)
      (matrix_mul_matrix_bitextract 2 zeros left right)
matrix_mul_matrix_bitextract-Sums_example =
    matrix_mul_matrix_bitextract-Sums 2 (omega arith) zeros left right (omega arith) (omega arith)
      (omega arith)

matrix_mul_vect-Updated_example :
    Reaches
      (Updated
        (row_product 2 (omega arith) zeros left right (omega arith) (omega arith) (omega arith))
        zeros
        2)
      (matrix_mul_vect 2 zeros left right)
matrix_mul_vect-Updated_example =
    matrix_mul_vect-Updated 2 (omega arith) zeros left right (omega arith) (omega arith)
      (omega arith)

matrix_test-Tested_example : Tested left zeros (matrix_test 2 zeros left right 5)
matrix_test-Tested_example =
    matrix_test-Tested 2 5 zeros left right (omega arith) (omega arith) (omega arith) (omega arith)
      left-IsS16 (omega arith)

core_init_matrix-IsInit_example :
    Reaches (IsInit 32 1000 left right) (core_init_matrix 32 1000 7 left right)
core_init_matrix-IsInit_example =
    core_init_matrix-IsInit 32 1000 7 left right (omega arith) (omega arith) (omega arith)
      (omega arith) (omega arith) (omega arith)
