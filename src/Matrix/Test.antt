-- ===== src/Matrix/Test.antt =====
-- `matrix_test` and `core_bench_matrix` as a whole.
use native.Mathlib.Decide.{dec_lt}
use zr_soc.Common.{
  ℕ, zero, suc, ◌+◌, ◌*◌, ◌^◌, ◌<◌, ◌≤◌, ◌≡◌, refl, ◌∙◌, List, length, get_or, get_or_ext, arith,
  Run, ok, u16, neg16, lt→ltb, le→ltb,
}
use zr_soc.Crc.{crc16}
use zr_soc.Matrix.{matrix_big, sum_crc, Mats, matrix_test}
use zr_soc.Matrix.Sweep.{Updated}
use zr_soc.Matrix.Products.{
  matrix_add_const-Updated, matrix_mul_const-Updated, matrix_mul_matrix-Sums,
  matrix_mul_matrix_bitextract-Sums,
}
use zr_soc.Matrix.Vector.{matrix_mul_vect-Updated, sum_cells, matrix_sum-sum_cells}

-- All cells hold `ee_s16` patterns.
abbrev pub IsS16 : List ℕ → Type 0
IsS16 A = (m : ℕ) → m < length A → get_or A m 0 < 2 ^ 16

sub_back : (a v : ℕ) → a < 2 ^ 16 → v < 2 ^ 16 → u16 (u16 (a + v) + neg16 v) ≡ a
sub_back a v p q = omega arith

sum_crc_lem :
    (n clipval crc : ℕ) (C : List ℕ)
    → n * n ≤ 2 ^ 32
    → n * n ≤ length C
    → sum_crc n clipval crc C ≡ ok (crc16 (sum_cells clipval C (n * n)).ret crc)
unfolding sum_crc
sum_crc_lem n clipval crc C small fits = rw (matrix_sum-sum_cells n small C clipval fits)

module _ (n val : ℕ) (A : List ℕ) (small : n * n ≤ 2 ^ 32) (fits : n * n ≤ length A)
    (words : IsS16 A) (word : val < 2 ^ 16) where
  -- Adding a constant and then its negative gives the matrix back.
  add_back :
      {A1 A2 : List ℕ}
      → Updated (λ m. u16 (get_or A m 0 + val)) A (n * n) A1
      → Updated (λ m. u16 (get_or A1 m 0 + neg16 val)) A1 (n * n) A2
      → A2 ≡ A
  add_back {A1} {A2} u v = get_or_ext 0 A2 A (v.same_length ∙ u.same_length) λ m h.
      elim (dec_lt m (n * n)) [
        | yes k ↦
            v.values m
            ∙ rw (lt→ltb m (n * n) k) (
                rw (u.values m) (
                  rw (lt→ltb m (n * n) k) (
                    sub_back (get_or A m 0) val
                      (words m (omega (arith, v.same_length, u.same_length))) word)))
        | no k ↦
            v.values m
            ∙ rw (le→ltb m (n * n) (omega arith))
                (u.values m ∙ rw (le→ltb m (n * n) (omega arith)) refl)
      ]

pub le-square : (n : ℕ) → n ≤ n * n
le-square zero = omega arith
le-square (suc n) = grind arith

-- The benchmark has returned a checksum, A is as it was, and C has its old length.
pub record Tested (A C : List ℕ) (result : Run (ℕ × Mats)) : Type 0 where
  pub crc : ℕ
  pub product : List ℕ
  pub returns : result ≡ ok (crc, record { A = A; C = product })
  pub same_length : length product ≡ length C

module _ (n val : ℕ) (C A B : List ℕ) (small : n * n ≤ 2 ^ 32) (fits_A : n * n ≤ length A)
    (fits_B : n * n ≤ length B) (fits_C : n * n ≤ length C) (words : IsS16 A)
    (word : val < 2 ^ 16) where
  -- With arrays of at least N * N cells and `ee_s16` patterns in A, `matrix_test` returns: it stays inside
  -- the arrays, and after all its steps A holds what it held before.
  pub matrix_test-Tested : Tested A C (matrix_test n C A B val)
  unfolding matrix_test
  matrix_test-Tested =
      let clip = matrix_big val in
      let a1 = matrix_add_const-Updated n small A val fits_A in
      let len1 : n * n ≤ length a1.out = omega (arith, a1.holds.same_length) in
      let c1 = matrix_mul_const-Updated n small C a1.out val len1 fits_C in
      let fit1 : n * n ≤ length c1.out = omega (arith, c1.holds.same_length) in
      let c2 =
        matrix_mul_vect-Updated n small c1.out a1.out B len1 (omega (arith, le-square n))
          (omega (arith, le-square n)) in
      let fit2 : n * n ≤ length c2.out = omega (arith, c2.holds.same_length) in
      let c3 = matrix_mul_matrix-Sums n small c2.out a1.out B len1 fits_B fit2 in
      let fit3 : n * n ≤ length c3.out = omega (arith, c3.holds.0) in
      let c4 = matrix_mul_matrix_bitextract-Sums n small c3.out a1.out B len1 fits_B fit3 in
      let fit4 : n * n ≤ length c4.out = omega (arith, c4.holds.0) in
      let a2 = matrix_add_const-Updated n small a1.out (neg16 val) len1 in
      record {
        crc = crc16 (sum_cells clip c4.out (n * n)).ret (
            crc16 (sum_cells clip c3.out (n * n)).ret (
              crc16 (sum_cells clip c2.out (n * n)).ret
                (crc16 (sum_cells clip c1.out (n * n)).ret 0)));
        product = c4.out;
        returns = rw (
          a1.returns,
          c1.returns,
          sum_crc_lem n clip 0 c1.out small fit1,
          c2.returns,
          sum_crc_lem n clip _ c2.out small fit2,
          c3.returns,
          sum_crc_lem n clip _ c3.out small fit3,
          c4.returns,
          sum_crc_lem n clip _ c4.out small fit4,
          a2.returns,
          add_back n val A small fits_A words word a1.holds a2.holds,
        );
        same_length = c4.holds.0 ∙ c3.holds.0 ∙ c2.holds.same_length ∙ c1.holds.same_length;
      }
