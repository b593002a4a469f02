-- ===== src/Matrix/Products.antt =====
-- What the four products and the addition of a constant leave in the cells of the matrix.
use native.Mathlib.Numerals.{add-one}
use zr_soc.Common.{
  ℕ, zero, suc, ◌+◌, ◌*◌, ◌/◌, ◌%◌, ◌^◌, ◌<◌, ◌≤◌, ◌≡◌, refl, sym, ap, ap₂, ◌∙◌, List, [], ◌∷◌,
  length, get_or, set, length-set, get_or-set_self, arith, Run, ok, Reaches, for_loop-Reaches,
  load-ok, store-ok, bit_and-mask, u16, u32, lt→ltb, le→ltb,
}
use zr_soc.Matrix.{
  cell, for_cells, add_cell, matrix_add_const, mul_cell, matrix_mul_const, add_term, accumulate,
  product, mul16, matrix_mul_matrix, extracted, bit_extract, sar32, matrix_mul_matrix_bitextract,
}
use zr_soc.Matrix.Sweep.{cell-lt, cell_lem, Updated, Updated-next, sweep}

-- The sum of the terms 0, ..., n - 1.
unfoldable pub sum_to : ℕ → (ℕ → ℕ) → ℕ
sum_to zero t = 0
sum_to (suc n) t = sum_to n t + t n

sum_to-add_one : (k : ℕ) (t : ℕ → ℕ) → sum_to (k + 1) t ≡ sum_to k t + t k
sum_to-add_one k t = rw add-one (unfold sum_to in refl)

set-set : (xs : List ℕ) (i v w : ℕ) → set (set xs i v) i w ≡ set xs i w
set-set [] i v w = refl
set-set (x ∷ xs) zero v w = refl
set-set (x ∷ xs) (suc i) v w = ap (◌∷◌ x) (set-set xs i v w)

add_term_lem :
    (at : ℕ) (term : ℕ → Run ℕ) (k : ℕ) (c : List ℕ) (t s : ℕ)
    → term k ≡ ok t
    → at < length c
    → add_term at term k (set c at (u32 s)) ≡ ok (set c at (u32 (s + t)))
unfolding add_term
add_term_lem at term k c t s e h =
    rw
      (
        e,
        load-ok (set c at (u32 s)) at 0 (omega (arith, length-set c at (u32 s))),
        get_or-set_self c at (u32 s) 0 h,
        store-ok (set c at (u32 s)) at (u32 (u32 s + t)) (omega (arith, length-set c at (u32 s))),
        set-set c at (u32 s) (u32 (u32 s + t)),
      )
      (ap (λ v. ok (set c at v)) (omega arith))

-- An accumulated cell holds the sum of its terms, up to the wrap.
pub accumulate_lem :
    (n at : ℕ) (term : ℕ → Run ℕ) (t : ℕ → ℕ) (c : List ℕ)
    → ((k : ℕ) → k < n → term k ≡ ok (t k))
    → at < length c
    → accumulate n at term c ≡ ok (set c at (u32 (sum_to n t)))
unfolding accumulate
accumulate_lem n at term t c terms h =
    let r =
      for_loop-Reaches (λ k s. s ≡ set c at (u32 (sum_to k t))) n (add_term at term)
        (λ k s q e. record {
          out = set c at (u32 (sum_to k t + t k));
          returns =
              ap (add_term at term k) e ∙ add_term_lem at term k c (t k) (sum_to k t) (terms k q) h;
          holds = rw (sum_to-add_one k t);
        })
        n 0 (set c at 0) (omega arith) (unfold sum_to in refl) in
    rw (store-ok c at 0 h) (r.returns ∙ ap ok r.holds)

-- The product of the field of four bits from bit 2 on and of the field of seven bits from bit 5 on.
abbrev pub fields : ℕ → ℕ
fields t = (t / 2 ^ 2 % 2 ^ 4) * (t / 2 ^ 5 % 2 ^ 7) % 2 ^ 32

-- The shift copies the sign bit above the fields.
field_4 : (t : ℕ) → bit_extract t 2 4 ≡ t / 2 ^ 2 % 2 ^ 4
unfolding bit_extract sar32
field_4 t = bit_and-mask 4 (sar32 t 2) ∙ ground arith

field_7 : (t : ℕ) → bit_extract t 5 7 ≡ t / 2 ^ 5 % 2 ^ 7
unfolding bit_extract sar32
field_7 t = bit_and-mask 7 (sar32 t 5) ∙ ground arith

extracted_lem : (t : ℕ) → extracted t ≡ fields t
unfolding extracted
extracted_lem t = rw (field_4 t, field_7 t)

module _ (n : ℕ) (small : n * n ≤ 2 ^ 32) where
  module _ (A : List ℕ) (val : ℕ) (fits : n * n ≤ length A) where
    abbrev pub added : ℕ → ℕ
    added m = u16 (get_or A m 0 + val)

    add_cell_lem :
        (i j : ℕ) (ys : List ℕ)
        → i < n
        → j < n
        → Updated added A (i * n + j) ys
        → add_cell n val i j ys ≡ ok (set ys (i * n + j) (added (i * n + j)))
    unfolding add_cell
    add_cell_lem i j ys p q u =
        let inside : i * n + j < length ys = omega (arith, cell-lt n i j p q, u.same_length) in
        rw
          (
            cell_lem n i j small p q,
            load-ok ys (i * n + j) 0 inside,
            Updated-next added A (i * n + j) ys u,
          )
          (store-ok ys (i * n + j) (added (i * n + j)) inside)

    -- Every cell of the matrix has the constant added, and nothing else has changed.
    pub matrix_add_const-Updated : Reaches (Updated added A (n * n)) (matrix_add_const n A val)
    unfolding matrix_add_const
    matrix_add_const-Updated = sweep added A n (add_cell n val) fits add_cell_lem

  module _ (C A : List ℕ) (val : ℕ) (fits_A : n * n ≤ length A) (fits_C : n * n ≤ length C) where
    abbrev pub scaled : ℕ → ℕ
    scaled m = mul16 (get_or A m 0) val

    mul_cell_lem :
        (i j : ℕ) (ys : List ℕ)
        → i < n
        → j < n
        → Updated scaled C (i * n + j) ys
        → mul_cell n A val i j ys ≡ ok (set ys (i * n + j) (scaled (i * n + j)))
    unfolding mul_cell
    mul_cell_lem i j ys p q u =
        rw (cell_lem n i j small p q, load-ok A (i * n + j) 0 (omega (arith, cell-lt n i j p q)))
          (store-ok ys (i * n + j) (scaled (i * n + j))
            (omega (arith, cell-lt n i j p q, u.same_length)))

    pub matrix_mul_const-Updated : Reaches (Updated scaled C (n * n)) (matrix_mul_const n C A val)
    unfolding matrix_mul_const
    matrix_mul_const-Updated = sweep scaled C n (mul_cell n A val) fits_C mul_cell_lem

  module _ (C A B : List ℕ) (fits_A : n * n ≤ length A) (fits_B : n * n ≤ length B)
      (fits_C : n * n ≤ length C) where
    -- The terms of the product of row i and column j.
    abbrev pub entry : ℕ → ℕ → ℕ → ℕ
    entry i j k = mul16 (get_or A (i * n + k) 0) (get_or B (k * n + j) 0)

    product_lem :
        (i j k : ℕ)
        → i < n
        → j < n
        → k < n
        → product A B (cell n i k) (cell n k j) ≡ ok (entry i j k)
    unfolding product
    product_lem i j k p q r =
        rw
          (
            cell_lem n i k small p r,
            cell_lem n k j small r q,
            load-ok A (i * n + k) 0 (omega (arith, cell-lt n i k p r)),
            load-ok B (k * n + j) 0 (omega (arith, cell-lt n k j r q)),
          )
          refl

    -- The sum of a function of the products, in the cell of row i and column j.
    abbrev summed : (ℕ → ℕ) → ℕ → ℕ
    summed g m = u32 (sum_to n (λ k. g (entry (m / n) (m % n) k)))

    row_of : (i j : ℕ) → j < n → (i * n + j) / n ≡ i
    row_of i j h = grind arith

    column_of : (i j : ℕ) → j < n → (i * n + j) % n ≡ j
    column_of i j h = grind arith

    module _ (g : ℕ → ℕ) where
      -- A sweep that accumulates a function of the products.
      sweep_products :
          (term : ℕ → ℕ → ℕ → Run ℕ)
          → ((i j k : ℕ) → i < n → j < n → k < n → term i j k ≡ ok (g (entry i j k)))
          → Reaches
              (Updated (summed g) C (n * n))
              (for_cells n (λ i j. accumulate n (cell n i j) (term i j)) C)
      sweep_products term terms =
          sweep (summed g) C n (λ i j. accumulate n (cell n i j) (term i j)) fits_C
            λ i j ys p q u. rw (cell_lem n i j small p q) (
              accumulate_lem n (i * n + j) (term i j) (λ k. g (entry i j k)) ys
                (λ k r. terms i j k p q r) (omega (arith, cell-lt n i j p q, u.same_length))
              ∙ ap₂ (λ r c. ok (set ys (i * n + j) (u32 (sum_to n (λ k. g (entry r c k))))))
                  (sym (row_of i j q)) (sym (column_of i j q)))

      -- The matrix holds the sums, and the rest of C is as it was.
      abbrev pub Sums : List ℕ → Type 0
      Sums c =
          (length c ≡ length C)
          × ((i j : ℕ)
              → i < n
              → j < n
              → get_or c (i * n + j) 0 ≡ u32 (sum_to n (λ k. g (entry i j k))))
          × ((m : ℕ) → n * n ≤ m → get_or c m 0 ≡ get_or C m 0)

      Updated-Sums : (c : List ℕ) → Updated (summed g) C (n * n) c → Sums c
      Updated-Sums c u = (
        u.same_length,
        λ i j p q.
            u.values (i * n + j)
            ∙ rw (lt→ltb (i * n + j) (n * n) (cell-lt n i j p q)) refl
            ∙ ap₂ (λ r l. u32 (sum_to n (λ k. g (entry r l k)))) (row_of i j q) (column_of i j q),
        λ m h. u.values m ∙ rw (le→ltb m (n * n) h) refl,
      )

      Reaches-Sums : {r : Run (List ℕ)} → Reaches (Updated (summed g) C (n * n)) r → Reaches Sums r
      Reaches-Sums x = record {
        out = x.out;
        returns = x.returns;
        holds = Updated-Sums x.out x.holds;
      }

    -- `matrix_mul_matrix` stays inside the arrays, and leaves in C the product of the matrices A and B: in
    -- row i and column j the sum over k of A[i][k] * B[k][j], modulo 2 ^ 32, and the rest of C as it was.
    pub matrix_mul_matrix-Sums : Reaches (Sums (λ t. t)) (matrix_mul_matrix n C A B)
    unfolding matrix_mul_matrix
    matrix_mul_matrix-Sums =
        Reaches-Sums (λ t. t)
          (sweep_products (λ t. t) (λ i j k. product A B (cell n i k) (cell n k j)) product_lem)

    -- `matrix_mul_matrix_bitextract` stays inside the arrays, and leaves in row i and column j of C the sum
    -- over k of the product of two fields of A[i][k] * B[k][j], bits 2 to 5 and bits 5 to 11, modulo 2 ^ 32,
    -- and the rest of C as it was.
    pub matrix_mul_matrix_bitextract-Sums :
        Reaches (Sums fields) (matrix_mul_matrix_bitextract n C A B)
    unfolding matrix_mul_matrix_bitextract
    matrix_mul_matrix_bitextract-Sums = Reaches-Sums fields (
        sweep_products fields _
          (λ i j k p q r. rw (product_lem i j k p q r) (ap ok (extracted_lem _))))
