-- ===== src/Matrix.antt =====
-- The matrix benchmark, sw/coremark/core_matrix.c. The arrays A and B hold `ee_s16` and C holds `ee_s32`
-- values as bit patterns. The products of two `ee_s16` values fit in an `ee_s32`; where a sum of them
-- does not, the pattern wraps.
mod Examples
pub mod Init
pub mod Products
pub mod Vector
pub mod Sweep
pub mod Test
use zr_soc.Common.{
  ℕ, zero, suc, ◌+◌, ◌-◌, ◌*◌, ◌/◌, ◌%◌, ◌^◌, u16, u32, neg16, sext16, is_neg32, slt32, ◌<<<◌,
  ◌>>>◌, bit_and, bit_or, bit_xor, if◌then◌else◌, List, Run, ok, ◌>>=◌, for_loop, load, store,
}
use zr_soc.Crc.{crc16}

-- `(MATRES)x * (MATRES)y` and `x + y`.
unfoldable pub mul16 : ℕ → ℕ → ℕ
mul16 x y = u32 (sext16 x * sext16 y)

-- An index of the matrix, in `ee_u32`.
unfoldable pub cell : ℕ → ℕ → ℕ → ℕ
cell n i j = u32 (i * n + j)

-- `for (i = 0; i < N; i++) for (j = 0; j < N; j++) body(i, j);`
unfoldable pub for_cells {ℓ} : {S : Type ℓ} → ℕ → (ℕ → ℕ → S → Run S) → S → Run S
for_cells n body = for_loop n 0 (λ i. for_loop n 0 (body i))

-- `A[i*N+j] += val`.
unfoldable pub add_cell : (n val i j : ℕ) → List ℕ → Run (List ℕ)
add_cell n val i j xs = load xs (cell n i j) >>= λ x. store xs (cell n i j) (u16 (x + val))

unfoldable pub matrix_add_const : (n : ℕ) → (A : List ℕ) → (val : ℕ) → Run (List ℕ)
matrix_add_const n A val = for_cells n (add_cell n val) A

-- `C[i*N+j] = (MATRES)A[i*N+j] * (MATRES)val`.
unfoldable pub mul_cell : ℕ → List ℕ → ℕ → (i j : ℕ) → List ℕ → Run (List ℕ)
mul_cell n A val i j c = load A (cell n i j) >>= λ a. store c (cell n i j) (mul16 a val)

unfoldable pub matrix_mul_const : (n : ℕ) → (C A : List ℕ) → (val : ℕ) → Run (List ℕ)
matrix_mul_const n C A val = for_cells n (mul_cell n A val) C

-- `C[at] += term(k)`.
unfoldable pub add_term : (at : ℕ) → (ℕ → Run ℕ) → ℕ → List ℕ → Run (List ℕ)
add_term at term k c = term k >>= λ t. load c at >>= λ s. store c at (u32 (s + t))

-- `C[at] = 0; for (k = 0; k < N; k++) C[at] += term(k);`
unfoldable pub accumulate : (n at : ℕ) → (ℕ → Run ℕ) → List ℕ → Run (List ℕ)
accumulate n at term c = store c at 0 >>= for_loop n 0 (add_term at term)

-- `(MATRES)A[ia] * (MATRES)B[ib]`.
unfoldable pub product : (A B : List ℕ) → (ia ib : ℕ) → Run ℕ
product A B ia ib = load A ia >>= λ a. load B ib >>= λ b. ok (mul16 a b)

unfoldable pub matrix_mul_vect : (n : ℕ) → (C A B : List ℕ) → Run (List ℕ)
matrix_mul_vect n C A B = for_loop n 0 (λ i. accumulate n i (λ j. product A B (cell n i j) j)) C

unfoldable pub matrix_mul_matrix : (n : ℕ) → (C A B : List ℕ) → Run (List ℕ)
matrix_mul_matrix n C A B =
    for_cells n (λ i j. accumulate n (cell n i j) (λ k. product A B (cell n i k) (cell n k j))) C

-- `x >> k` of an `ee_s32`, which copies the sign bit.
unfoldable pub sar32 : ℕ → ℕ → ℕ
sar32 x k = if is_neg32 x then (x >>> k) + (2 ^ 32 - 2 ^ (32 - k)) else x >>> k

-- The macro `bit_extract`.
unfoldable pub bit_extract : (x from to : ℕ) → ℕ
bit_extract x from to = bit_and (sar32 x from) (bit_xor 0xffffffff (u32 (0xffffffff <<< to)))

unfoldable pub extracted : ℕ → ℕ
extracted t = u32 (bit_extract t 2 4 * bit_extract t 5 7)

unfoldable pub matrix_mul_matrix_bitextract : (n : ℕ) → (C A B : List ℕ) → Run (List ℕ)
matrix_mul_matrix_bitextract n C A B =
    for_cells n
      (λ i j.
        accumulate n (cell n i j)
          (λ k. product A B (cell n i k) (cell n k j) >>= λ t. ok (extracted t)))
      C

-- `tmp`, `prev` and `ret` of `matrix_sum`.
pub record Summing : Type 0 where
  pub tmp : ℕ
  pub prev : ℕ
  pub ret : ℕ

abbrev pub summing : ℕ → ℕ → ℕ → Summing
summing t p r = record { tmp = t; prev = p; ret = r }

-- The body of the loop for the value `cur`.
unfoldable pub sum_step : (clipval cur : ℕ) → Summing → Summing
sum_step clipval cur s =
    let tmp = u32 (s.tmp + cur) in
    if slt32 (sext16 clipval) tmp
    then summing 0 cur (u16 (s.ret + 10))
    else summing tmp cur (u16 (s.ret + (if slt32 s.prev cur then 1 else 0)))

unfoldable pub sum_cell : ℕ → List ℕ → ℕ → (i j : ℕ) → Summing → Run Summing
sum_cell n C clipval i j s = load C (cell n i j) >>= λ cur. ok (sum_step clipval cur s)

unfoldable pub matrix_sum : (n : ℕ) → (C : List ℕ) → (clipval : ℕ) → Run ℕ
matrix_sum n C clipval = for_cells n (sum_cell n C clipval) (summing 0 0 0) >>= λ s. ok s.ret

-- The macro `matrix_big`, stored into an `ee_s16`.
unfoldable pub matrix_big : ℕ → ℕ
matrix_big x = u16 (bit_or 0xf000 (sext16 x))

-- The arrays that the benchmark works on; B is only read.
pub record Mats : Type 0 where
  pub A : List ℕ
  pub C : List ℕ

-- One of the four products, and the checksum of its sum.
unfoldable pub sum_crc : (n clipval crc : ℕ) → List ℕ → Run ℕ
sum_crc n clipval crc C = matrix_sum n C clipval >>= λ s. ok (crc16 s crc)

unfoldable pub matrix_test : (n : ℕ) → (C A B : List ℕ) → (val : ℕ) → Run (ℕ × Mats)
matrix_test n C A B val =
    let clipval = matrix_big val in
    do
      A1 ← matrix_add_const n A val
      C1 ← matrix_mul_const n C A1 val
      crc1 ← sum_crc n clipval 0 C1
      C2 ← matrix_mul_vect n C1 A1 B
      crc2 ← sum_crc n clipval crc1 C2
      C3 ← matrix_mul_matrix n C2 A1 B
      crc3 ← sum_crc n clipval crc2 C3
      C4 ← matrix_mul_matrix_bitextract n C3 A1 B
      crc4 ← sum_crc n clipval crc3 C4
      A2 ← matrix_add_const n A1 (neg16 val)
      ok (crc4, record { A = A2; C = C4 })

-- `N`, `A`, `B` and `C` of `mat_params`, with the arrays that the pointers lead to.
pub record MatParams : Type 0 where
  pub N : ℕ
  pub A : List ℕ
  pub B : List ℕ
  pub C : List ℕ

unfoldable pub core_bench_matrix : MatParams → (seed crc : ℕ) → Run (ℕ × MatParams)
core_bench_matrix p seed crc = do
  (t, m) ← matrix_test p.N p.C p.A p.B seed
  ok (crc16 t crc, record p { A = m.A; C = m.C })
