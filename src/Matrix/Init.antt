-- ===== src/Matrix/Init.antt =====
-- `core_init_matrix` of sw/coremark/core_matrix.c and `align_mem` of
-- sw/coremark/barebone-arty-a7/core_portme.h. Addresses are numbers below 2 ^ 32.
pub mod Fill
pub mod Place
use zr_soc.Common.{
  ℕ, zero, suc, ◌+◌, ◌-◌, ◌*◌, ◌%◌, ◌^◌, u16, u32, neg32, sext16, is_neg32, bit_and, ltb, ◌==◌,
  if◌then◌else◌, Bool, true, false, List, Run, ok, out_of_fuel, ◌>>=◌, store,
}
use zr_soc.Matrix.{cell, for_cells}

-- The macro `align_mem`.
unfoldable pub align_mem : ℕ → ℕ
align_mem x = u32 (4 + bit_and (u32 (x + 2 ^ 32 - 1)) 0xfffffffc)

-- `while (j < blksize) { i++; j = i * i * 2 * 4; }`, which leaves `i`.
unfoldable pub dim_loop : ℕ → (i j blksize : ℕ) → Run ℕ
dim_loop zero i j blksize = out_of_fuel
dim_loop (suc fuel) i j blksize =
    let i' = u32 (i + 1) in
    let rest = dim_loop fuel i' (u32 (i' * i' * 2 * 4)) blksize in
    if ltb j blksize then rest else ok i

-- `x % 65536` of an `ee_s32`, which has the sign of `x`.
unfoldable pub rem65536 : ℕ → ℕ
rem65536 x = if is_neg32 x then neg32 (neg32 x % 65536) else x % 65536

-- The macro `matrix_clip` of an `ee_s16`, stored into one.
unfoldable pub matrix_clip : ℕ → Bool → ℕ
matrix_clip x y = u16 (if y then bit_and (sext16 x) 0x0ff else bit_and (sext16 x) 0x0ffff)

-- The variables of the filling loops.
pub record Filling : Type 0 where
  pub seed : ℕ
  pub order : ℕ
  pub A : List ℕ
  pub B : List ℕ

unfoldable pub fill_cell : (n i j : ℕ) → Filling → Run Filling
fill_cell n i j f =
    let seed = rem65536 (u32 (f.order * f.seed)) in
    let b = matrix_clip (u16 (seed + f.order)) false in
    let a = matrix_clip (u16 (b + f.order)) true in
    do
      B ← store f.B (cell n i j) b
      A ← store f.A (cell n i j) a
      ok (record { seed = seed; order = u32 (f.order + 1); A = A; B = B })

-- `N` and the addresses of `A`, `B` and `C`.
pub record Layout : Type 0 where
  pub N : ℕ
  pub a : ℕ
  pub b : ℕ
  pub c : ℕ

unfoldable pub layout : (n memblk : ℕ) → Layout
layout n memblk =
    let a = align_mem memblk in
    let b = u32 (a + 2 * u32 (n * n)) in
    record { N = n; a = a; b = b; c = align_mem (u32 (b + 2 * u32 (n * n))) }

-- The function on a block at `memblk`, in which the arrays at `A` and `B` hold `A` and `B` before. The
-- search for the dimension gets a round for each byte of the block and one more.
unfoldable pub core_init_matrix :
    (blksize memblk seed : ℕ) → (A B : List ℕ) → Run (Layout × Filling)
core_init_matrix blksize memblk seed A B = do
  i ← dim_loop (blksize + 1) 0 0 blksize
  let n = u32 (i + 2 ^ 32 - 1)
  f ←
      for_cells n (fill_cell n)
        (record { seed = (if seed == 0 then 1 else seed); order = 1; A = A; B = B })
  ok (layout n memblk, f)
