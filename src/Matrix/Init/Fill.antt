-- ===== src/Matrix/Init/Fill.antt =====
-- What `core_init_matrix` leaves: the dimension, the places of the arrays and the range of the values.
use zr_soc.Common.{
  ℕ, ◌+◌, ◌-◌, ◌*◌, ◌^◌, ◌<◌, ◌≤◌, ◌≡◌, refl, ◌∙◌, arith, u16, u32, sext16, true, false,
  if◌then◌else◌, ◌==◌, List, length, get_or, set, length-set, get_or-set_self, get_or-set_ne,
  store-ok, bit_and-mask, Reaches,
}
use mathlib.Core.Path.{subst}
use native.Mathlib.Decide.{ℕ_discrete}
use zr_soc.Matrix.{for_cells}
use zr_soc.Matrix.Sweep.{cell-lt, cell_lem, for_cells-Reaches}
use zr_soc.Matrix.Test.{le-square}
use zr_soc.Matrix.Init.{matrix_clip, Filling, fill_cell, Layout, layout, core_init_matrix, rem65536}
use zr_soc.Matrix.Init.Place.{IsDim, dim_loop-IsDim, IsPlaced, layout-IsPlaced}

clip_small : (x : ℕ) → matrix_clip x true < 2 ^ 8
unfolding matrix_clip
clip_small x = omega (arith, bit_and-mask 8 (sext16 x))

clip_medium : (x : ℕ) → matrix_clip x false < 2 ^ 16
unfolding matrix_clip
clip_medium x = omega arith

-- The first `k` cells hold values below a bound.
abbrev pub Below : ℕ → ℕ → List ℕ → Type 0
Below bound k xs = (m : ℕ) → m < k → get_or xs m 0 < bound

Below-set :
    (bound k v : ℕ) (xs : List ℕ)
    → k < length xs
    → v < bound
    → Below bound k xs
    → Below bound (k + 1) (set xs k v)
Below-set bound k v xs inside small h m q = elim (ℕ_discrete k m) [
  | yes e ↦
      subst (λ t. get_or (set xs k v) t 0 < bound) e (rw (get_or-set_self xs k v 0 inside) small)
  | no ne ↦ rw (get_or-set_ne xs k m v 0 ne) (h m (omega arith))
]

pub record IsFilled (A B : List ℕ) (k : ℕ) (f : Filling) : Type 0 where
  pub length_A : length f.A ≡ length A
  pub length_B : length f.B ≡ length B
  pub small : Below (2 ^ 8) k f.A
  pub medium : Below (2 ^ 16) k f.B

module _ (n : ℕ) (A B : List ℕ) (few : n * n ≤ 2 ^ 32) (fits_A : n * n ≤ length A)
    (fits_B : n * n ≤ length B) where
  fill_cell-IsFilled :
      (i j : ℕ) (f : Filling)
      → i < n
      → j < n
      → IsFilled A B (i * n + j) f
      → Reaches (IsFilled A B (i * n + j + 1)) (fill_cell n i j f)
  unfolding fill_cell
  fill_cell-IsFilled i j f p q h =
      let seed = rem65536 (u32 (f.order * f.seed)) in
      let b = matrix_clip (u16 (seed + f.order)) false in
      let a = matrix_clip (u16 (b + f.order)) true in
      let k = i * n + j in
      let in_A : k < length f.A = omega (arith, cell-lt n i j p q, h.length_A) in
      let in_B : k < length f.B = omega (arith, cell-lt n i j p q, h.length_B) in
      record {
        out = record { seed = seed; order = u32 (f.order + 1); A = set f.A k a; B = set f.B k b };
        returns = rw (cell_lem n i j few p q, store-ok f.B k b in_B, store-ok f.A k a in_A);
        holds = record {
          length_A = length-set f.A k a ∙ h.length_A;
          length_B = length-set f.B k b ∙ h.length_B;
          small = Below-set (2 ^ 8) k a f.A in_A (clip_small _) h.small;
          medium = Below-set (2 ^ 16) k b f.B in_B (clip_medium _) h.medium;
        };
      }

  fill-IsFilled :
      (seed : ℕ)
      → Reaches
          (IsFilled A B (n * n))
          (for_cells n (fill_cell n) (record { seed = seed; order = 1; A = A; B = B }))
  fill-IsFilled seed =
      for_cells-Reaches n (IsFilled A B) (fill_cell n) fill_cell-IsFilled _ (record {
        length_A = refl;
        length_B = refl;
        small = λ m h. absurd (omega arith);
        medium = λ m h. absurd (omega arith);
      })

-- The results of the function: the largest dimension for the block, arrays that do not overlap and end
-- within six bytes of the matrices' size, small values in A and medium ones in B.
pub record IsInit (blksize memblk : ℕ) (A B : List ℕ) (out : Layout × Filling) : Type 0 where
  pub fits : out.0.N * out.0.N * 8 < blksize
  pub largest : blksize ≤ (out.0.N + 1) * (out.0.N + 1) * 8
  pub placed : IsPlaced out.0.N memblk out.0
  pub filled : IsFilled A B (out.0.N * out.0.N) out.1

module _ (blksize memblk seed : ℕ) (A B : List ℕ) (some_bytes : 0 < blksize)
    (few : blksize ≤ 2 ^ 31) (address : 0 < memblk) (inside : memblk + blksize + 6 < 2 ^ 32)
    (fits_A : blksize ≤ 8 * length A) (fits_B : blksize ≤ 8 * length B) where
  -- The search gives N + 1.
  dimension :
      (i : ℕ)
      → IsDim blksize i
      → (u32 (i + 2 ^ 32 - 1) ≡ i - 1)
        × ((i - 1) * (i - 1) * 8 < blksize)
        × (blksize ≤ (i - 1 + 1) * (i - 1 + 1) * 8)
  dimension i d =
      let back : i - 1 + 1 ≡ i = omega (arith, d.0) in
      (omega (arith, d.0, d.1, le-square (i - 1)), d.1, rw back d.2)

  -- For a block of at most 2 ^ 31 bytes and memory in which the arrays have room, `core_init_matrix`
  -- returns, with the largest N for which 8 * N * N is below the block's size. A, B and C do not overlap
  -- and end at most six bytes behind the 8 * N * N bytes that they need, A and C are aligned to words,
  -- the cells of A hold values below 2 ^ 8 and those of B values below 2 ^ 16.
  pub core_init_matrix-IsInit :
      Reaches (IsInit blksize memblk A B) (core_init_matrix blksize memblk seed A B)
  unfolding core_init_matrix layout
  core_init_matrix-IsInit =
      let found = dim_loop-IsDim blksize some_bytes few in
      let n = found.out - 1 in
      let d = dimension found.out found.holds in
      let f =
        fill-IsFilled n A B (omega (arith, d.1)) (omega (arith, d.1)) (omega (arith, d.1))
          (if seed == 0 then 1 else seed) in
      record {
        out = (layout n memblk, f.out);
        returns = rw (found.returns, d.0, f.returns);
        holds = record {
          fits = d.1;
          largest = d.2;
          placed = layout-IsPlaced n memblk address (omega (arith, d.1));
          filled = f.holds;
        };
      }
