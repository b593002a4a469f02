-- ===== src/Matrix/Init/Place.antt =====
-- The dimension that `core_init_matrix` finds is the largest that fits, and where the arrays lie.
use zr_soc.Common.{
  ℕ, zero, suc, ◌+◌, ◌-◌, ◌*◌, ◌/◌, ◌%◌, ◌^◌, ◌<◌, ◌≤◌, ◌≡◌, refl, ap, arith, lt→ltb, le→ltb,
  bit_and_step, bit_and-mask, u32, Reaches,
}
use native.Mathlib.Numerals.{add-one}
use native.Mathlib.Decide.{dec_lt}
use native.Mathlib.Nat.{mul-le-mul}
use zr_soc.Matrix.Test.{le-square}
use zr_soc.Matrix.Init.{align_mem, dim_loop, Layout, layout}

-- `align_mem` rounds up to a multiple of four.
pub align_mem_lem :
    (x : ℕ)
    → 0 < x
    → x + 3 < 2 ^ 32
    → (align_mem x % 4 ≡ 0) × (x ≤ align_mem x) × (align_mem x < x + 4)
unfolding align_mem
align_mem_lem x p q = omega (
  arith,
  bit_and_step (u32 (x + 2 ^ 32 - 1)) 0xfffffffc,
  bit_and_step (u32 (x + 2 ^ 32 - 1) / 2) 0x7ffffffe,
  bit_and-mask 30 (u32 (x + 2 ^ 32 - 1) / 2 / 2),
)

-- The dimension that the search ends with: one less is too small for the block to be filled.
abbrev pub IsDim : ℕ → ℕ → Type 0
IsDim blksize i = (0 < i) × ((i - 1) * (i - 1) * 8 < blksize) × (blksize ≤ i * i * 8)

small_root : (k : ℕ) → k * k * 8 < 2 ^ 31 → k < 16384
small_root k h = elim (dec_lt k 16384) [ yes q ↦ q | no q ↦ absurd (too_big (omega arith)) ]
  where
    too_big : 16384 ≤ k → ⊥
    too_big q = omega (arith, mul-le-mul q q)

small_square : (k : ℕ) → k ≤ 16384 → k * k ≤ 2 ^ 28
small_square k q = mul-le-mul q q

dim_loop-Reaches :
    (fuel i blksize : ℕ)
    → blksize ≤ 2 ^ 31
    → 0 < i
    → (i - 1) * (i - 1) * 8 < blksize
    → blksize < fuel + i
    → Reaches (IsDim blksize) (dim_loop fuel i (u32 (i * i * 2 * 4)) blksize)
unfolding dim_loop
dim_loop-Reaches zero i blksize small pos prev enough = absurd (omega (arith, le-square (i - 1)))
dim_loop-Reaches (suc fuel) i blksize small pos prev enough =
    let root : i - 1 < 16384 = small_root (i - 1) (omega arith) in
    let square : i * i ≤ 2 ^ 28 = small_square i (omega arith) in
    elim (dec_lt (u32 (i * i * 2 * 4)) blksize) [
      | yes h ↦
          rw (lt→ltb (u32 (i * i * 2 * 4)) blksize h, unwrapped i square root)
            (dim_loop-Reaches fuel (i + 1) blksize small (omega arith) (rw (back i) (omega arith))
              (omega arith))
      | no h ↦
          rw (le→ltb (u32 (i * i * 2 * 4)) blksize (omega arith))
            (record { out = i; returns = refl; holds = (pos, prev, omega arith) })
    ]
  where
    back : (i : ℕ) → i + 1 - 1 ≡ i
    back i = omega arith

    unwrapped : (i : ℕ) → i * i ≤ 2 ^ 28 → i - 1 < 16384 → u32 (i + 1) ≡ i + 1
    unwrapped i h k = omega arith

-- The search for the dimension ends, with the least i for which 8 * i * i is at least the block's size.
pub dim_loop-IsDim :
    (blksize : ℕ)
    → 0 < blksize
    → blksize ≤ 2 ^ 31
    → Reaches (IsDim blksize) (dim_loop (blksize + 1) 0 0 blksize)
dim_loop-IsDim blksize pos small =
    rw first (dim_loop-Reaches blksize 1 blksize small (omega arith) pos (omega arith))
  where
    first : dim_loop (blksize + 1) 0 0 blksize ≡ dim_loop blksize 1 (u32 (1 * 1 * 2 * 4)) blksize
    first = rw add-one (unfold dim_loop in rw (lt→ltb 0 blksize pos))

-- Where the arrays of an N * N matrix lie for a block of `blksize` bytes at `memblk`: A and C on words,
-- B directly behind A, C behind B, and all of them within six bytes of the size of the matrix.
pub record IsPlaced (n memblk : ℕ) (l : Layout) : Type 0 where
  pub a_aligned : l.a % 4 ≡ 0
  pub c_aligned : l.c % 4 ≡ 0
  pub a_inside : memblk ≤ l.a
  pub b_behind : l.b ≡ l.a + 2 * (n * n)
  pub c_behind : l.b + 2 * (n * n) ≤ l.c
  pub end : l.c + 4 * (n * n) ≤ memblk + 8 * (n * n) + 6

pub layout-IsPlaced :
    (n memblk : ℕ)
    → 0 < memblk
    → memblk + 8 * (n * n) + 6 < 2 ^ 32
    → IsPlaced n memblk (layout n memblk)
unfolding layout
layout-IsPlaced n memblk pos small =
    let a = align_mem_lem memblk pos (omega arith) in
    let b : u32 (align_mem memblk + 2 * u32 (n * n)) ≡ align_mem memblk + 2 * (n * n) =
      omega (arith, a) in
    let e : u32 (u32 (align_mem memblk + 2 * u32 (n * n)) + 2 * u32 (n * n))
        ≡ align_mem memblk + 4 * (n * n) =
      omega (arith, a, b) in
    let c = align_mem_lem (align_mem memblk + 4 * (n * n)) (omega (arith, a)) (omega (arith, a)) in
    record {
      a_aligned = a.0;
      c_aligned = rw e c.0;
      a_inside = a.1;
      b_behind = b;
      c_behind = omega (arith, b, c, ap align_mem e);
      end = rw e (omega (arith, a, c));
    }
