-- ===== src/Main/Split.antt =====
-- The division of the memory in `main` of sw/coremark/core_main.c.
use native.Mathlib.Nat.{mul-add, mul-le-mul_left, div-mul-le_self, div-lt_iff_lt-mul}
use zr_soc.Common.{
  ℕ, zero, suc, ◌+◌, ◌*◌, ◌/◌, ◌^◌, ◌≤◌, ◌<◌, ◌≡◌, ◌≢◌, refl, ◌∙◌, true, false, Bool-cases, inl,
  inr, ne→==, List, [], ◌∷◌, Option, some, none, Run, ok, u32, arith,
}
use zr_soc.LinkedList.Store.{Ptr}
use zr_soc.Main.{executes, count_algorithms, assign_pointers, split_memory}

-- From algorithm `i` on, exactly the algorithms that are executed have a block; the blocks have `size`
-- bytes each, follow one another from `lo` on and end at `hi` at the latest.
abbrev pub Stacked : (execs size hi i lo : ℕ) → List (Option Ptr) → Type 0
Stacked execs size hi i lo [] = i ≡ 3
Stacked execs size hi i lo (none ∷ ps) =
    (executes execs i ≡ false) × Stacked execs size hi (i + 1) lo ps
Stacked execs size hi i lo (some p ∷ ps) =
    (executes execs i ≡ true)
    × (lo ≤ p)
    × (p + size ≤ hi)
    × Stacked execs size hi (i + 1) (p + size) ps

module _ (execs base size total n : ℕ) (fits : size * n ≤ total)
    (inside : base + total < 2 ^ 32) where
  next_block : (j : ℕ) → size * (j + 1) ≡ size * j + size
  next_block j = mul-add size j 1 ∙ omega arith

  below : (j : ℕ) → j < n → size * j + size ≤ total
  below j h = omega (arith, next_block j, many, fits)
    where
      many : size * (j + 1) ≤ size * n
      many = mul-le-mul_left size (omega arith)

  assign_pointers-Stacked :
      (left i j lo : ℕ)
      → i + left ≡ 3
      → j + count_algorithms left i execs ≤ n
      → lo ≤ base + size * j
      → Stacked execs size (base + total) i lo (assign_pointers left i j execs base size)
  unfolding assign_pointers count_algorithms
  assign_pointers-Stacked zero i j lo e h q = omega arith
  assign_pointers-Stacked (suc left) i j lo e h q = elim (Bool-cases (executes execs i)) [
    | inl on ↦
        (let more : j + suc (count_algorithms left (i + 1) execs) ≤ n = rw on at h in
          let room = below j (omega (arith, more)) in
          let at : u32 (base + u32 (size * j)) ≡ base + size * j = omega (arith, room, inside) in
          rw on (
            rw at (
              on,
              q,
              omega (arith, room),
              assign_pointers-Stacked left (i + 1) (j + 1) (base + size * j + size) (omega arith)
                  (omega (arith, more)) (omega (arith, next_block j)),
            )))
    | inr off ↦
        (let same : j + count_algorithms left (i + 1) execs ≤ n = rw off at h in
          rw off (off, assign_pointers-Stacked left (i + 1) j lo (omega arith) same q))
  ]

-- What `main` makes of the memory.
pub record IsSplit (execs base total : ℕ) (r : Run (ℕ × List (Option Ptr))) : Type 0 where
  pub size : ℕ
  pub blocks : List (Option Ptr)
  pub returns : r ≡ ok (size, blocks)
  pub largest : total < (size + 1) * count_algorithms 3 0 execs
  pub stacked : Stacked execs size (base + total) 0 base blocks

-- If at least one of the three algorithms is executed and the memory does not wrap around the addresses,
-- each algorithm that is executed, and no other, gets a block; the blocks are of one size, which is the
-- largest possible, lie inside the memory, and do not overlap.
pub split_memory-IsSplit :
    (execs base total : ℕ)
    → count_algorithms 3 0 execs ≢ 0
    → base + total < 2 ^ 32
    → IsSplit execs base total (split_memory execs base total)
unfolding split_memory
split_memory-IsSplit execs base total some_algorithm inside =
    let n = count_algorithms 3 0 execs in
    record {
      size = total / n;
      blocks = assign_pointers 3 0 0 execs base (total / n);
      returns = rw (ne→== n 0 some_algorithm) refl;
      largest =
          (div-lt_iff_lt-mul {k = n} {x = total} {y = total / n + 1}
              (omega (arith, some_algorithm))).0
            (omega arith);
      stacked =
          assign_pointers-Stacked execs base (total / n) total n (div-mul-le_self total n) inside 3
            0 0 base refl (omega arith) (omega arith);
    }
