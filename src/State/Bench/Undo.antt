-- ===== src/State/Bench/Undo.antt =====
-- When the second corruption loop of `core_bench_state` undoes the first.
use native.Mathlib.Decide.{ℕ_discrete}
use zr_soc.Common.{
  ◌^◌, ℕ, ◌+◌, ◌<◌, ◌≤◌, ◌≡◌, ◌≢◌, refl, sym, ap, ◌∙◌, true, false, List, length, get_or, arith, u8,
  ok, bit_xor, bit_xor_cancel, get_or_ext, eq→==, ne→==, ◌↔◌, inl, inr, Bool-cases,
}
use zr_soc.State.Bench.{flip, corrupt}
use zr_soc.State.Bench.Corrupt.{visited, IsCorrupted, corrupt-IsCorrupted}

-- A byte survives the two flips unless the first one turns it into a comma.
abbrev pub Survives : ℕ → ℕ → Type 0
Survives seed c = c ≢ b',' → bit_xor c (u8 seed) ≢ b','

flip-flip : (seed c : ℕ) → (flip seed (flip seed c) ≡ c) ↔ Survives seed c
unfolding flip
flip-flip seed c = elim (ℕ_discrete c b',') [
  | yes e ↦ (λ _ ne. absurd (ne e), λ _. rw (eq→== c b',' e, eq→== c b',' e))
  | no ne ↦ elim (ℕ_discrete (bit_xor c (u8 seed)) b',') [
    | yes f ↦ (
      λ back.
          absurd (ne (sym (rw (ne→== c b',' ne, eq→== (bit_xor c (u8 seed)) b',' f) at back) ∙ f)),
      λ h. absurd (h ne f),
    )
    | no nf ↦ (
      λ _ _. nf,
      λ _. rw (ne→== c b',' ne, ne→== (bit_xor c (u8 seed)) b',' nf) (bit_xor_cancel c (u8 seed)),
    )
  ]
]

flip_eq : (seed seed' c : ℕ) → u8 seed ≡ u8 seed' → flip seed c ≡ flip seed' c
unfolding flip
flip_eq seed seed' c e = rw e

-- What the two loops make of the block, and when that is the block again.
pub record IsUndone (blksize seed1 seed2 step fuel : ℕ) (mem : List ℕ) : Type 0 where
  pub once : IsCorrupted blksize seed1 step 0 mem (corrupt fuel blksize seed1 step mem 0)
  pub undone : List ℕ
  pub second : corrupt fuel blksize seed2 step once.out 0 ≡ ok undone
  pub restored :
      (undone ≡ mem) ↔ ((j : ℕ) → visited blksize step 0 j ≡ true → Survives seed1 (get_or mem j 0))

module _ (blksize seed1 seed2 step : ℕ) (moves : 0 < step) (forward : step < 2 ^ 15) (mem : List ℕ)
    (fits : blksize ≤ length mem) (same : u8 seed1 ≡ u8 seed2) where
  corrupt_once :
      IsCorrupted blksize seed1 step 0 mem (corrupt (blksize + 1) blksize seed1 step mem 0)
  corrupt_once =
      corrupt-IsCorrupted blksize seed1 step moves forward (blksize + 1) 0 mem fits (omega arith)

  corrupt_again :
      IsCorrupted blksize seed2 step 0 corrupt_once.out
        (corrupt (blksize + 1) blksize seed2 step corrupt_once.out 0)
  corrupt_again =
      corrupt-IsCorrupted blksize seed2 step moves forward (blksize + 1) 0 corrupt_once.out
        (omega (arith, corrupt_once.same_length)) (omega arith)

  twice_visited :
      (j : ℕ)
      → visited blksize step 0 j ≡ true
      → get_or corrupt_again.out j 0 ≡ flip seed1 (flip seed1 (get_or mem j 0))
  twice_visited j v =
      corrupt_again.bytes j
      ∙ rw v (rw (corrupt_once.bytes j) (rw v (flip_eq seed2 seed1 _ (sym same))))

  not_visited :
      (j : ℕ) → visited blksize step 0 j ≡ false → get_or corrupt_again.out j 0 ≡ get_or mem j 0
  not_visited j v = corrupt_again.bytes j ∙ rw v (rw (corrupt_once.bytes j) (rw v refl))

  restored_byte :
      ((j : ℕ) → visited blksize step 0 j ≡ true → Survives seed1 (get_or mem j 0))
      → (j : ℕ) → get_or corrupt_again.out j 0 ≡ get_or mem j 0
  restored_byte h j = elim (Bool-cases (visited blksize step 0 j)) [
    | inl v ↦ twice_visited j v ∙ (flip-flip seed1 (get_or mem j 0)).1 (h j v)
    | inr v ↦ not_visited j v
  ]

  -- When the low bytes of the two seeds are equal, both corruption loops return inside the block, and the
  -- second one restores it exactly when the first turns no byte that it changes into a comma.
  pub corrupt-IsUndone : IsUndone blksize seed1 seed2 step (blksize + 1) mem
  corrupt-IsUndone = record {
    once = corrupt_once;
    undone = corrupt_again.out;
    second = corrupt_again.returns;
    restored = (
      λ e j v.
          (flip-flip seed1 (get_or mem j 0)).0 (sym (twice_visited j v) ∙ ap (λ t. get_or t j 0) e),
      λ h.
          get_or_ext 0 corrupt_again.out mem (corrupt_again.same_length ∙ corrupt_once.same_length)
            (λ j _. restored_byte h j),
    );
  }
