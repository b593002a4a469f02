-- ===== src/State/Bench/Count.antt =====
-- The scan of a whole block ends, and `core_bench_state` returns on a block that ends in two zero bytes.
use native.Mathlib.Nat.{mod-add-mod, mod-eq_of_lt}
use native.Mathlib.Decide.{ℕ_discrete}
use zr_soc.Common.{
  ℕ, zero, suc, ◌+◌, ◌-◌, ◌%◌, ◌^◌, ◌<◌, ◌≤◌, ◌≡◌, refl, sym, ap, ◌∙◌, true, false, List, [], ◌∷◌,
  length, get_or, arith, u8, Run, ok, inl, inr, ◌⊎◌, ◌↔◌, ne→==,
}
use zr_soc.State.{Counts, bump, core_state_transition}
use zr_soc.State.Scan.{HasNul, Scanned, core_state_transition-Scanned}
use zr_soc.State.Bench.{count_tokens, crc_counts, all_states, no_counts, core_bench_state}
use zr_soc.State.Bench.Corrupt.{visited, IsCorrupted}
use zr_soc.State.Bench.Undo.{Survives, IsUndone, corrupt-IsUndone}

count_tokens-returns :
    (fuel : ℕ) (p : List ℕ) (final track : Counts)
    → HasNul p
    → length p < fuel
    → (out : Counts × Counts) × (count_tokens fuel p final track ≡ ok out)
unfolding count_tokens
count_tokens-returns zero p final track h enough = absurd (omega arith)
count_tokens-returns (suc fuel) [] final track h enough = absurd h
count_tokens-returns (suc fuel) (zero ∷ r) final track h enough = ((final, track), refl)
count_tokens-returns (suc fuel) (suc c ∷ r) final track h enough =
    let s : Scanned (length r) (core_state_transition (suc c ∷ r) track) =
      core_state_transition-Scanned track (suc c) r h (omega arith) in
    let rest =
      count_tokens-returns fuel s.out.rest (bump s.out.state final) s.out.counts s.has_nul
        (omega (arith, s.shorter)) in
    (rest.0, rw (s.returns, ne→== (suc c) 0 (omega arith)) rest.1)

HasNul-get_or : (m : List ℕ) (j : ℕ) → j < length m → get_or m j 0 ≡ 0 → HasNul m
HasNul-get_or [] j h e = absurd (omega arith)
HasNul-get_or (zero ∷ m) j h e = tt
HasNul-get_or (suc c ∷ m) zero h e = absurd (omega arith)
HasNul-get_or (suc c ∷ m) (suc j) h e = HasNul-get_or m j (omega arith) e

next-mod : (j step : ℕ) → 2 ≤ step → j % step ≡ 0 → (j + 1) % step ≡ 1
next-mod j step h e =
    sym (mod-add-mod j step 1) ∙ ap (λ (t : ℕ). (t + 1) % step) e ∙ mod-eq_of_lt (omega arith)

-- Two neighbours are not both visited by steps of two and more.
visited-neighbours :
    (blksize step j : ℕ)
    → 2 ≤ step
    → (visited blksize step 0 j ≡ false) ⊎ (visited blksize step 0 (j + 1) ≡ false)
unfolding visited
visited-neighbours blksize step j h = elim (ℕ_discrete (j % step) 0) [
  | yes e ↦ inr (ground (arith, next-mod j step h e))
  | no ne ↦ inl (ground arith)
]

-- The block ends in two zero bytes.
pub record EndsInZeros (blksize : ℕ) (mem : List ℕ) : Type 0 where
  pub room : 2 ≤ blksize
  pub fits : blksize ≤ length mem
  pub last : get_or mem (blksize - 1) 0 ≡ 0
  pub before_last : get_or mem (blksize - 2) 0 ≡ 0

module _ (blksize seed step : ℕ) (mem : List ℕ) (moves : 2 ≤ step)
    (z : EndsInZeros blksize mem) where
  spared :
      {r : Run (List ℕ)} (x : IsCorrupted blksize seed step 0 mem r) (j : ℕ)
      → j < length mem
      → get_or mem j 0 ≡ 0
      → visited blksize step 0 j ≡ false
      → HasNul x.out
  spared x j h e v = HasNul-get_or x.out j (omega (arith, x.same_length)) (x.bytes j ∙ rw v e)

  corrupted-HasNul : {r : Run (List ℕ)} (x : IsCorrupted blksize seed step 0 mem r) → HasNul x.out
  corrupted-HasNul x = elim (visited-neighbours blksize step (blksize - 2) moves) [
    | inl v ↦ spared x (blksize - 2) (omega (arith, z.fits, z.room)) z.before_last v
    | inr v ↦
        spared x (blksize - 2 + 1) (omega (arith, z.fits, z.room))
          (ap (λ t. get_or mem t 0) last_index ∙ z.last) v
  ]
    where
      last_index : blksize - 2 + 1 ≡ blksize - 1
      last_index = omega (arith, z.room)

EndsInZeros-HasNul : (blksize : ℕ) (mem : List ℕ) → EndsInZeros blksize mem → HasNul mem
EndsInZeros-HasNul blksize mem z =
    HasNul-get_or mem (blksize - 1) (omega (arith, z.fits, z.room)) z.last

-- `core_bench_state` returns a checksum and a block, which is the block that it was given exactly when
-- the condition on the bytes holds.
pub record Benched (blksize seed1 step : ℕ) (mem : List ℕ) (result : Run (ℕ × List ℕ))
    : Type 0 where
  pub crc : ℕ
  pub block : List ℕ
  pub returns : result ≡ ok (crc, block)
  pub restored :
      (block ≡ mem) ↔ ((j : ℕ) → visited blksize step 0 j ≡ true → Survives seed1 (get_or mem j 0))

module _ (blksize seed1 seed2 step crc : ℕ) (mem : List ℕ) (moves : 2 ≤ step)
    (forward : step < 2 ^ 15) (z : EndsInZeros blksize mem) (same : u8 seed1 ≡ u8 seed2) where
  -- On a block that ends in two zero bytes, with a step from 2 to 2 ^ 15 - 1 and seeds with equal low bytes,
  -- `core_bench_state` returns: both scans stop inside the block, the corrupted one included. The block is
  -- restored exactly when no byte that is corrupted, and is no comma, turns into a comma.
  pub core_bench_state-Benched :
      Benched blksize seed1 step mem (core_bench_state blksize mem seed1 seed2 step crc)
  unfolding core_bench_state
  core_bench_state-Benched =
      let u : IsUndone blksize seed1 seed2 step (blksize + 1) mem =
        corrupt-IsUndone blksize seed1 seed2 step (omega arith) forward mem z.fits same in
      let nul : HasNul u.once.out = corrupted-HasNul blksize seed1 step mem moves z u.once in
      let a =
        count_tokens-returns (length mem + 1) mem no_counts no_counts
          (EndsInZeros-HasNul blksize mem z) (omega arith) in
      let b =
        count_tokens-returns (length u.once.out + 1) u.once.out a.0.0 a.0.1 nul (omega arith) in
      record {
        crc = crc_counts all_states b.0.0 b.0.1 crc;
        block = u.undone;
        returns = rw (a.1, u.once.returns, b.1, u.second);
        restored = u.restored;
      }
