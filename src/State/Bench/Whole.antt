-- ===== src/State/Bench/Whole.antt =====
-- `core_init_state` prepares a block on which `core_bench_state` returns.
use zr_soc.Common.{
  length-replicate, ℕ, zero, suc, ◌+◌, ◌-◌, ◌%◌, ◌^◌, ◌<◌, ◌≤◌, ◌≡◌, refl, ap, ◌∙◌, List, [], ◌∷◌,
  ◌++◌, length, get_or, replicate, length-append, arith, Run, ok, u8,
}
use zr_soc.State.Bench.{core_init_state, core_bench_state}
use zr_soc.State.Bench.Fill.{tokens, Initialised, core_init_state-Initialised}
use zr_soc.State.Bench.Count.{EndsInZeros, Benched, core_bench_state-Benched}

get_or-append :
    (xs ys : List ℕ) (i : ℕ) → length xs ≤ i → get_or (xs ++ ys) i 0 ≡ get_or ys (i - length xs) 0
get_or-append [] ys i h = ap (λ t. get_or ys t 0) (omega arith)
get_or-append (x ∷ xs) ys zero h = absurd (omega arith)
get_or-append (x ∷ xs) ys (suc i) h =
    get_or-append xs ys i (omega arith) ∙ ap (λ t. get_or ys t 0) (omega arith)

get_or-replicate : (n : ℕ) (ys : List ℕ) (i : ℕ) → i < n → get_or (replicate n 0 ++ ys) i 0 ≡ 0
get_or-replicate zero ys i h = absurd (omega arith)
get_or-replicate (suc n) ys zero h = refl
get_or-replicate (suc n) ys (suc i) h = get_or-replicate n ys i (omega arith)

module _ (size seed : ℕ) (tail : List ℕ) {r : Run (List ℕ)} (x : Initialised size seed tail r) where
  abbrev pub text : List ℕ
  text = tokens x.count ((seed + 1) % 2 ^ 16)

  abbrev pub filled : List ℕ
  filled = text ++ (replicate x.zeros 0 ++ tail)

  zero_at : (i : ℕ) → length text ≤ i → i < size → get_or filled i 0 ≡ 0
  zero_at i h k =
      get_or-append text (replicate x.zeros 0 ++ tail) i h
      ∙ get_or-replicate x.zeros tail (i - length text) (omega (arith, x.lengths))

  pub filled-EndsInZeros : EndsInZeros size filled
  filled-EndsInZeros = record {
    room = omega (arith, x.lengths, x.room);
    fits = omega (
      arith,
      x.lengths,
      length-append text (replicate x.zeros 0 ++ tail),
      length-append (replicate x.zeros 0) tail,
      length-replicate {A = ℕ} x.zeros 0,
    );
    last = zero_at (size - 1) (omega (arith, x.lengths, x.room)) (omega (arith, x.lengths, x.room));
    before_last =
        zero_at (size - 2) (omega (arith, x.lengths, x.room)) (omega (arith, x.lengths, x.room));
  }

-- A block that `core_init_state` has filled, from whatever seed, is one on which `core_bench_state`
-- returns for every signed step of two or more and all seeds with equal low bytes, and the benchmark restores
-- it exactly when no byte that it corrupts, and is no comma, turns into a comma.
pub core_init_state-core_bench_state :
    (size seed seed1 seed2 step crc : ℕ) (block tail : List ℕ)
    → length block ≡ size
    → 2 ≤ size
    → size < 2 ^ 32
    → 2 ≤ step
    → step < 2 ^ 15
    → u8 seed1 ≡ u8 seed2
    → (mem : List ℕ) × (core_init_state size seed (block ++ tail) ≡ ok mem)
      × Benched size seed1 step mem (core_bench_state size mem seed1 seed2 step crc)
core_init_state-core_bench_state size seed seed1 seed2 step crc block tail e h small moves forward
      same =
    let x = core_init_state-Initialised size seed block tail e h small in
    (
      filled size seed tail x,
      x.returns,
      core_bench_state-Benched size seed1 seed2 step crc _ moves forward
          (filled-EndsInZeros size seed tail x) same,
    )
