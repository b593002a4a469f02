-- ===== src/State/Bench/Fill.antt =====
-- `core_init_state`: the block is filled with whole patterns, each behind a comma, and zero bytes.
pub mod Write
pub mod Rounds
use mathlib.Core.List.{append_assoc}
use native.Mathlib.Decide.{dec_lt}
use zr_soc.Common.{
  ℕ, zero, suc, ◌+◌, ◌-◌, ◌/◌, ◌%◌, ◌^◌, ◌<◌, ◌≤◌, ◌≡◌, refl, sym, ap, ap₂, ◌∙◌, List, [], ◌∷◌,
  ◌++◌, length, length-append, replicate, arith, Run, ok, ◌>>=◌, ltb, lt→ltb, le→ltb, if◌then◌else◌,
  u32, true, false, Bool, bit_and-mask, bit_and,
}
use zr_soc.State.Bench.{
  Pattern, pattern_of, choose, intpat, floatpat, scipat, errpat, fill_loop, zero_loop, put_pattern,
  core_init_state,
}
use Write.{put_pattern-append, zero_loop-append, Split, split}
pub use Rounds.{tokens}
use Rounds.{Filled, fill_loop-first}

-- The block after `core_init_state`.
pub record Initialised (size seed : ℕ) (tail : List ℕ) (result : Run (List ℕ)) : Type 0 where
  pub count : ℕ
  pub zeros : ℕ
  pub returns : result ≡ ok (tokens count ((seed + 1) % 2 ^ 16) ++ (replicate zeros 0 ++ tail))
  pub lengths : length (tokens count ((seed + 1) % 2 ^ 16)) + zeros ≡ size
  pub room : 2 ≤ zeros

-- On a block of at least two bytes `core_init_state` returns and writes nothing behind the block. The
-- block then holds whole patterns, chosen by the seeds from `seed + 1` on, each with a comma behind it,
-- and at least two zero bytes fill the rest.
pub core_init_state-Initialised :
    (size seed : ℕ) (block tail : List ℕ)
    → length block ≡ size
    → 2 ≤ size
    → size < 2 ^ 32
    → Initialised size seed tail (core_init_state size seed (block ++ tail))
unfolding core_init_state
core_init_state-Initialised size seed block tail e h small =
    let f = fill_loop-first (size - 1) seed block tail (omega arith) (omega arith) in
    let text = tokens f.count ((seed + 1) % 2 ^ 16) in
    record {
      count = f.count;
      zeros = length f.left;
      returns =
          rw (wrapped, f.returns)
            (ap (λ n. zero_loop n (0 + length text) (text ++ (f.left ++ tail))) (rounds f)
              ∙ zero_loop-append f.left tail text (0 + length text) (omega arith));
      lengths = omega (arith, f.lengths);
      room = omega (arith, f.room);
    }
  where
    rounds :
        {r : Run (List ℕ × ℕ)} (f : Filled (size - 1) 0 ((seed + 1) % 2 ^ 16) [] block tail r)
        → size - (0 + length (tokens f.count ((seed + 1) % 2 ^ 16))) ≡ length f.left
    rounds f = omega (arith, f.lengths)

    wrapped :
        fill_loop (size + 2) (u32 (size + 2 ^ 32 - 1)) 0 seed (pattern_of [] 0) (block ++ tail)
        ≡ fill_loop (size - 1 + 3) (size - 1) 0 seed (pattern_of [] 0) (block ++ tail)
    wrapped =
        ap₂ (λ a b. fill_loop a b 0 seed (pattern_of [] 0) (block ++ tail)) (omega arith)
          (omega arith)
