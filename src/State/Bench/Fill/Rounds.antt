-- ===== src/State/Bench/Fill/Rounds.antt =====
-- The loop of `core_init_state` that puts patterns into the block.
use mathlib.Core.List.{append_assoc}
use native.Mathlib.Decide.{dec_lt}
use zr_soc.Common.{
  ℕ, zero, suc, ◌+◌, ◌-◌, ◌%◌, ◌^◌, ◌<◌, ◌≤◌, ◌≡◌, refl, sym, ap, ap₂, ◌∙◌, List, [], ◌∷◌, ◌++◌,
  length, length-append, arith, Run, ok, lt→ltb, le→ltb,
}
use zr_soc.State.Bench.{
  Pattern, pattern_of, choose, intpat, floatpat, scipat, errpat, fill_loop, put_pattern,
}
use zr_soc.State.Bench.Fill.Write.{put_pattern-append, Split, split}

-- The first `n` patterns that the seeds from `seed` on choose, each with the comma behind it.
unfoldable pub tokens : ℕ → ℕ → List ℕ
tokens zero seed = []
tokens (suc n) seed = (choose seed).buf ++ b',' ∷ tokens n ((seed + 1) % 2 ^ 16)

-- The length that goes with a pattern is its length.
choose-next :
    (seed : ℕ)
    → ((choose seed).next ≡ length (choose seed).buf)
      × (0 < (choose seed).next)
      × ((choose seed).next ≤ 8)
unfolding choose intpat floatpat scipat errpat
choose-next seed = ground arith

-- The loop has put whole patterns behind the text and stopped inside of the block.
pub record Filled (size total seed : ℕ) (text free tail : List ℕ) (result : Run (List ℕ × ℕ))
    : Type 0 where
  pub count : ℕ
  pub left : List ℕ
  pub returns :
      result
      ≡ ok (text ++ (tokens count seed ++ (left ++ tail)), total + length (tokens count seed))
  pub lengths : length free ≡ length (tokens count seed) + length left
  pub room : 1 < length left

regroup : (text buf r : List ℕ) → (text ++ (buf ++ b',' ∷ [])) ++ r ≡ text ++ (buf ++ b',' ∷ r)
regroup text buf r =
    append_assoc text (buf ++ b',' ∷ []) r ∙ ap (text ++◌) (append_assoc buf (b',' ∷ []) r)

length-tokens :
    (n seed : ℕ)
    → length (tokens (suc n) seed)
      ≡ length (choose seed).buf + 1 + length (tokens n ((seed + 1) % 2 ^ 16))
unfolding tokens
length-tokens n seed =
    omega (arith, length-append (choose seed).buf (b',' ∷ tokens n ((seed + 1) % 2 ^ 16)))

module _ (size total seed : ℕ) (text tail : List ℕ) where
  abbrev p : Pattern
  p = choose seed

  Filled-put :
      (xs : List ℕ) (y : ℕ) (ys free : List ℕ) (r : Run (List ℕ × ℕ))
      → length xs ≡ length p.buf
      → free ≡ xs ++ y ∷ ys
      → Filled size
          (total + (p.next + 1))
          ((seed + 1) % 2 ^ 16)
          (text ++ (p.buf ++ b',' ∷ []))
          ys
          tail
          r
      → Filled size total seed text free tail r
  unfolding tokens
  Filled-put xs y ys free r e f x = record {
    count = suc x.count;
    left = x.left;
    returns =
        x.returns
        ∙ ap₂ (λ m t. ok (m, t))
            (regroup text p.buf _
              ∙ ap (text ++◌) (sym (append_assoc p.buf (b',' ∷ tokens x.count _) _)))
            (omega (
              arith,
              (choose-next seed).0,
              length-append p.buf (b',' ∷ tokens x.count ((seed + 1) % 2 ^ 16)),
            ));
    lengths = omega (
      arith,
      ap length f,
      length-append xs (y ∷ ys),
      e,
      x.lengths,
      length-append p.buf (b',' ∷ tokens x.count ((seed + 1) % 2 ^ 16)),
    );
    room = x.room;
  }

  -- The write of the pattern in the form in which the loop goes on.
  put_pattern_cases :
      (free : List ℕ) (s : Split (length p.buf) free)
      → total ≡ length text
      → put_pattern p total (text ++ (free ++ tail))
        ≡ ok ((text ++ (p.buf ++ b',' ∷ [])) ++ (s.back ++ tail))
  put_pattern_cases free s e =
      ap (λ l. put_pattern p total (text ++ l))
        (ap (◌++ tail) s.parts ∙ append_assoc s.front (s.item ∷ s.back) tail)
      ∙ put_pattern-append p s.front (s.back ++ tail) text s.item total (choose-next seed).0
          s.front_length e
      ∙ ap ok (sym (regroup text p.buf (s.back ++ tail)))

fill_loop-Filled :
    (fuel size total seed : ℕ) (text free tail : List ℕ)
    → total ≡ length text
    → length free ≡ size + 1 - total
    → total < size
    → size - total < fuel
    → Filled size total seed text free tail
        (fill_loop fuel size total seed (choose seed) (text ++ (free ++ tail)))
unfolding fill_loop
fill_loop-Filled zero size total seed text free tail e f h enough = absurd (omega arith)
fill_loop-Filled (suc fuel) size total seed text free tail e f h enough =
    elim (dec_lt (total + (choose seed).next + 1) size) [
      | yes k ↦
          let c = choose-next seed in
          let s = split (length (choose seed).buf) free (omega (arith, c.0)) in
          rw
            (
              lt→ltb _ _ k,
              lt→ltb 0 (choose seed).next c.1,
              put_pattern_cases size total seed text tail free s e,
            )
            (Filled-put size total seed text tail s.front s.item s.back free _ s.front_length
              s.parts
              (fill_loop-Filled fuel size (total + ((choose seed).next + 1)) ((seed + 1) % 2 ^ 16)
                (text ++ ((choose seed).buf ++ b',' ∷ [])) s.back tail
                (omega (
                  arith,
                  e,
                  c.0,
                  length-append text ((choose seed).buf ++ b',' ∷ []),
                  length-append (choose seed).buf (b',' ∷ []),
                ))
                (omega (
                  arith,
                  f,
                  c.0,
                  ap length s.parts,
                  length-append s.front (s.item ∷ s.back),
                  s.front_length,
                ))
                (omega (arith, k)) (omega (arith, enough, c.1))))
      | no k ↦ rw (le→ltb (total + (choose seed).next + 1) size (omega arith)) stay
    ]
  where
    stay : Filled size total seed text free tail (ok (text ++ (free ++ tail), total))
    stay = record {
      count = 0;
      left = free;
      returns = unfold tokens in ap (λ t. ok (text ++ (free ++ tail), t)) (omega arith);
      lengths = unfold tokens in omega arith;
      room = omega arith;
    }

-- The first round has no pattern yet and only chooses one.
pub fill_loop-first :
    (size seed : ℕ) (block tail : List ℕ)
    → length block ≡ size + 1
    → 0 < size
    → Filled size 0
        ((seed + 1) % 2 ^ 16)
        []
        block
        tail
        (fill_loop (size + 3) size 0 seed (pattern_of [] 0) (block ++ tail))
fill_loop-first size seed block tail e h = rw (add_three size) (
    unfold fill_loop in
    elim (dec_lt 1 size) [
      | yes k ↦ rw (lt→ltb 1 size k) (
          fill_loop-Filled (size + 2) size 0 ((seed + 1) % 2 ^ 16) [] block tail refl (omega arith)
            h (omega arith))
      | no k ↦ rw (le→ltb 1 size (omega arith)) (record {
        count = 0;
        left = block;
        returns = unfold tokens in refl;
        lengths = unfold tokens in omega arith;
        room = omega arith;
      })
    ])
  where
    add_three : (n : ℕ) → n + 3 ≡ suc (n + 2)
    add_three n = omega arith
