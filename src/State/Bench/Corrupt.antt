-- ===== src/State/Bench/Corrupt.antt =====
-- The corruption loops of `core_bench_state`: which bytes they change, and when the second one undoes
-- the first.
use native.Mathlib.Nat.{zero-mod, mod-eq-sub-mod, mod-eq_of_lt}
use mathlib.Core.Path.{subst}
use native.Mathlib.Decide.{dec_lt, ℕ_discrete}
use zr_soc.Common.{
  ℕ, zero, suc, ◌+◌, ◌-◌, ◌%◌, ◌^◌, ◌<◌, ◌≤◌, ◌≡◌, ◌≢◌, refl, sym, ap, ◌∙◌, Bool, true, false, ◌&&◌,
  List, length, get_elem?, get_or, set, length-set, get_or-set_self, get_or-set_ne, arith, ltb, leb,
  ◌==◌, if◌then◌else◌, Run, ok, lt→ltb, le→ltb, some, [], ◌∷◌,
}
use zr_soc.State.Bench.{flip, move, corrupt}

-- The bytes at which the loop stops: `p`, `p + step` and so on below `blksize`.
unfoldable pub visited : (blksize step p j : ℕ) → Bool
visited blksize step p j = leb p j && ltb j blksize && ((j - p) % step == 0)

module _ (blksize step p j : ℕ) (moves : 0 < step) (inside : p < blksize) where
  far : p + step ≤ j → (j - p) % step ≡ (j - (p + step)) % step
  far h = mod-eq-sub-mod (omega arith) ∙ ap (λ (t : ℕ). t % step) (omega arith)

  near : p < j → j < p + step → (j - p) % step ≡ j - p
  near h k = mod-eq_of_lt (omega arith)

  visited-far : p + step ≤ j → visited blksize step p j ≡ visited blksize step (p + step) j
  unfolding visited
  visited-far h = ground (arith, far h)

  visited-near : p < j → j < p + step → visited blksize step p j ≡ false
  unfolding visited
  visited-near h k = ground (arith, near h k)

  visited_self : visited blksize step p p ≡ true
  unfolding visited
  visited_self = ground (arith, zero-mod step)

visited-before : (blksize step p j : ℕ) → j < p → visited blksize step p j ≡ false
unfolding visited
visited-before blksize step p j h = ground arith

visited-end : (blksize step p j : ℕ) → blksize ≤ p → visited blksize step p j ≡ false
unfolding visited
visited-end blksize step p j h = ground arith

get_elem?-get_or : (m : List ℕ) (i : ℕ) → i < length m → get_elem? m i ≡ some (get_or m i 0)
get_elem?-get_or [] i h = absurd (omega arith)
get_elem?-get_or (x ∷ m) zero h = refl
get_elem?-get_or (x ∷ m) (suc i) h = get_elem?-get_or m i (omega arith)

-- The loop returns, and has flipped exactly the bytes that it visits.
pub record IsCorrupted (blksize seed step p : ℕ) (mem : List ℕ) (result : Run (List ℕ))
    : Type 0 where
  pub out : List ℕ
  pub returns : result ≡ ok out
  pub same_length : length out ≡ length mem
  pub bytes :
      (j : ℕ)
      → get_or out j 0
        ≡ (if visited blksize step p j then flip seed (get_or mem j 0) else get_or mem j 0)

-- A step that is not negative.
move-forward : (step p : ℕ) → step < 2 ^ 15 → move step p ≡ ok (p + step)
unfolding move
move-forward step p h = rw (lt→ltb step (2 ^ 15) h)

module _ (blksize seed step : ℕ) (moves : 0 < step) (forward : step < 2 ^ 15) where
  abbrev at : ℕ → List ℕ → ℕ → ℕ
  at p mem j = if visited blksize step p j then flip seed (get_or mem j 0) else get_or mem j 0

  module _ (p : ℕ) (mem : List ℕ) (inside : p < blksize) (fits : p < length mem) where
    abbrev changed : List ℕ
    changed = set mem p (flip seed (get_or mem p 0))

    at_ne :
        (j : ℕ)
        → p ≢ j
        → visited blksize step (p + step) j ≡ visited blksize step p j
        → at (p + step) changed j ≡ at p mem j
    at_ne j ne e = rw (e, get_or-set_ne mem p j (flip seed (get_or mem p 0)) 0 ne)

    at_self : at (p + step) changed p ≡ at p mem p
    at_self =
        rw
          (
            visited-before blksize step (p + step) p (omega arith),
            visited_self blksize step p p moves inside,
          )
          (get_or-set_self mem p (flip seed (get_or mem p 0)) 0 fits)

    at_round : (j : ℕ) → at (p + step) changed j ≡ at p mem j
    at_round j = elim (dec_lt j p) [
      | yes h ↦ at_ne j (omega arith) (
          visited-before blksize step (p + step) j (omega arith)
          ∙ sym (visited-before blksize step p j h))
      | no h ↦ elim (ℕ_discrete p j) [
        | yes e ↦ subst (λ t. at (p + step) changed t ≡ at p mem t) e at_self
        | no e ↦ elim (dec_lt j (p + step)) [
          | yes k ↦ at_ne j e (
              visited-before blksize step (p + step) j k
              ∙ sym (visited-near blksize step p j moves inside (omega arith) k))
          | no k ↦ at_ne j e (sym (visited-far blksize step p j moves inside (omega arith)))
        ]
      ]
    ]

  -- One round and the loop from the next byte.
  IsCorrupted-round :
      (p : ℕ) (mem : List ℕ) (r : Run (List ℕ))
      → p < blksize
      → p < length mem
      → IsCorrupted blksize seed step (p + step) (set mem p (flip seed (get_or mem p 0))) r
      → IsCorrupted blksize seed step p mem r
  IsCorrupted-round p mem r inside fits rest = record {
    out = rest.out;
    returns = rest.returns;
    same_length = rest.same_length ∙ length-set mem p _;
    bytes = λ j. rest.bytes j ∙ at_round p mem inside fits j;
  }

  pub corrupt-IsCorrupted :
      (fuel p : ℕ) (mem : List ℕ)
      → blksize ≤ length mem
      → blksize - p < fuel
      → IsCorrupted blksize seed step p mem (corrupt fuel blksize seed step mem p)
  unfolding corrupt
  corrupt-IsCorrupted zero p mem fits enough = absurd (omega arith)
  corrupt-IsCorrupted (suc fuel) p mem fits enough = elim (dec_lt p blksize) [
    | yes h ↦
        rw (lt→ltb p blksize h, get_elem?-get_or mem p (omega arith), move-forward step p forward)
          (IsCorrupted-round p mem _ h (omega arith) (
            corrupt-IsCorrupted fuel (p + step) (set mem p (flip seed (get_or mem p 0)))
              (omega (arith, length-set mem p (flip seed (get_or mem p 0)))) (omega arith)))
    | no h ↦ rw (le→ltb p blksize (omega arith)) (record {
      out = mem;
      returns = refl;
      same_length = refl;
      bytes = λ j. rw (visited-end blksize step p j (omega arith));
    })
  ]
