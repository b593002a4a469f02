-- ===== src/State/Bench/Clean.antt =====
-- The bytes of the patterns of sw/coremark/core_state.c, and which corruptions turn one into a comma.
use zr_soc.Common.{
  ℕ, zero, suc, ◌+◌, ◌%◌, ◌^◌, ◌≡◌, refl, ◌==◌, ltb, if◌then◌else◌, bit_xor, bit_and, ◌>>>◌, Bool,
  true, false, not, ◌&&◌, ◌||◌, List, [], ◌∷◌, ◌++◌, get_or, replicate, u8, arith,
}
use zr_soc.State.Bench.{Pattern, choose, intpat, floatpat, scipat, errpat}
use zr_soc.State.Bench.Fill.Rounds.{tokens}
use zr_soc.State.Bench.Undo.{Survives}

-- The corruption by this byte keeps the byte from turning into a comma.
pub survives : (by c : ℕ) → Bool
survives by c = c == b',' || not (bit_xor c by == b',')

pub clean : (by : ℕ) → List ℕ → Bool
clean by [] = true
clean by (c ∷ cs) = survives by c && clean by cs

-- Every byte of every pattern survives the corruption by this byte, and so does a zero.
pub record Safe (by : ℕ) : Type 0 where
  pub zeros : survives by 0 ≡ true
  pub integers : clean by (intpat 0 ++ intpat 1 ++ intpat 2 ++ intpat 3) ≡ true
  pub floats : clean by (floatpat 0 ++ floatpat 1 ++ floatpat 2 ++ floatpat 3) ≡ true
  pub scientifics : clean by (scipat 0 ++ scipat 1 ++ scipat 2 ++ scipat 3) ≡ true
  pub errors : clean by (errpat 0 ++ errpat 1 ++ errpat 2 ++ errpat 3) ≡ true

both_true : (b c : Bool) → (b && c) ≡ true → (b ≡ true) × (c ≡ true)
both_true true c h = (refl, h)
both_true false c h = absurd cc

clean_split :
    (by : ℕ) (xs ys : List ℕ)
    → clean by (xs ++ ys) ≡ true
    → (clean by xs ≡ true) × (clean by ys ≡ true)
unfolding clean
clean_split by [] ys h = (refl, h)
clean_split by (x ∷ xs) ys h =
    let a = both_true (survives by x) (clean by (xs ++ ys)) h in
    let b = clean_split by xs ys a.1 in (rw (a.0, b.0) refl, b.1)

clean_join :
    (by : ℕ) (xs ys : List ℕ) → clean by xs ≡ true → clean by ys ≡ true → clean by (xs ++ ys) ≡ true
unfolding clean
clean_join by [] ys h k = k
clean_join by (x ∷ xs) ys h k =
    let a = both_true (survives by x) (clean by xs) h in rw (a.0, clean_join by xs ys a.1 k) refl

clean_if :
    (by : ℕ) (b : Bool) (xs ys : List ℕ)
    → clean by xs ≡ true
    → clean by ys ≡ true
    → clean by (if b then xs else ys) ≡ true
clean_if by true xs ys h k = h
clean_if by false xs ys h k = k

clean_choice :
    (by : ℕ) (a b c d : List ℕ) (i : ℕ)
    → clean by (a ++ b ++ c ++ d) ≡ true
    → clean by (if i == 0 then a else if i == 1 then b else if i == 2 then c else d) ≡ true
clean_choice by a b c d i h =
    let p = clean_split by (a ++ b ++ c) d h in
    let q = clean_split by (a ++ b) c p.0 in
    let r = clean_split by a b q.0 in
    clean_if by (i == 0) a _ r.0 (clean_if by (i == 1) b _ r.1 (clean_if by (i == 2) c d q.1 p.1))

buf_if :
    (by : ℕ) (b : Bool) (p q : Pattern)
    → clean by p.buf ≡ true
    → clean by q.buf ≡ true
    → clean by (if b then p else q).buf ≡ true
buf_if by true p q h k = h
buf_if by false p q h k = k

choose-clean : (by seed : ℕ) → Safe by → clean by (choose seed).buf ≡ true
unfolding choose intpat floatpat scipat errpat
choose-clean by seed h =
    let kind = bit_and seed 7 in
    let i = bit_and (seed >>> 3) 3 in
    buf_if by (ltb kind 3) _ _ (clean_choice by _ _ _ _ i h.integers) (
      buf_if by (ltb kind 5) _ _ (clean_choice by _ _ _ _ i h.floats) (
        buf_if by (ltb kind 7) _ _ (clean_choice by _ _ _ _ i h.scientifics)
          (clean_choice by _ _ _ _ i h.errors)))

tokens-clean : (by n seed : ℕ) → Safe by → clean by (tokens n seed) ≡ true
unfolding tokens clean survives
tokens-clean by zero seed h = refl
tokens-clean by (suc n) seed h =
    clean_join by (choose seed).buf _ (choose-clean by seed h)
      (tokens-clean by n ((seed + 1) % 2 ^ 16) h)

zeros-clean : (by n : ℕ) → Safe by → clean by (replicate n 0) ≡ true
unfolding clean
zeros-clean by zero h = refl
zeros-clean by (suc n) h = rw (h.zeros, zeros-clean by n h) refl

get_or-survives :
    (by : ℕ) (xs : List ℕ) (j : ℕ)
    → survives by 0 ≡ true
    → clean by xs ≡ true
    → survives by (get_or xs j 0) ≡ true
unfolding clean
get_or-survives by [] j z h = z
get_or-survives by (x ∷ xs) zero z h = (both_true (survives by x) (clean by xs) h).0
get_or-survives by (x ∷ xs) (suc j) z h =
    get_or-survives by xs j z (both_true (survives by x) (clean by xs) h).1

survives-Survives : (seed c : ℕ) → survives (u8 seed) c ≡ true → Survives seed c
unfolding survives
survives-Survives seed c h n e = absurd (ground arith)

-- On a block that `core_init_state` has filled every byte survives the corruption by a safe byte.
pub filled_survives :
    (seed count first zeros j : ℕ)
    → Safe (u8 seed)
    → Survives seed (get_or (tokens count first ++ (replicate zeros 0 ++ [])) j 0)
unfolding clean
filled_survives seed count first zeros j h =
    let by = u8 seed in
    let rest = clean_join by (replicate zeros 0) [] (zeros-clean by zeros h) refl in
    survives-Survives seed _ (
      get_or-survives by (tokens count first ++ (replicate zeros 0 ++ [])) j h.zeros
        (clean_join by (tokens count first) _ (tokens-clean by count first h) rest))

-- The low bytes of the seeds of the three standard runs are safe: those of the performance run, the
-- validation run and the profile run.
pub standard-Safe : Safe 0x00 × Safe 0x15 × Safe 0x08
unfolding clean survives intpat floatpat scipat errpat
standard-Safe = (
  record { zeros = refl; integers = refl; floats = refl; scientifics = refl; errors = refl },
  record { zeros = refl; integers = refl; floats = refl; scientifics = refl; errors = refl },
  record { zeros = refl; integers = refl; floats = refl; scientifics = refl; errors = refl },
)
