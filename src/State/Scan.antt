-- ===== src/State/Scan.antt =====
-- The loop of `core_state_transition`: it reads no further than the terminating zero, moves forward
-- on every input that is not empty, and leaves the pointer inside the block.
use native.Mathlib.Decide.{ℕ_discrete}
use zr_soc.Common.{
  ℕ, zero, suc, ◌≤◌, ◌≡◌, ◌≢◌, refl, true, false, List, [], ◌∷◌, length, Run, ok, arith, Bool-cases,
  inl, inr, ne→==,
}
use zr_soc.State.{
  CoreState, start, Counts, Token, token, is_invalid, next_state, scan, core_state_transition,
}

-- The block from here on holds a zero byte.
abbrev pub HasNul : List ℕ → Type 0
HasNul [] = ⊥
HasNul (zero ∷ r) = Unit
HasNul (suc c ∷ r) = HasNul r

-- The scan returns, its pointer has moved on to a part of the block that still holds the zero.
pub record Scanned (bound : ℕ) (result : Run Token) : Type 0 where
  pub out : Token
  pub returns : result ≡ ok out
  pub has_nul : HasNul out.rest
  pub shorter : length out.rest ≤ bound

Scanned-le : {m n : ℕ} {r : Run Token} → Scanned m r → m ≤ n → Scanned n r
Scanned-le s h = record {
  out = s.out;
  returns = s.returns;
  has_nul = s.has_nul;
  shorter = omega (arith, s.shorter);
}

module _ (s : CoreState) (k : Counts) where
  pub scan-nil : {out : Token} → scan s k [] ≢ ok out
  unfolding scan
  scan-nil e = cc

  pub scan-nul : (r : List ℕ) → scan s k (0 ∷ r) ≡ ok (token s k (0 ∷ r))
  unfolding scan
  scan-nul r = refl

  pub scan-invalid :
      (c : ℕ) (r : List ℕ) → is_invalid s ≡ true → scan s k (c ∷ r) ≡ ok (token s k (c ∷ r))
  unfolding scan
  scan-invalid c r e = ground arith

  module _ (c : ℕ) (r : List ℕ) (valid : is_invalid s ≡ false) where
    pub scan-comma : c ≡ b',' → scan s k (c ∷ r) ≡ ok (token s k r)
    unfolding scan
    scan-comma e = ground arith

    pub scan-next :
        c ≢ 0 → c ≢ b',' → scan s k (c ∷ r) ≡ scan (next_state s c k).0 (next_state s c k).1 r
    unfolding scan
    scan-next p q = rw (ne→== c 0 p, ne→== c b',' q, valid)

suc-ne-zero : (c : ℕ) → suc c ≢ 0
suc-ne-zero c = omega arith

scan-Scanned :
    (s : CoreState) (k : Counts) (i : List ℕ) → HasNul i → Scanned (length i) (scan s k i)
scan-Scanned s k [] h = absurd h
scan-Scanned s k (zero ∷ r) h = record {
  out = token s k (zero ∷ r);
  returns = scan-nul s k r;
  has_nul = tt;
  shorter = omega arith;
}
scan-Scanned s k (suc c ∷ r) h = elim (Bool-cases (is_invalid s)) [
  | inl e ↦ record {
    out = token s k (suc c ∷ r);
    returns = scan-invalid s k (suc c) r e;
    has_nul = h;
    shorter = omega arith;
  }
  | inr e ↦ elim (ℕ_discrete (suc c) b',') [
    | yes f ↦ record {
      out = token s k r;
      returns = scan-comma s k (suc c) r e f;
      has_nul = h;
      shorter = omega arith;
    }
    | no f ↦ rw (scan-next s k (suc c) r e (suc-ne-zero c) f) (
        Scanned-le (scan-Scanned (next_state s (suc c) k).0 (next_state s (suc c) k).1 r h)
          (omega arith))
  ]
]

-- From a block that holds a zero byte and does not begin with it, `core_state_transition` returns: it
-- reads no byte behind the zero byte, and its pointer has moved on by at least one byte.
pub core_state_transition-Scanned :
    (k : Counts) (c : ℕ) (r : List ℕ)
    → HasNul (c ∷ r)
    → c ≢ 0
    → Scanned (length r) (core_state_transition (c ∷ r) k)
unfolding core_state_transition
core_state_transition-Scanned k zero r h ne = absurd (ne refl)
core_state_transition-Scanned k (suc c) r h ne = elim (ℕ_discrete (suc c) b',') [
  | yes f ↦ record {
    out = token start k r;
    returns = scan-comma start k (suc c) r refl f;
    has_nul = h;
    shorter = omega arith;
  }
  | no f ↦
      rw (scan-next start k (suc c) r refl ne f)
        (scan-Scanned (next_state start (suc c) k).0 (next_state start (suc c) k).1 r h)
]
