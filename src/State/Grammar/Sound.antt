-- ===== src/State/Grammar/Sound.antt =====
-- A format that the machine reports is the format of the text that it has read.
use mathlib.Core.Path.{subst}
use native.Mathlib.Decide.{ℕ_discrete}
use mathlib.Core.List.{append_assoc, append-nil}
use zr_soc.Common.{
  ℕ, ◌≡◌, ◌⊎◌, inl, inr, refl, sym, ap, ◌∙◌, List, [], ◌∷◌, ◌++◌, Bool-cases, ok, ok-injective,
}
use zr_soc.State.{
  CoreState, start, Counts, Token, token, is_invalid, next_state, scan, core_state_transition,
}
use zr_soc.State.Scan.{scan-nil, scan-nul, scan-invalid, scan-comma, scan-next}
use zr_soc.State.Grammar.Reading.{Read, text_step}

-- The scan has read `text`, which follows `u` and is described by the final state, and then either a
-- comma, which it skips, or the byte at which it stops.
pub record Explained (i u : List ℕ) (out : Token) : Type 0 where
  pub text : List ℕ
  pub described : Read out.state (u ++ text)
  pub shape : (i ≡ text ++ b',' ∷ out.rest) ⊎ (i ≡ text ++ out.rest)

stopped : (i u : List ℕ) (s : CoreState) (k : Counts) → Read s u → Explained i u (token s k i)
stopped i u s k r = record { text = []; described = rw (append-nil u) r; shape = inr refl }

Explained-cons :
    (c : ℕ) (i u : List ℕ) {out : Token} → Explained i (u ++ c ∷ []) out → Explained (c ∷ i) u out
Explained-cons c i u x = record {
  text = c ∷ x.text;
  described = rw (append_assoc u (c ∷ []) x.text) at x.described;
  shape = elim x.shape [ inl e ↦ inl (ap (◌∷◌ c) e) | inr e ↦ inr (ap (◌∷◌ c) e) ];
}

scan_sound :
    (i u : List ℕ) (s : CoreState) (k : Counts) (out : Token)
    → Read s u
    → scan s k i ≡ ok out
    → Explained i u out
scan_sound [] u s k out r e = absurd (scan-nil s k e)
scan_sound (c ∷ i) u s k out r e = elim (Bool-cases (is_invalid s)) [
  | inl bad ↦
      subst (Explained (c ∷ i) u) (ok-injective (sym (scan-invalid s k c i bad) ∙ e))
        (stopped (c ∷ i) u s k r)
  | inr valid ↦ elim (ℕ_discrete c 0) [
    | yes z ↦
        subst (Explained (c ∷ i) u)
          (ok-injective (
            ap (λ t. ok (token s k (t ∷ i))) z
            ∙ sym (scan-nul s k i)
            ∙ ap (λ t. scan s k (t ∷ i)) (sym z)
            ∙ e))
          (stopped (c ∷ i) u s k r)
    | no nz ↦ elim (ℕ_discrete c b',') [
      | yes comma ↦
          subst (Explained (c ∷ i) u) (ok-injective (sym (scan-comma s k c i valid comma) ∙ e))
            (record {
              text = [];
              described = rw (append-nil u) r;
              shape = inl (ap (λ t. t ∷ i) comma);
            })
      | no nc ↦ Explained-cons c i u (
          scan_sound i (u ++ c ∷ []) (next_state s c k).0 (next_state s c k).1 out
            (text_step s u c k r) (sym (scan-next s k c i valid nz nc) ∙ e))
    ]
  ]
]

-- Whenever `core_state_transition` returns, the text that it has read is what its state says: an
-- integer in `int`, a number with a point in `float`, one with a mark, a signed exponent and digits in
-- `scientific`, and an unfinished beginning of one of these in the other states but `invalid`.
pub core_state_transition-Explained :
    (i : List ℕ) (k : Counts) (out : Token)
    → core_state_transition i k ≡ ok out
    → Explained i [] out
unfolding core_state_transition Read
core_state_transition-Explained i k out e = scan_sound i [] start k out refl e
