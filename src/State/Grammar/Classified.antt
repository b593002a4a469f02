-- ===== src/State/Grammar/Classified.antt =====
-- `core_state_transition` of sw/coremark/core_state.c on every block: it returns, and its state is right.
use zr_soc.Common.{ℕ, ◌≢◌, List, [], ◌∷◌, Reaches}
use zr_soc.State.{Counts, core_state_transition}
use zr_soc.State.Scan.{HasNul, core_state_transition-Scanned}
use zr_soc.State.Grammar.Sound.{Explained, core_state_transition-Explained}

-- From a block that holds a zero byte and does not begin with it, `core_state_transition` returns, and
-- the text that it has read is what its state says: an integer in `int`, a number with a point in
-- `float`, one with a mark, a signed exponent and digits in `scientific`, and an unfinished beginning of
-- one of these in the other states but `invalid`.
pub core_state_transition-Classified :
    (k : Counts) (c : ℕ) (r : List ℕ)
    → HasNul (c ∷ r)
    → c ≢ 0
    → Reaches (Explained (c ∷ r) []) (core_state_transition (c ∷ r) k)
core_state_transition-Classified k c r h ne =
    let s = core_state_transition-Scanned k c r h ne in
    record {
      out = s.out;
      returns = s.returns;
      holds = core_state_transition-Explained (c ∷ r) k s.out s.returns;
    }
