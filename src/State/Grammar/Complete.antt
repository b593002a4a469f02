-- ===== src/State/Grammar/Complete.antt =====
-- Every number of a format, followed by a comma, is read whole and is reported as that format, and the
-- counters say which transitions it took.
use mathlib.Core.List.{append_assoc}
use zr_soc.Common.{ℕ, ◌≡◌, ◌≢◌, refl, ap, ◌∙◌, List, [], ◌∷◌, ◌++◌, All, arith, false, ok}
use zr_soc.State.{
  CoreState, start, s1, int, float, Counts, token, bump, ee_isdigit, is_sign, is_invalid,
  next_state, scan, core_state_transition,
}
use zr_soc.State.Scan.{scan-comma, scan-next}
use zr_soc.State.Grammar.{IsDigit, IsSign, Sign, unsigned, signed, IsInt, IsFloat}

module _ (s : CoreState) (k : Counts) (valid : is_invalid s ≡ false) where
  scan-symbol :
      (c : ℕ) (r : List ℕ) {t : CoreState} {k' : Counts}
      → c ≢ 0
      → c ≢ b','
      → next_state s c k ≡ (t, k')
      → scan s k (c ∷ r) ≡ scan t k' r
  scan-symbol c r p q e = scan-next s k c r valid p q ∙ ap (λ x. scan x.0 x.1 r) e

  scan-digits :
      ((c : ℕ) → IsDigit c → next_state s c k ≡ (s, k))
      → (ds r : List ℕ) → All IsDigit ds
      → scan s k (ds ++ r) ≡ scan s k r
  scan-digits keeps [] r h = refl
  scan-digits keeps (d ∷ ds) r h =
      scan-symbol d (ds ++ r) (omega arith) (omega arith) (keeps d h.0) ∙ scan-digits keeps ds r h.1

module _ (k : Counts) (c : ℕ) (d : IsDigit c) where
  start-digit : next_state start c k ≡ (int, bump start k)
  unfolding next_state ee_isdigit
  start-digit = ground arith

  s1-digit : next_state s1 c k ≡ (int, bump s1 k)
  unfolding next_state ee_isdigit
  s1-digit = ground arith

  int-digit : next_state int c k ≡ (int, k)
  unfolding next_state ee_isdigit
  int-digit = ground arith

  float-digit : next_state float c k ≡ (float, k)
  unfolding next_state ee_isdigit
  float-digit = ground arith

start-sign : (k : Counts) (c : ℕ) → IsSign c → next_state start c k ≡ (s1, bump start k)
unfolding next_state ee_isdigit is_sign
start-sign k c g = ground arith

-- The counters after the sign and the symbol behind it.
unfoldable pub sign_counts : List ℕ → Counts → Counts
sign_counts [] k = bump start k
sign_counts (_ ∷ _) k = bump s1 (bump start k)

-- The counters after the point, which is one more transition if digits stand before it.
unfoldable pub point_counts : List ℕ → List ℕ → Counts → Counts
point_counts sign [] k = sign_counts sign k
point_counts sign (_ ∷ _) k = bump int (sign_counts sign k)

sign_ne : (c : ℕ) → IsSign c → (c ≢ 0) × (c ≢ b',')
sign_ne c g = ground arith

after_signed_digit :
    (k : Counts) {g : List ℕ} (d : ℕ) (r : List ℕ)
    → Sign g
    → IsDigit d
    → scan start k (g ++ d ∷ r) ≡ scan int (sign_counts g k) r
unfolding sign_counts
after_signed_digit k d r unsigned h =
    scan-symbol start k refl d r (omega arith) (omega arith) (start-digit k d h)
after_signed_digit k d r (signed g s) h =
    scan-symbol start k refl g (d ∷ r) (sign_ne g s).0 (sign_ne g s).1 (start-sign k g s)
    ∙ scan-symbol s1 (bump start k) refl d r (omega arith) (omega arith)
        (s1-digit (bump start k) d h)

after_signed_point :
    (k : Counts) {g : List ℕ} (r : List ℕ)
    → Sign g
    → scan start k (g ++ b'.' ∷ r) ≡ scan float (sign_counts g k) r
unfolding sign_counts next_state ee_isdigit is_sign
after_signed_point k r unsigned = scan-symbol start k refl b'.' r (omega arith) (omega arith) refl
after_signed_point k r (signed g s) =
    scan-symbol start k refl g (b'.' ∷ r) (sign_ne g s).0 (sign_ne g s).1 (start-sign k g s)
    ∙ scan-symbol s1 (bump start k) refl b'.' r (omega arith) (omega arith) refl

scan-int :
    (k : Counts) {g : List ℕ} (d : ℕ) (ds r : List ℕ)
    → Sign g
    → IsDigit d
    → All IsDigit ds
    → scan start k (g ++ d ∷ (ds ++ r)) ≡ scan int (sign_counts g k) r
scan-int k d ds r g h hs =
    after_signed_digit k d (ds ++ r) g h ∙ scan-digits int _ refl (int-digit _) ds r hs

scan-point :
    (k : Counts) {g : List ℕ} (ws r : List ℕ)
    → Sign g
    → All IsDigit ws
    → scan start k (g ++ (ws ++ b'.' ∷ r)) ≡ scan float (point_counts g ws k) r
unfolding point_counts next_state
scan-point k [] r g h = after_signed_point k r g
scan-point k {g = gs} (w ∷ ws) r g h =
    scan-int k w ws (b'.' ∷ r) g h.0 h.1
    ∙ scan-symbol int (sign_counts gs k) refl b'.' r (omega arith) (omega arith) refl

scan-float :
    (k : Counts) (t r : List ℕ) (f : IsFloat t)
    → scan start k (t ++ r) ≡ scan float (point_counts f.sign f.whole k) r
scan-float k t r f =
    ap (λ x. scan start k (x ++ r)) f.shape
    ∙ ap (scan start k) (
        append_assoc (f.sign ++ f.whole) (b'.' ∷ f.fraction) r
        ∙ append_assoc f.sign f.whole (b'.' ∷ (f.fraction ++ r)))
    ∙ scan-point k f.whole (f.fraction ++ r) f.sign_ok f.whole_ok
    ∙ scan-digits float _ refl (float-digit _) f.fraction r f.fraction_ok

module _ (k : Counts) (t r : List ℕ) where
  -- An integer followed by a comma is read whole, the comma is skipped, the state is `int`, and only the
  -- transitions out of `start` and, after a sign, out of `s1` are counted.
  pub core_state_transition-int :
      (i : IsInt t)
      → core_state_transition (t ++ b',' ∷ r) k ≡ ok (token int (sign_counts i.sign k) r)
  unfolding core_state_transition
  core_state_transition-int i =
      ap (λ x. scan start k (x ++ b',' ∷ r)) i.shape
      ∙ ap (scan start k) (append_assoc i.sign (i.first ∷ i.digits) (b',' ∷ r))
      ∙ scan-int k i.first i.digits (b',' ∷ r) i.sign_ok i.first_ok i.digits_ok
      ∙ scan-comma int _ b',' r refl refl

  -- A number with a point, followed by a comma, is read whole, the comma is skipped, and the state is
  -- `float`.
  pub core_state_transition-float :
      (f : IsFloat t)
      → core_state_transition (t ++ b',' ∷ r) k ≡ ok (token float (point_counts f.sign f.whole k) r)
  unfolding core_state_transition
  core_state_transition-float f = scan-float k t (b',' ∷ r) f ∙ scan-comma float _ b',' r refl refl
