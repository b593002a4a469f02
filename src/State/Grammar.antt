-- ===== src/State/Grammar.antt =====
-- The number formats that the state machine tells apart, stated without the machine.
pub mod Reading
pub mod Sound
pub mod Complete
pub mod Classified
use zr_soc.Common.{ℕ, ◌≤◌, ◌≡◌, ◌⊎◌, List, [], ◌∷◌, ◌++◌, All}
use zr_soc.State.{CoreState, start, invalid, s1, s2, int, float, exponent, scientific}

abbrev pub IsDigit : ℕ → Type 0
IsDigit c = (b'0' ≤ c) × (c ≤ b'9')

abbrev pub IsSign : ℕ → Type 0
IsSign c = (c ≡ b'+') ⊎ (c ≡ b'-')

abbrev pub IsMark : ℕ → Type 0
IsMark c = (c ≡ b'E') ⊎ (c ≡ b'e')

-- At most one sign.
pub data Sign : List ℕ → Type 0 where
  unsigned : Sign []
  signed : (c : ℕ) → IsSign c → Sign (c ∷ [])

-- An optional sign and one or more digits.
pub record IsInt (t : List ℕ) : Type 0 where
  pub sign : List ℕ
  pub first : ℕ
  pub digits : List ℕ
  pub sign_ok : Sign sign
  pub first_ok : IsDigit first
  pub digits_ok : All IsDigit digits
  pub shape : t ≡ sign ++ first ∷ digits

-- An optional sign, digits, a point and digits, where each run of digits may be empty.
pub record IsFloat (t : List ℕ) : Type 0 where
  pub sign : List ℕ
  pub whole : List ℕ
  pub fraction : List ℕ
  pub sign_ok : Sign sign
  pub whole_ok : All IsDigit whole
  pub fraction_ok : All IsDigit fraction
  pub shape : t ≡ sign ++ whole ++ b'.' ∷ fraction

-- A number with a point, a mark, a sign that is not optional, and one or more digits.
pub record IsScientific (t : List ℕ) : Type 0 where
  pub mantissa : List ℕ
  pub mark : ℕ
  pub sign : ℕ
  pub first : ℕ
  pub digits : List ℕ
  pub mantissa_ok : IsFloat mantissa
  pub mark_ok : IsMark mark
  pub sign_ok : IsSign sign
  pub first_ok : IsDigit first
  pub digits_ok : All IsDigit digits
  pub shape : t ≡ mantissa ++ mark ∷ sign ∷ first ∷ digits
