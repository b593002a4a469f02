-- ===== src/State/Grammar/Reading.antt =====
-- What the text that the machine has read looks like in each state, and that a step keeps it true.
use mathlib.Core.List.{append_assoc}
use zr_soc.Common.{
  ℕ, ◌≡◌, inl, inr, refl, List, [], ◌∷◌, ◌++◌, All, arith, true, ◌||◌, ◌==◌, Bool-cases, ==→eq,
}
use zr_soc.State.{
  CoreState, start, invalid, s1, s2, int, float, exponent, scientific, Counts, ee_isdigit, is_sign,
  next_state,
}
use zr_soc.State.Grammar.{
  IsDigit, IsSign, IsMark, Sign, unsigned, signed, IsInt, IsFloat, IsScientific,
}

-- What the text read so far looks like in each state.
unfoldable pub Read : CoreState → List ℕ → Type 0
Read start u = u ≡ []
Read invalid u = Unit
Read s1 u = (c : ℕ) × IsSign c × (u ≡ c ∷ [])
Read int u = IsInt u
Read float u = IsFloat u
Read s2 u = (m : List ℕ) × (e : ℕ) × IsFloat m × IsMark e × (u ≡ m ++ e ∷ [])
Read exponent u = (m : List ℕ) × (e g : ℕ) × IsFloat m × IsMark e × IsSign g × (u ≡ m ++ e ∷ g ∷ [])
Read scientific u = IsScientific u

digit : (c : ℕ) → ee_isdigit c ≡ true → IsDigit c
unfolding ee_isdigit
digit c h = ground arith

sign : (c : ℕ) → is_sign c ≡ true → IsSign c
unfolding is_sign
sign c h = ground arith

mark : (c : ℕ) → (c == b'E' || c == b'e') ≡ true → IsMark c
mark c h = ground arith

All-snoc {ℓ κ} :
    {A : Type ℓ} (P : A → Type κ) (xs : List A) (x : A) → All P xs → P x → All P (xs ++ x ∷ [])
All-snoc P [] x h p = (p, tt)
All-snoc P (y ∷ xs) x h p = (h.0, All-snoc P xs x h.1 p)

module _ (u : List ℕ) (c : ℕ) where
  IsInt-digit : IsInt u → IsDigit c → IsInt (u ++ c ∷ [])
  IsInt-digit i d = record {
    sign = i.sign;
    first = i.first;
    digits = i.digits ++ c ∷ [];
    sign_ok = i.sign_ok;
    first_ok = i.first_ok;
    digits_ok = All-snoc IsDigit i.digits c i.digits_ok d;
    shape = rw i.shape (append_assoc i.sign (i.first ∷ i.digits) (c ∷ []));
  }

  IsFloat-digit : IsFloat u → IsDigit c → IsFloat (u ++ c ∷ [])
  IsFloat-digit i d = record {
    sign = i.sign;
    whole = i.whole;
    fraction = i.fraction ++ c ∷ [];
    sign_ok = i.sign_ok;
    whole_ok = i.whole_ok;
    fraction_ok = All-snoc IsDigit i.fraction c i.fraction_ok d;
    shape = rw i.shape (simp append_assoc);
  }

  IsInt-point : IsInt u → IsFloat (u ++ b'.' ∷ [])
  IsInt-point i = record {
    sign = i.sign;
    whole = i.first ∷ i.digits;
    fraction = [];
    sign_ok = i.sign_ok;
    whole_ok = (i.first_ok, i.digits_ok);
    fraction_ok = tt;
    shape = rw i.shape (simp append_assoc);
  }

  scientific-digit : IsScientific u → IsDigit c → IsScientific (u ++ c ∷ [])
  scientific-digit i d = record {
    mantissa = i.mantissa;
    mark = i.mark;
    sign = i.sign;
    first = i.first;
    digits = i.digits ++ c ∷ [];
    mantissa_ok = i.mantissa_ok;
    mark_ok = i.mark_ok;
    sign_ok = i.sign_ok;
    first_ok = i.first_ok;
    digits_ok = All-snoc IsDigit i.digits c i.digits_ok d;
    shape = rw i.shape (simp append_assoc);
  }

is_sign-Sign : (u : List ℕ) (c : ℕ) → IsSign c → u ≡ c ∷ [] → Sign u
is_sign-Sign u c h e = rw e (signed c h)

-- One symbol keeps the description true.
pub text_step :
    (s : CoreState) (u : List ℕ) (c : ℕ) (k : Counts)
    → Read s u
    → Read (next_state s c k).0 (u ++ c ∷ [])
unfolding next_state Read
text_step start u c k e = elim (Bool-cases (ee_isdigit c)) [
  | inl d ↦ rw d (record {
    sign = [];
    first = c;
    digits = [];
    sign_ok = unsigned;
    first_ok = digit c d;
    digits_ok = tt;
    shape = rw e;
  })
  | inr nd ↦ rw nd (elim (Bool-cases (is_sign c)) [
    | inl g ↦ rw g (c, sign c g, rw e)
    | inr ng ↦ rw ng (elim (Bool-cases (c == b'.')) [
      | inl p ↦ rw p (record {
        sign = [];
        whole = [];
        fraction = [];
        sign_ok = unsigned;
        whole_ok = tt;
        fraction_ok = tt;
        shape = rw (e, ==→eq c b'.' p);
      })
      | inr np ↦ rw np tt
    ])
  ])
]
text_step s1 u c k (g, h, e) = elim (Bool-cases (ee_isdigit c)) [
  | inl d ↦ rw d (record {
    sign = g ∷ [];
    first = c;
    digits = [];
    sign_ok = signed g h;
    first_ok = digit c d;
    digits_ok = tt;
    shape = rw e;
  })
  | inr nd ↦ rw nd (elim (Bool-cases (c == b'.')) [
    | inl p ↦ rw p (record {
      sign = g ∷ [];
      whole = [];
      fraction = [];
      sign_ok = signed g h;
      whole_ok = tt;
      fraction_ok = tt;
      shape = rw (e, ==→eq c b'.' p);
    })
    | inr np ↦ rw np tt
  ])
]
text_step int u c k i = elim (Bool-cases (c == b'.')) [
  | inl p ↦ rw p (rw (==→eq c b'.' p) (IsInt-point u c i))
  | inr np ↦ rw np (elim (Bool-cases (ee_isdigit c)) [
    | inl d ↦ rw d (IsInt-digit u c i (digit c d))
    | inr nd ↦ rw nd tt
  ])
]
text_step float u c k i = elim (Bool-cases (c == b'E' || c == b'e')) [
  | inl p ↦ rw p (u, c, i, mark c p, refl)
  | inr np ↦ rw np (elim (Bool-cases (ee_isdigit c)) [
    | inl d ↦ rw d (IsFloat-digit u c i (digit c d))
    | inr nd ↦ rw nd tt
  ])
]
text_step s2 u c k (m, e, f, h, shape) = elim (Bool-cases (is_sign c)) [
  | inl g ↦ rw g (m, e, c, f, h, sign c g, rw shape (simp append_assoc))
  | inr ng ↦ rw ng tt
]
text_step exponent u c k (m, e, g, f, h, p, shape) = elim (Bool-cases (ee_isdigit c)) [
  | inl d ↦ rw d (record {
    mantissa = m;
    mark = e;
    sign = g;
    first = c;
    digits = [];
    mantissa_ok = f;
    mark_ok = h;
    sign_ok = p;
    first_ok = digit c d;
    digits_ok = tt;
    shape = rw shape (simp append_assoc);
  })
  | inr nd ↦ rw nd tt
]
text_step scientific u c k i = elim (Bool-cases (ee_isdigit c)) [
  | inl d ↦ rw d (scientific-digit u c i (digit c d))
  | inr nd ↦ rw nd tt
]
text_step invalid u c k i = tt
