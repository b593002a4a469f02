-- ===== src/Common/Loop.antt =====
-- Counted loops and array accesses that may fault, and the rule by which a loop keeps an invariant.
use Prim.Native.Nat.{ℕ, zero, suc, ◌+◌, ◌<◌}
use mathlib.Core.Path.{◌≡◌, refl, subst}
use mathlib.Core.Bool.{Bool, true, false}
use mathlib.Core.List.{List, [], ◌∷◌}
use native.Mathlib.Omega.{arith}
use zr_soc.Common.Tests.{ltb, if◌then◌else◌, lt→ltb}
use zr_soc.Common.Lists.{length, get_elem?, get_or, set}
use zr_soc.Common.Outcome.{Run, ok, fault, ◌>>=◌, from_option, bind-ok, ok-injective}

-- `for (...; left rounds; i++) body(i);`
unfoldable pub for_loop {ℓ} : {S : Type ℓ} → ℕ → ℕ → (ℕ → S → Run S) → S → Run S
for_loop zero i body s = ok s
for_loop (suc left) i body s = body i s >>= for_loop left (i + 1) body

-- The loop returns a state of which the predicate holds.
pub record Reaches {ℓ κ} {S : Type ℓ} (P : S → Type κ) (r : Run S) : Type (ℓ ⊔ κ) where
  pub out : S
  pub returns : r ≡ ok out
  pub holds : P out

pub bind-Reaches {ℓ κ μ ν} :
    {A : Type ℓ} {B : Type κ} {P : A → Type μ} {Q : B → Type ν} {r : Run A} (f : A → Run B)
    → Reaches P r
    → ((a : A) → P a → Reaches Q (f a))
    → Reaches Q (r >>= f)
bind-Reaches f h k = rw h.returns (k h.out h.holds)

pub if-Reaches {ℓ κ} :
    {A : Type ℓ} {P : A → Type κ} (c : Bool) {x y : Run A}
    → Reaches P x
    → Reaches P y
    → Reaches P (if c then x else y)
if-Reaches true h k = h
if-Reaches false h k = k

pub ok-Reaches {ℓ κ} : {A : Type ℓ} {P : A → Type κ} {a : A} → P a → Reaches P (ok a)
ok-Reaches h = record { out = _; returns = refl; holds = h }

-- What the code returns, if it does, has the predicate.
pub record Yields {ℓ κ} {A : Type ℓ} (P : A → Type κ) (r : Run A) : Type (ℓ ⊔ κ) where
  pub on : (a : A) → r ≡ ok a → P a

pub bind-Yields {ℓ κ μ ν} :
    {A : Type ℓ} {B : Type κ} {P : A → Type μ} {Q : B → Type ν} {r : Run A} (f : A → Run B)
    → Yields P r
    → ((a : A) → P a → Yields Q (f a))
    → Yields Q (r >>= f)
bind-Yields {r = r} f h k = record {
  on = λ b e. let w = bind-ok r f e in (k w.0 (h.on w.0 w.1)).on b w.2;
}

pub after-Yields {ℓ κ ν} :
    {A : Type ℓ} {B : Type κ} {Q : B → Type ν} (r : Run A) (f : A → Run B)
    → ((a : A) → Yields Q (f a))
    → Yields Q (r >>= f)
after-Yields r f k = record { on = λ b e. let w = bind-ok r f e in (k w.0).on b w.2 }

pub if-Yields {ℓ κ} :
    {A : Type ℓ} {P : A → Type κ} (c : Bool) {x y : Run A}
    → Yields P x
    → Yields P y
    → Yields P (if c then x else y)
if-Yields true h k = h
if-Yields false h k = k

pub ok-Yields {ℓ κ} : {A : Type ℓ} {P : A → Type κ} {a : A} → P a → Yields P (ok a)
ok-Yields {P = P} h = record { on = λ b e. subst P (ok-injective e) h }

pub for_loop-Reaches {ℓ κ} :
    {S : Type ℓ} (P : ℕ → S → Type κ) (n : ℕ) (body : ℕ → S → Run S)
    → ((i : ℕ) (s : S) → i < n → P i s → Reaches (P (i + 1)) (body i s))
    → (left i : ℕ) (s : S) → i + left ≡ n
    → P i s
    → Reaches (P n) (for_loop left i body s)
unfolding for_loop
for_loop-Reaches P n body keep zero i s e h = record {
  out = s;
  returns = refl;
  holds = subst (λ k. P k s) (omega arith) h;
}
for_loop-Reaches P n body keep (suc left) i s e h =
    let one = keep i s (omega arith) h in
    let rest = for_loop-Reaches P n body keep left (i + 1) one.out (omega arith) one.holds in
    record { out = rest.out; returns = rw one.returns rest.returns; holds = rest.holds }

-- `xs[i]` and `xs[i] = v`.
unfoldable pub load {ℓ} : {A : Type ℓ} → List A → ℕ → Run A
load xs i = from_option (get_elem? xs i)

unfoldable pub store {ℓ} : {A : Type ℓ} → List A → ℕ → A → Run (List A)
store xs i v = if ltb i (length xs) then ok (set xs i v) else fault

pub load-ok {ℓ} :
    {A : Type ℓ} (xs : List A) (i : ℕ) (d : A) → i < length xs → load xs i ≡ ok (get_or xs i d)
unfolding load
load-ok [] i d h = absurd (omega arith)
load-ok (x ∷ xs) zero d h = refl
load-ok (x ∷ xs) (suc i) d h = load-ok xs i d (omega arith)

pub store-ok {ℓ} :
    {A : Type ℓ} (xs : List A) (i : ℕ) (v : A) → i < length xs → store xs i v ≡ ok (set xs i v)
unfolding store
store-ok xs i v h = rw (lt→ltb i (length xs) h)
