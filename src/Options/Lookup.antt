-- ===== src/Options/Lookup.antt =====
-- What `OptionsParser` of verilator/sim.cpp finds among the tokens.
use zr_soc.Common.{
  ◌≡◌, refl, ap₂, ◌≢◌, inl, inr, ◌==◌, Bool, true, false, ◌&&◌, List, [], ◌∷◌, ◌++◌, All,
  Bool-cases, ==→eq, eq→==,
}
use zr_soc.Options.{Text, same, find, second, get_cmd_option, is_empty, cmd_option_exists}

same_refl : (t : Text) → same t t ≡ true
unfolding same
same_refl [] = refl
same_refl (c ∷ cs) = rw (eq→== c c refl, same_refl cs) refl

both_true : (b c : Bool) → (b && c) ≡ true → (b ≡ true) × (c ≡ true)
both_true true c h = (refl, h)
both_true false c h = absurd cc

pub same→eq : (t u : Text) → same t u ≡ true → t ≡ u
unfolding same
same→eq [] [] h = refl
same→eq [] (d ∷ ds) h = absurd cc
same→eq (c ∷ cs) [] h = absurd cc
same→eq (c ∷ cs) (d ∷ ds) h =
    let both = both_true (c == d) (same cs ds) h in
    ap₂ (λ x (xs : Text). x ∷ xs) (==→eq c d both.0) (same→eq cs ds both.1)

find-append :
    (xs : List Text) (option : Text) (ys : List Text)
    → All (λ t. t ≢ option) xs
    → find (xs ++ option ∷ ys) option ≡ option ∷ ys
unfolding find
find-append [] option ys n = rw (same_refl option) refl
find-append (x ∷ xs) option ys n = elim (Bool-cases (same x option)) [
  | inl e ↦ absurd (n.0 (same→eq x option e))
  | inr e ↦ rw e (find-append xs option ys n.1)
]

find-absent : (xs : List Text) (option : Text) → All (λ t. t ≢ option) xs → find xs option ≡ []
unfolding find
find-absent [] option n = refl
find-absent (x ∷ xs) option n = elim (Bool-cases (same x option)) [
  | inl e ↦ absurd (n.0 (same→eq x option e))
  | inr e ↦ rw e (find-absent xs option n.1)
]

-- The value of an option is the token after its first occurrence, whatever that token looks like and
-- whatever follows.
pub get_cmd_option-append :
    (xs : List Text) (option value : Text) (ys : List Text)
    → All (λ t. t ≢ option) xs
    → get_cmd_option (xs ++ option ∷ value ∷ ys) option ≡ value
unfolding get_cmd_option second
get_cmd_option-append xs option value ys n = rw (find-append xs option (value ∷ ys) n) refl

pub cmd_option_exists-append :
    (xs : List Text) (option : Text) (ys : List Text)
    → All (λ t. t ≢ option) xs
    → cmd_option_exists (xs ++ option ∷ ys) option ≡ true
unfolding cmd_option_exists is_empty
cmd_option_exists-append xs option ys n = rw (find-append xs option ys n) refl

pub cmd_option_exists-absent :
    (xs : List Text) (option : Text)
    → All (λ t. t ≢ option) xs
    → cmd_option_exists xs option ≡ false
unfolding cmd_option_exists is_empty
cmd_option_exists-absent xs option n = rw (find-absent xs option n) refl
