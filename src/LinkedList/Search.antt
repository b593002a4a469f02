-- ===== src/LinkedList/Search.antt =====
-- `core_list_find` of sw/coremark/core_list_join.c.
use zr_soc.Common.{
  ℕ, zero, suc, ◌<◌, ◌≡◌, refl, ◌≢◌, ap, true, false, some, List, [], ◌∷◌, ◌++◌, length, All, Run,
  ok, ne→==, bit_and, bit_and-mask, sext16, ◌^◌, ◌%◌, ◌≤◌, ◌⊎◌, ◌∙◌, Bool-cases, inl, inr, arith,
}
use mathlib.Core.Path.{subst}
use zr_soc.LinkedList.{differs, core_list_find}
use zr_soc.LinkedList.Store.{Ptr, null, head, Data, Memory}
use zr_soc.LinkedList.Chain.{Cell, first, Linked, get_head-ok, get_data-ok}

-- The data of every cell is in memory, and `d` tells it.
abbrev pub Holds : Memory → (Ptr → Data) → List Cell → Type 0
Holds m d = All (λ c. (c.info ≢ null) × (m.datas c.info ≡ some (d c.info)))

-- What the search looks for: an index that is not negative, or else a data value, which the low byte of the
-- item has.
pub Matches : (wanted found : Data) → Type 0
Matches wanted found =
    ((wanted.idx < 2 ^ 15) × (found.idx ≡ wanted.idx))
    ⊎ ((2 ^ 15 ≤ wanted.idx) × (found.data16 % 2 ^ 8 ≡ sext16 wanted.data16))

low_byte : (d : ℕ) → bit_and (sext16 d) 0xff ≡ d % 2 ^ 8
low_byte d = bit_and-mask 8 (sext16 d) ∙ ground arith

differs-Matches : (wanted found : Data) → differs wanted found ≡ false → Matches wanted found
unfolding differs Matches
differs-Matches wanted found e = ground (arith, low_byte found.data16)

Matches-differs : (wanted found : Data) → differs wanted found ≡ true → ¬ Matches wanted found
unfolding differs Matches
Matches-differs wanted found e h = ground (arith, low_byte found.data16)

-- The cells up to the one that is found, and the list from it on.
pub record Found (m : Memory) (wanted : Data) (d : Ptr → Data) (xs : List Cell)
    (r : Run (Ptr × Memory)) : Type 0 where
  pub before : List Cell
  pub rest : List Cell
  pub split : xs ≡ before ++ rest
  pub missed : All (λ c. ¬ Matches wanted (d c.info)) before
  pub hit : (c : Cell) (cs : List Cell) → rest ≡ c ∷ cs → Matches wanted (d c.info)
  pub returns : r ≡ ok (first rest null, m)

head_of : {c c' : Cell} {cs cs' : List Cell} → (c ∷ cs) ≡ (c' ∷ cs') → c ≡ c'
head_of e = cc

-- Searching a list, with more rounds than it has cells, leaves the memory as it is and returns the first
-- item that matches: by its index if the index that is looked for is not negative, and by the low byte of
-- its data otherwise. It returns `NULL` if none matches.
pub core_list_find-Found :
    (fuel : ℕ) (m : Memory) (wanted : Data) (d : Ptr → Data) (xs : List Cell)
    → length xs < fuel
    → Linked m.heads xs null
    → Holds m d xs
    → Found m wanted d xs (core_list_find fuel (first xs null) wanted m)
unfolding core_list_find
core_list_find-Found zero m wanted d xs f l h = absurd (omega arith)
core_list_find-Found (suc fuel) m wanted d [] f l h = record {
  before = [];
  rest = [];
  split = refl;
  missed = tt;
  hit = λ c cs e. cc;
  returns = refl;
}
core_list_find-Found (suc fuel) m wanted d (x ∷ xs) f (nn, e, l) ((nd, ed), h) =
    elim (Bool-cases (differs wanted (d x.info))) [
      | inl q ↦
          (let r = core_list_find-Found fuel m wanted d xs (omega arith) l h in
            record {
              before = x ∷ r.before;
              rest = r.rest;
              split = ap (λ ys. x ∷ ys) r.split;
              missed = (Matches-differs wanted (d x.info) q, r.missed);
              hit = r.hit;
              returns = rw (ne→== x.at null nn) (
                  rw (get_head-ok m x.at (head (first xs null) x.info) nn e)
                    (rw (get_data-ok m x.info (d x.info) nd ed) (rw q r.returns)));
            })
      | inr q ↦ record {
        before = [];
        rest = x ∷ xs;
        split = refl;
        missed = tt;
        hit = λ c cs e'.
            subst (λ z. Matches wanted (d z.info)) (head_of e')
              (differs-Matches wanted (d x.info) q);
        returns = rw (ne→== x.at null nn) (
            rw (get_head-ok m x.at (head (first xs null) x.info) nn e)
              (rw (get_data-ok m x.info (d x.info) nd ed) (rw q)));
      }
    ]
