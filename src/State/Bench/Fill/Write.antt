-- ===== src/State/Bench/Fill/Write.antt =====
-- Writes behind a text that is already in the block.
use mathlib.Core.List.{append_assoc}
use zr_soc.Common.{
  ℕ, zero, suc, ◌+◌, ◌<◌, ◌≡◌, refl, ap, ◌∙◌, List, [], ◌∷◌, ◌++◌, length, get_elem?, set, some,
  length-append, replicate, arith, ok, lt→ltb,
}
use zr_soc.State.Bench.{Pattern, write_at, copy_pattern, put_pattern, zero_loop}

set-append : (xs ys : List ℕ) (y v : ℕ) → set (xs ++ y ∷ ys) (length xs) v ≡ xs ++ v ∷ ys
set-append [] ys y v = refl
set-append (x ∷ xs) ys y v = ap (◌∷◌ x) (set-append xs ys y v)

get_elem?-append : (xs ys : List ℕ) (y : ℕ) → get_elem? (xs ++ y ∷ ys) (length xs) ≡ some y
get_elem?-append [] ys y = refl
get_elem?-append (x ∷ xs) ys y = get_elem?-append xs ys y

snoc-append : (xs ys : List ℕ) (y : ℕ) → (xs ++ y ∷ []) ++ ys ≡ xs ++ y ∷ ys
snoc-append xs ys y = append_assoc xs (y ∷ []) ys

length-snoc : (xs : List ℕ) (y : ℕ) → length (xs ++ y ∷ []) ≡ length xs + 1
length-snoc xs y = length-append xs (y ∷ [])

pub write_at-append :
    (text ys : List ℕ) (y v i : ℕ)
    → i ≡ length text
    → write_at (text ++ y ∷ ys) i v ≡ ok (text ++ v ∷ ys)
unfolding write_at
write_at-append text ys y v i e =
    rw
      (
        e,
        lt→ltb (length text) (length (text ++ y ∷ ys)) (omega (arith, length-append text (y ∷ ys))),
      )
      (ap ok (set-append text ys y v))

copy_pattern-append :
    (todo xs ys pre text : List ℕ) (total i : ℕ)
    → length xs ≡ length todo
    → i ≡ length pre
    → total + i ≡ length text
    → copy_pattern (length todo) i total (pre ++ todo) (text ++ (xs ++ ys))
      ≡ ok (text ++ (todo ++ ys))
unfolding copy_pattern
copy_pattern-append [] [] ys pre text total i e f g = refl
copy_pattern-append [] (x ∷ xs) ys pre text total i e f g = absurd (omega arith)
copy_pattern-append (c ∷ todo) [] ys pre text total i e f g = absurd (omega arith)
copy_pattern-append (c ∷ todo) (x ∷ xs) ys pre text total i e f g =
    rw
      (
        ap (get_elem? (pre ++ c ∷ todo)) f ∙ get_elem?-append pre todo c,
        write_at-append text (xs ++ ys) x c (total + i) g,
        ← snoc-append pre todo c,
        ← snoc-append text (xs ++ ys) c,
        ← snoc-append text (todo ++ ys) c,
      )
      (copy_pattern-append todo xs ys (pre ++ c ∷ []) (text ++ c ∷ []) total (i + 1) (omega arith)
        (omega (arith, length-snoc pre c)) (omega (arith, length-snoc text c)))

-- A pattern with its comma replaces as many bytes behind the text.
pub put_pattern-append :
    (p : Pattern) (xs ys text : List ℕ) (y total : ℕ)
    → p.next ≡ length p.buf
    → length xs ≡ length p.buf
    → total ≡ length text
    → put_pattern p total (text ++ (xs ++ y ∷ ys)) ≡ ok (text ++ (p.buf ++ b',' ∷ ys))
unfolding put_pattern
put_pattern-append p xs ys text y total e f g =
    rw
      (
        e,
        copy_pattern-append p.buf xs (y ∷ ys) [] text total 0 f refl (omega arith),
        ← append_assoc text p.buf (y ∷ ys),
        ← append_assoc text p.buf (b',' ∷ ys),
      )
      (write_at-append (text ++ p.buf) ys y b',' (total + length p.buf)
        (omega (arith, length-append text p.buf)))

pub zero_loop-append :
    (xs ys text : List ℕ) (total : ℕ)
    → total ≡ length text
    → zero_loop (length xs) total (text ++ (xs ++ ys))
      ≡ ok (text ++ (replicate (length xs) 0 ++ ys))
unfolding zero_loop
zero_loop-append [] ys text total e = refl
zero_loop-append (x ∷ xs) ys text total e =
    rw
      (
        write_at-append text (xs ++ ys) x 0 total e,
        ← snoc-append text (xs ++ ys) 0,
        ← snoc-append text (replicate (length xs) 0 ++ ys) 0,
      )
      (zero_loop-append xs ys (text ++ 0 ∷ []) (total + 1) (omega (arith, length-snoc text 0)))

-- A list of more than n elements around its n-th element.
pub record Split (n : ℕ) (l : List ℕ) : Type 0 where
  pub front : List ℕ
  pub item : ℕ
  pub back : List ℕ
  pub front_length : length front ≡ n
  pub parts : l ≡ front ++ item ∷ back

pub split : (n : ℕ) (l : List ℕ) → n < length l → Split n l
split n [] h = absurd (omega arith)
split zero (x ∷ l) h = record { front = []; item = x; back = l; front_length = refl; parts = refl }
split (suc n) (x ∷ l) h =
    let s = split n l (omega arith) in
    record {
      front = x ∷ s.front;
      item = s.item;
      back = s.back;
      front_length = ap suc s.front_length;
      parts = ap (◌∷◌ x) s.parts;
    }
