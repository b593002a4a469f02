-- ===== src/LinkedList/Sort/Tail.antt =====
-- The list that a merge of `core_list_mergesort` has built so far, and one cell more at its end.
use mathlib.Core.Path.{subst}
use zr_soc.Common.{◌≡◌, refl, sym, ◌∙◌, ◌≢◌, ne→==, List, [], ◌∷◌, ◌++◌, All, Option, some, ok}
use zr_soc.LinkedList.Store.{Ptr, null, Head, head, Memory, update}
use zr_soc.LinkedList.Chain.{
  Cell, first, Linked, Apart, update_self, update-ne, with_heads, set_next-ok,
}
use zr_soc.LinkedList.Sort.{Merging, append_cell}

-- The cells of one list are none of the other.
abbrev pub Away : List Cell → List Cell → Type 0
Away xs ys = All (λ x. Apart x.at ys) xs

pub Apart-snoc :
    (a : Ptr) (xs : List Cell) (e : Cell) → Apart a xs → e.at ≢ a → Apart a (xs ++ e ∷ [])
Apart-snoc a [] e h ne = (ne, tt)
Apart-snoc a (x ∷ xs) e (n, h) ne = (n, Apart-snoc a xs e h ne)

pub Away-snoc : (xs ys : List Cell) (e : Cell) → Away xs ys → Apart e.at xs → Away xs (ys ++ e ∷ [])
Away-snoc [] ys e h o = tt
Away-snoc (x ∷ xs) ys e (n, h) (ne, o) =
    (Apart-snoc x.at ys e n (λ q. ne (sym q)), Away-snoc xs ys e h o)

-- Cells that a map agrees on are linked in both.
pub Linked-agree :
    (h h' : Ptr → Option Head) (ds cs : List Cell) (stop : Ptr)
    → ((a : Ptr) → Apart a ds → h' a ≡ h a)
    → Away cs ds
    → Linked h cs stop
    → Linked h' cs stop
Linked-agree h h' ds [] stop same o l = tt
Linked-agree h h' ds (c ∷ cs) stop same (o, os) (nn, e, l) =
    (nn, same c.at o ∙ e, Linked-agree h h' ds cs stop same os l)

-- The last cell of a list is redirected.
Linked-redirect :
    (h : Ptr → Option Head) (init : List Cell) (l : Cell) (stop e : Ptr)
    → Apart l.at init
    → Linked h (init ++ l ∷ []) stop
    → Linked (update h l.at (head e l.info)) (init ++ l ∷ []) e
Linked-redirect h [] l stop e o (nn, q, t) = (nn, update_self h l.at (head e l.info), tt)
Linked-redirect h (c ∷ []) l stop e (n, o) (nn, q, t) =
    (nn, update-ne h l.at (head e l.info) c.at n ∙ q, Linked-redirect h [] l stop e o t)
Linked-redirect h (c ∷ d ∷ cs) l stop e (n, o) (nn, q, t) =
    (nn, update-ne h l.at (head e l.info) c.at n ∙ q, Linked-redirect h (d ∷ cs) l stop e o t)

-- A cell is linked in behind a list that leads to it.
Linked-snoc :
    (h : Ptr → Option Head) (cs : List Cell) (e : Cell) (next : Ptr)
    → Linked h cs e.at
    → e.at ≢ null
    → h e.at ≡ some (head next e.info)
    → Linked h (cs ++ e ∷ []) next
Linked-snoc h [] e next l nn q = (nn, q, tt)
Linked-snoc h (c ∷ []) e next (n, r, l) nn q = (n, r, (nn, q, tt))
Linked-snoc h (c ∷ d ∷ cs) e next (n, r, l) nn q = (n, r, Linked-snoc h (d ∷ cs) e next l nn q)

-- What `list` and `tail` lead to: nothing yet, or a list whose last cell leads anywhere.
pub data Built (h : Ptr → Option Head) : List Cell → (list tail : Ptr) → Type 0 where
  nothing : Built h [] null null
  upto :
      (init : List Cell) (l : Cell) (stop : Ptr)
      → Apart l.at init
      → Linked h (init ++ l ∷ []) stop
      → Built h (init ++ l ∷ []) (first (init ++ l ∷ []) null) l.at

-- The cell has been appended.
pub record Appended (m : Memory) (h : Ptr → Option Head) (ds : List Cell) (e : Cell) (s : Merging)
    : Type 0 where
  pub heads : Ptr → Option Head
  pub list : Ptr
  pub returns :
      append_cell e.at s (with_heads m h)
      ≡ ok (record s { list = list; tail = e.at }, with_heads m heads)
  pub built : Built heads (ds ++ e ∷ []) list e.at
  pub frame : (a : Ptr) → Apart a ds → heads a ≡ h a

first-snoc :
    (cs : List Cell) (l e : Cell)
    → first ((cs ++ l ∷ []) ++ e ∷ []) null ≡ first (cs ++ l ∷ []) null
first-snoc [] l e = refl
first-snoc (c ∷ cs) l e = refl

last_not_null :
    (h : Ptr → Option Head) (init : List Cell) (l : Cell) (stop : Ptr)
    → Linked h (init ++ l ∷ []) stop
    → l.at ≢ null
last_not_null h [] l stop k = k.0
last_not_null h (c ∷ cs) l stop k = last_not_null h cs l stop k.2

last_head :
    (h : Ptr → Option Head) (init : List Cell) (l : Cell) (stop : Ptr)
    → Linked h (init ++ l ∷ []) stop
    → h l.at ≡ some (head stop l.info)
last_head h [] l stop k = k.1
last_head h (c ∷ cs) l stop k = last_head h cs l stop k.2

Apart-last : (a : Ptr) (init : List Cell) (l : Cell) → Apart a (init ++ l ∷ []) → l.at ≢ a
Apart-last a [] l o = o.0
Apart-last a (c ∷ cs) l o = Apart-last a cs l o.1

pub append_cell-Appended :
    (m : Memory) (h : Ptr → Option Head) (ds : List Cell) (e : Cell) (next : Ptr) (s : Merging)
    (list tail : Ptr)
    → Built h ds list tail
    → s.list ≡ list
    → s.tail ≡ tail
    → e.at ≢ null
    → h e.at ≡ some (head next e.info)
    → Apart e.at ds
    → Appended m h ds e s
unfolding append_cell
append_cell-Appended m h _ e next s _ _ nothing sl st nn q o = record {
  heads = h;
  list = e.at;
  returns = rw st refl;
  built = upto [] e next tt (nn, q, tt);
  frame = λ a _. refl;
}
append_cell-Appended m h _ e next s _ _ (upto init l stop ol k) sl st nn q o =
    let hd : Head = head e.at l.info in
    let h' = update h l.at hd in
    let ne : l.at ≢ e.at = Apart-last e.at init l o in
    record {
      heads = h';
      list = first (init ++ l ∷ []) null;
      returns =
          rw (st, sl)
            (rw (ne→== l.at null (last_not_null h init l stop k)) (
              rw
                (set_next-ok (with_heads m h) l.at e.at (head stop l.info)
                  (last_not_null h init l stop k) (last_head h init l stop k))
                refl));
      built =
          subst (λ t. Built h' ((init ++ l ∷ []) ++ e ∷ []) t e.at) (first-snoc init l e)
            (upto (init ++ l ∷ []) e next o (
              Linked-snoc h' (init ++ l ∷ []) e next (Linked-redirect h init l stop e.at ol k) nn
                (update-ne h l.at hd e.at (λ z. ne (sym z)) ∙ q)));
      frame = λ a oa. update-ne h l.at hd a (λ z. Apart-last a init l oa (sym z));
    }
