-- ===== src/LinkedList/Chain.antt =====
-- Linked lists in the memory of sw/coremark/core_list_join.c: the cells that a pointer leads to, and what
-- a write to one cell leaves alone.
use zr_soc.Common.{
  ◌==◌, ◌≡◌, refl, sym, ◌∙◌, ◌≢◌, Option, some, List, [], ◌∷◌, All, ok, eq→==, ne→==, ==→eq, ==→ne,
  Bool-cases, inl, inr, fun_ext, ap,
}
use zr_soc.LinkedList.Store.{
  Ptr, null, Head, head, Memory, get_head, set_next, set_info, update, Data, get_data, set_data,
}

-- A cell of a list: its address and its `info`.
pub record Cell : Type 0 where
  pub at : Ptr
  pub info : Ptr

-- The address of the first cell, or where the list stops.
abbrev pub first : List Cell → Ptr → Ptr
first [] stop = stop
first (c ∷ cs) stop = c.at

-- The cells are at their addresses, and each leads to the next, the last to `stop`.
abbrev pub Linked : (Ptr → Option Head) → List Cell → Ptr → Type 0
Linked h [] stop = Unit
Linked h (c ∷ cs) stop =
    (c.at ≢ null) × (h c.at ≡ some (head (first cs stop) c.info)) × Linked h cs stop

-- No cell is at the address.
abbrev pub Apart : Ptr → List Cell → Type 0
Apart a = All (λ c. c.at ≢ a)

-- No two cells are at one address.
abbrev pub Distinct : List Cell → Type 0
Distinct [] = Unit
Distinct (c ∷ cs) = Apart c.at cs × Distinct cs

pub update_self {ℓ} : {A : Type ℓ} (f : Ptr → Option A) (p : Ptr) (v : A) → update f p v p ≡ some v
unfolding update
update_self f p v = rw (eq→== p p refl)

pub update-ne {ℓ} :
    {A : Type ℓ} (f : Ptr → Option A) (p : Ptr) (v : A) (a : Ptr) → a ≢ p → update f p v a ≡ f a
unfolding update
update-ne f p v a ne = rw (ne→== a p ne)

pub Linked-update :
    (h : Ptr → Option Head) (a : Ptr) (v : Head) (cs : List Cell) (stop : Ptr)
    → Apart a cs
    → Linked h cs stop
    → Linked (update h a v) cs stop
Linked-update h a v [] stop out l = tt
Linked-update h a v (c ∷ cs) stop (ne, out) (nn, e, l) =
    (nn, update-ne h a v c.at ne ∙ e, Linked-update h a v cs stop out l)

-- The memory with another map of list cells.
abbrev pub with_heads : Memory → (Ptr → Option Head) → Memory
with_heads m h = record m { heads = h }

pub get_head-ok :
    (m : Memory) (p : Ptr) (h : Head) → p ≢ null → m.heads p ≡ some h → get_head p m ≡ ok (h, m)
unfolding get_head
get_head-ok m p h nn e = rw (ne→== p null nn) (rw e)

pub set_next-ok :
    (m : Memory) (p q : Ptr) (h : Head)
    → p ≢ null
    → m.heads p ≡ some h
    → set_next p q m ≡ ok (tt, with_heads m (update m.heads p (head q h.info)))
unfolding set_next
set_next-ok m p q h nn e = rw (get_head-ok m p h nn e)

pub set_info-ok :
    (m : Memory) (p i : Ptr) (h : Head)
    → p ≢ null
    → m.heads p ≡ some h
    → set_info p i m ≡ ok (tt, with_heads m (update m.heads p (head h.next i)))
unfolding set_info
set_info-ok m p i h nn e = rw (get_head-ok m p h nn e)

pub get_data-ok :
    (m : Memory) (p : Ptr) (d : Data) → p ≢ null → m.datas p ≡ some d → get_data p m ≡ ok (d, m)
unfolding get_data
get_data-ok m p d nn e = rw (ne→== p null nn) (rw e)

pub set_data-ok :
    (m : Memory) (p : Ptr) (d v : Data)
    → p ≢ null
    → m.datas p ≡ some d
    → set_data p v m ≡ ok (tt, record m { datas = update m.datas p v })
unfolding set_data
set_data-ok m p d v nn e = rw (get_data-ok m p d nn e)

pub update-update_self {ℓ} :
    {A : Type ℓ} (f : Ptr → Option A) (p : Ptr) (v w : A) → update (update f p v) p w ≡ update f p w
unfolding update
update-update_self f p v w =
    fun_ext λ a. elim (Bool-cases (a == p)) [ inl e ↦ rw e refl | inr e ↦ rw e refl ]

pub update-update_ne {ℓ} :
    {A : Type ℓ} (f : Ptr → Option A) (p q : Ptr) (v w : A)
    → p ≢ q
    → update (update f p v) q w ≡ update (update f q w) p v
update-update_ne f p q v w ne = fun_ext λ a. elim (Bool-cases (a == p)) [
  | inl e ↦ at_p a (==→eq a p e)
  | inr e ↦ elim (Bool-cases (a == q)) [
    | inl e' ↦ at_q a (==→eq a q e')
    | inr e' ↦
        update-ne (update f p v) q w a (==→ne a q e')
        ∙ update-ne f p v a (==→ne a p e)
        ∙ sym (update-ne f q w a (==→ne a q e'))
        ∙ sym (update-ne (update f q w) p v a (==→ne a p e))
  ]
]
  where
    at_p : (a : Ptr) → a ≡ p → update (update f p v) q w a ≡ update (update f q w) p v a
    at_p a e =
        update-ne (update f p v) q w a (λ h. ne (sym e ∙ h))
        ∙ ap (update f p v) e
        ∙ update_self f p v
        ∙ sym (ap (update (update f q w) p v) e ∙ update_self (update f q w) p v)

    at_q : (a : Ptr) → a ≡ q → update (update f p v) q w a ≡ update (update f q w) p v a
    at_q a e =
        ap (update (update f p v) q w) e
        ∙ update_self (update f p v) q w
        ∙ sym (
            update-ne (update f q w) p v a (λ h. ne (sym h ∙ e))
            ∙ ap (update f q w) e
            ∙ update_self f q w)

-- A write of what is there.
pub update-same {ℓ} :
    {A : Type ℓ} (f : Ptr → Option A) (p : Ptr) (v : A) → f p ≡ some v → update f p v ≡ f
update-same f p v h = fun_ext λ a. elim (Bool-cases (a == p)) [
  | inl e ↦ (let q = ==→eq a p e in ap (update f p v) q ∙ update_self f p v ∙ sym h ∙ ap f (sym q))
  | inr e ↦ update-ne f p v a (==→ne a p e)
]
