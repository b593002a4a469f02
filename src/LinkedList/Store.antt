-- ===== src/LinkedList/Store.antt =====
-- The memory of the list benchmark: cells of type `list_head` and cells of type `list_data` by address,
-- the structure `core_results`, and commands that read and write them. Address 0 is `NULL`.
use zr_soc.Common.{ℕ, List, Option, none, some, ◌==◌, if◌then◌else◌, Run, ok, fault, out_of_fuel}
use zr_soc.Matrix.{MatParams}

abbrev pub Ptr : Type 0
Ptr = ℕ

abbrev pub null : Ptr
null = 0

-- `list_head`.
pub record Head : Type 0 where
  pub next : Ptr
  pub info : Ptr

abbrev pub head : Ptr → Ptr → Head
head n i = record { next = n; info = i }

-- `list_data`: two `ee_s16` patterns.
pub record Data : Type 0 where
  pub data16 : ℕ
  pub idx : ℕ

abbrev pub item : ℕ → ℕ → Data
item d i = record { data16 = d; idx = i }

-- `core_results`, with the block of the state machine benchmark in place of the pointer to it.
pub record Results : Type 0 where
  pub seed1 : ℕ
  pub seed2 : ℕ
  pub seed3 : ℕ
  pub memblock3 : List ℕ
  pub size : ℕ
  pub iterations : ℕ
  pub execs : ℕ
  pub list : Ptr
  pub mat : MatParams
  pub crc : ℕ
  pub crclist : ℕ
  pub crcmatrix : ℕ
  pub crcstate : ℕ
  pub err : ℕ

pub record Memory : Type 0 where
  pub heads : Ptr → Option Head
  pub datas : Ptr → Option Data
  pub res : Results

abbrev pub Cmd : Type 0 → Type 0
Cmd A = Memory → Run (A × Memory)

abbrev pub pure : {A : Type 0} → A → Cmd A
pure a m = ok (a, m)

abbrev pub then_run : {A B : Type 0} → Run (A × Memory) → (A → Cmd B) → Run (B × Memory)
then_run (ok (a, m)) f = f a m
then_run fault f = fault
then_run out_of_fuel f = out_of_fuel

infixl 5 ◌>>=◌ ◌>>◌
abbrev pub ◌>>=◌ : {A B : Type 0} → Cmd A → (A → Cmd B) → Cmd B
c >>= f = λ m. then_run (c m) f

abbrev pub ◌>>◌ : {A B : Type 0} → Cmd A → Cmd B → Cmd B
c >> d = c >>= λ _. d

abbrev pub out_of_rounds : {A : Type 0} → Cmd A
out_of_rounds m = out_of_fuel

-- A loop or a calculation that does not touch the memory.
abbrev pub lift : {A : Type 0} → Run A → Cmd A
lift (ok a) m = ok (a, m)
lift fault m = fault
lift out_of_fuel m = out_of_fuel

-- The map with one address changed.
unfoldable pub update {ℓ} : {A : Type ℓ} → (Ptr → Option A) → Ptr → A → Ptr → Option A
update f p v a = if a == p then some v else f a

abbrev pub checked : {A : Type 0} → Option A → Cmd A
checked none m = fault
checked (some a) m = ok (a, m)

-- `*p` for a list cell: a fault at `NULL` and where there is no cell.
unfoldable pub get_head : Ptr → Cmd Head
get_head p m = if p == null then fault else checked (m.heads p) m

abbrev pub put_head : Ptr → Head → Cmd (Unit {0})
put_head p h m = ok (tt, record m { heads = update m.heads p h })

-- `p->next = q;`
unfoldable pub set_next : Ptr → Ptr → Cmd (Unit {0})
set_next p q = do h ← get_head p; put_head p (head q h.info)

-- `p->info = i;`
unfoldable pub set_info : Ptr → Ptr → Cmd (Unit {0})
set_info p i = do h ← get_head p; put_head p (head h.next i)

-- `*d` for a data cell.
unfoldable pub get_data : Ptr → Cmd Data
get_data d m = if d == null then fault else checked (m.datas d) m

-- `*d = v;`
unfoldable pub set_data : Ptr → Data → Cmd (Unit {0})
set_data d v = do get_data d; λ m. ok (tt, record m { datas = update m.datas d v })

abbrev pub get_res : Cmd Results
get_res m = ok (m.res, m)

abbrev pub put_res : Results → Cmd (Unit {0})
put_res r m = ok (tt, record m { res = r })
