-- ===== src/LinkedList/Cached.antt =====
-- `calc_func` of sw/coremark/core_list_join.c: it returns, keeps what the benchmarks need, and caches its
-- result in the item.
use zr_soc.Common.{
  ℕ, ◌^◌, ◌<◌, ◌≡◌, refl, ap, ◌∙◌, ◌≢◌, ◌⊎◌, bit_and, ◌==◌, false, Bool-cases, inl, inr, eq→==,
  ==→eq, some, ok, arith,
}
use zr_soc.Crc.{crcu16}
use zr_soc.LinkedList.Store.{Ptr, null, Data, item, Memory, Results, update}
use zr_soc.LinkedList.Chain.{update_self, update-ne, get_data-ok, set_data-ok}
use zr_soc.LinkedList.Digits.{optype-cached, low-cached, seven_bits}
use zr_soc.LinkedList.Calc.{optype, calc_switch, cached, set_data16, calc_func}
use zr_soc.LinkedList.Switch.{Ready, SameInputs, Runs, calc_switch-Runs}

-- What an item gives that is not cached: the low seven bits of what its function returns, which is also
-- folded into the checksum.
pub Computed : (m : Memory) (d : Data) (value : ℕ) (after : Memory) → Type 0
Computed m d value after =
    (v : ℕ) × (n : Memory) × (calc_switch d.data16 m ≡ ok (v, n))
    × (value ≡ bit_and v 0x007f)
    × (after.res.crc ≡ crcu16 v n.res.crc)

-- What a call of `calc_func` on a data cell does: it returns a value of seven bits, that of the cache or that
-- of the function, keeps it in the item, writes to no other data cell and to no list cell, keeps the inputs of
-- the benchmarks and the results ready, and a second call returns the same value and writes nothing.
pub record Calculated (m : Memory) (p : Ptr) (d : Data) : Type 0 where
  pub value : ℕ
  pub after : Memory
  pub returns : calc_func p m ≡ ok (value, after)
  pub bounded : value < 2 ^ 7
  pub source :
      ((optype d.data16 ≡ 1) × (value ≡ bit_and d.data16 0x007f) × (after ≡ m))
      ⊎ Computed m d value after
  pub cell : Data
  pub stored : after.datas p ≡ some cell
  pub same_idx : cell.idx ≡ d.idx
  pub marked : optype cell.data16 ≡ 1
  pub low : bit_and cell.data16 0x007f ≡ value
  pub heads : after.heads ≡ m.heads
  pub others : (q : Ptr) → q ≢ p → after.datas q ≡ m.datas q
  pub inputs : SameInputs m.res after.res
  pub ready : Ready after.res
  pub again : calc_func p after ≡ ok (value, after)

calc_func-cached :
    (m : Memory) (p : Ptr) (d : Data)
    → p ≢ null
    → m.datas p ≡ some d
    → optype d.data16 ≡ 1
    → calc_func p m ≡ ok (bit_and d.data16 0x007f, m)
unfolding calc_func
calc_func-cached m p d nn e c = rw (get_data-ok m p d nn e) (rw (eq→== (optype d.data16) 1 c) refl)

calc_func-calculates :
    (m : Memory) (p : Ptr) (d : Data)
    → p ≢ null
    → m.datas p ≡ some d
    → (optype d.data16 == 1) ≡ false
    → (x : Runs m (calc_switch d.data16 m))
    → calc_func p m
      ≡ ok (
        bit_and x.value 0x007f,
        record m {
          res = record x.res { crc = crcu16 x.value x.res.crc };
          datas = update m.datas p (item (cached d.data16 x.value) d.idx);
        },
      )
unfolding calc_func set_data16
calc_func-calculates m p d nn e c x =
    let m' = record m { res = record x.res { crc = crcu16 x.value x.res.crc } } in
    rw (get_data-ok m p d nn e) (
      rw (c, x.returns)
        (rw (get_data-ok m' p d nn e)
          (rw (set_data-ok m' p d (item (cached d.data16 x.value) d.idx) nn e) refl)))

-- Where the results are ready and the data cell is in memory, `calc_func` calculates and caches, whichever
-- of its functions the item asks for and whether or not the item is cached already.
pub calc_func-Calculated :
    (m : Memory) (p : Ptr) (d : Data)
    → p ≢ null
    → m.datas p ≡ some d
    → Ready m.res
    → Calculated m p d
unfolding SameInputs Computed
calc_func-Calculated m p d nn e g = elim (Bool-cases (optype d.data16 == 1)) [
  | inl c ↦
      (let run = calc_func-cached m p d nn e (==→eq (optype d.data16) 1 c) in
        record {
          value = bit_and d.data16 0x007f;
          after = m;
          returns = run;
          bounded = short d.data16;
          source = inl (==→eq (optype d.data16) 1 c, refl, refl);
          cell = d;
          stored = e;
          same_idx = refl;
          marked = ==→eq (optype d.data16) 1 c;
          low = refl;
          inputs = refl;
          heads = refl;
          others = λ q ne. refl;
          ready = g;
          again = run;
        })
  | inr c ↦
      (let x = calc_switch-Runs m d.data16 g in
        let v = item (cached d.data16 x.value) d.idx in
        let m' = record m {
          res = record x.res { crc = crcu16 x.value x.res.crc };
          datas = update m.datas p v;
        } in
        record {
          value = bit_and x.value 0x007f;
          after = m';
          returns = calc_func-calculates m p d nn e c x;
          bounded = short x.value;
          source = inr (x.value, record m { res = x.res }, x.returns, refl, refl);
          cell = v;
          stored = update_self m.datas p v;
          same_idx = refl;
          marked = optype-cached d.data16 x.value;
          low = low-cached d.data16 x.value;
          inputs = ap (λ (r : Results). record r { crc = crcu16 x.value x.res.crc }) x.inputs;
          heads = refl;
          others = λ q ne. update-ne m.datas p v q ne;
          ready = record {
            block = x.ready.block;
            seeds = x.ready.seeds;
            survives = x.ready.survives;
            small = x.ready.small;
            fits_A = x.ready.fits_A;
            fits_B = x.ready.fits_B;
            fits_C = x.ready.fits_C;
            words = x.ready.words;
          };
          again =
              calc_func-cached m' p v nn (update_self m.datas p v) (optype-cached d.data16 x.value)
              ∙ ap (λ (t : ℕ). ok (t, m')) (low-cached d.data16 x.value);
        })
]
  where
    short : (v : ℕ) → bit_and v 0x007f < 2 ^ 7
    short v = omega (arith, seven_bits v)
