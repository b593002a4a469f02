-- ===== src/LinkedList/Switch.antt =====
-- The benchmarks that `calc_func` of sw/coremark/core_list_join.c runs: they return and keep their inputs.
use zr_soc.Common.{
  ℕ, ◌*◌, ◌^◌, ◌<◌, ◌≤◌, ◌≡◌, refl, ◌∙◌, ltb, ◌==◌, if◌then◌else◌, Bool-cases, inl, inr, length,
  get_or, u8, Run, ok, arith,
}
use zr_soc.Crc.{crc16}
use zr_soc.State.Bench.Undo.{Survives}
use zr_soc.State.Bench.Count.{EndsInZeros, core_bench_state-Benched}
use zr_soc.Matrix.{core_bench_matrix}
use zr_soc.Matrix.Test.{IsS16, matrix_test-Tested}
use zr_soc.LinkedList.Store.{Memory, Results}
use zr_soc.LinkedList.Digits.{dtype-lt}
use zr_soc.LinkedList.Calc.{flag, dtype, calc_state, calc_matrix, calc_switch}

-- What the two benchmarks need to return and to leave their inputs as they were: a block that ends in two
-- zero bytes, seeds with equal low bytes, no byte that the corruption turns into a comma, and matrices of
-- N * N cells.
pub record Ready (r : Results) : Type 0 where
  pub block : EndsInZeros r.size r.memblock3
  pub seeds : u8 r.seed1 ≡ u8 r.seed2
  pub survives : (j : ℕ) → Survives r.seed1 (get_or r.memblock3 j 0)
  pub small : r.mat.N * r.mat.N ≤ 2 ^ 32
  pub fits_A : r.mat.N * r.mat.N ≤ length r.mat.A
  pub fits_B : r.mat.N * r.mat.N ≤ length r.mat.B
  pub fits_C : r.mat.N * r.mat.N ≤ length r.mat.C
  pub words : IsS16 r.mat.A

-- The results `s` with the block, the matrices A and B and all else of `r` but the matrix C and the
-- checksums.
unfoldable pub SameInputs : (r s : Results) → Type 0
SameInputs r s = s ≡ record r {
  mat = record r.mat { C = s.mat.C };
  crc = s.crc;
  crcmatrix = s.crcmatrix;
  crcstate = s.crcstate;
}

-- The command returns a value, and changes in the memory no more than the results, which keep their inputs
-- and stay ready.
pub record Runs (m : Memory) (out : Run (ℕ × Memory)) : Type 0 where
  pub value : ℕ
  pub res : Results
  pub returns : out ≡ ok (value, record m { res = res })
  pub ready : Ready res
  pub inputs : SameInputs m.res res

calc_state-Runs : (m : Memory) (d : ℕ) → Ready m.res → Runs m (calc_state d m)
unfolding calc_state SameInputs
calc_state-Runs m d g =
    let step = if ltb (dtype d) 0x22 then 0x22 else dtype d in
    let b =
      core_bench_state-Benched m.res.size m.res.seed1 m.res.seed2 step m.res.crc m.res.memblock3
        (long (dtype d)) (low (dtype d) (omega (arith, dtype-lt d))) g.block g.seeds in
    let same : b.block ≡ m.res.memblock3 = b.restored.1 (λ j _. g.survives j) in
    record {
      value = b.crc;
      res = record m.res {
        memblock3 = m.res.memblock3;
        crcstate = if m.res.crcstate == 0 then b.crc else m.res.crcstate;
      };
      returns = rw (b.returns, same);
      inputs = refl;
      ready = record {
        block = g.block;
        seeds = g.seeds;
        survives = g.survives;
        small = g.small;
        fits_A = g.fits_A;
        fits_B = g.fits_B;
        fits_C = g.fits_C;
        words = g.words;
      };
    }
  where
    long : (t : ℕ) → 2 ≤ (if ltb t 0x22 then 0x22 else t)
    long t = ground arith

    low : (t : ℕ) → t < 2 ^ 15 → (if ltb t 0x22 then 0x22 else t) < 2 ^ 15
    low t h = ground arith

calc_matrix-Runs : (m : Memory) (d : ℕ) → Ready m.res → Runs m (calc_matrix d m)
unfolding calc_matrix core_bench_matrix SameInputs
calc_matrix-Runs m d g =
    let p = m.res.mat in
    let t =
      matrix_test-Tested p.N (dtype d) p.C p.A p.B g.small g.fits_A g.fits_B g.fits_C g.words
        (omega (arith, dtype-lt d)) in
    let v = crc16 t.crc m.res.crc in
    record {
      value = v;
      res = record m.res {
        mat = record p { A = p.A; C = t.product };
        crcmatrix = if m.res.crcmatrix == 0 then v else m.res.crcmatrix;
      };
      returns = rw t.returns;
      inputs = refl;
      ready = record {
        block = g.block;
        seeds = g.seeds;
        survives = g.survives;
        small = g.small;
        fits_A = g.fits_A;
        fits_B = g.fits_B;
        fits_C = omega (arith, t.same_length, g.fits_C);
        words = g.words;
      };
    }

pub calc_switch-Runs : (m : Memory) (d : ℕ) → Ready m.res → Runs m (calc_switch d m)
unfolding calc_switch SameInputs
calc_switch-Runs m d g = elim (Bool-cases (flag d == 0)) [
  | inl e ↦ switched (calc_state-Runs m d g) (rw e refl)
  | inr e ↦ elim (Bool-cases (flag d == 1)) [
    | inl e' ↦ switched (calc_matrix-Runs m d g) (rw (e, e') refl)
    | inr e' ↦
        switched (record { value = d; res = m.res; returns = refl; ready = g; inputs = refl })
          (rw (e, e') refl)
  ]
]
  where
    switched : {r r' : Run (ℕ × Memory)} → Runs m r → r' ≡ r → Runs m r'
    switched x e = record {
      value = x.value;
      res = x.res;
      returns = e ∙ x.returns;
      ready = x.ready;
      inputs = x.inputs;
    }
