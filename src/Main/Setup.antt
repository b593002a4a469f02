-- ===== src/Main/Setup.antt =====
-- The calls of the initialisations in `main` of sw/coremark/core_main.c, for one context, and what they
-- leave to the benchmark.
use zr_soc.Common.{
  ℕ, ◌+◌, ◌*◌, ◌^◌, ◌<◌, ◌≤◌, ◌≡◌, ◌≢◌, some, if◌then◌else◌, bit_or, ◌<<<◌, sext16, u32, List,
  length, take, Run, ok, ◌>>=◌,
}
use zr_soc.Matrix.{MatParams}
use zr_soc.Matrix.Test.{IsS16}
use zr_soc.Matrix.Init.{core_init_matrix, Layout, Filling}
use zr_soc.State.Bench.{core_init_state}
use zr_soc.LinkedList.Store.{Ptr, null, Data, Memory, Results}
use zr_soc.LinkedList.Init.{core_list_init}
use zr_soc.LinkedList.Cached.{Calculated}
use zr_soc.LinkedList.Switch.{Ready}
use zr_soc.Main.{executes}

-- `(ee_s32)seed1 | (((ee_s32)seed2) << 16)`
unfoldable pub matrix_seed : Results → ℕ
matrix_seed r = bit_or (sext16 r.seed1) (u32 (sext16 r.seed2 <<< 16))

-- The cells of the three arrays in the block of the matrix benchmark, and the address of the block.
pub record MatrixBlock : Type 0 where
  pub memblk : ℕ
  pub A : List ℕ
  pub B : List ℕ
  pub C : List ℕ

-- The arrays have N * N cells each.
unfoldable pub matrices : MatrixBlock → Layout × Filling → MatParams
matrices b x =
    let cells = x.0.N * x.0.N in
    record { N = x.0.N; A = take cells x.1.A; B = take cells x.1.B; C = take cells b.C }

-- `if (results[i].execs & ID_MATRIX)`
unfoldable pub init_matrix : MatrixBlock → Results → Run Results
init_matrix b r =
    if executes r.execs 1
    then (core_init_matrix r.size b.memblk (matrix_seed r) b.A b.B >>= λ x.
        ok (record r { mat = matrices b x }))
    else ok r

-- `if (results[i].execs & ID_STATE)`
unfoldable pub init_state : Results → Run Results
init_state r =
    if executes r.execs 2
    then (core_init_state r.size r.seed1 r.memblock3 >>= λ block.
        ok (record r { memblock3 = block }))
    else ok r

unfoldable pub init_blocks : MatrixBlock → Results → Run Results
init_blocks b r = init_matrix b r >>= init_state

-- `if (results[i].execs & ID_LIST)`
unfoldable pub init_list : (rounds : ℕ) → (memblk : Ptr) → Memory → Run Memory
init_list rounds memblk m =
    if executes m.res.execs 0
    then (core_list_init rounds m.res.size memblk m.res.seed1 m >>= λ x.
        ok (record x.1 { res = record x.1.res { list = x.0 } }))
    else ok m

-- `for (i=0 ; i<MULTITHREAD; i++)` for the one context.
unfoldable pub call_inits : (rounds : ℕ) → (memblk : Ptr) → MatrixBlock → Memory → Run Memory
call_inits rounds memblk b m =
    init_list rounds memblk m >>= λ n. init_blocks b n.res >>= λ r. ok (record n { res = r })

-- The block of the matrix benchmark lies in memory, and the arrays have room in it.
pub record Placed (size : ℕ) (b : MatrixBlock) : Type 0 where
  pub address : 0 < b.memblk
  pub inside : b.memblk + size + 6 < 2 ^ 32
  pub room_A : size ≤ 8 * length b.A
  pub room_B : size ≤ 8 * length b.B
  pub room_C : size ≤ 8 * length b.C

-- The matrices that are left are those that the matrix benchmark asks for.
record Matrices (r : Results) : Type 0 where
  small : r.mat.N * r.mat.N ≤ 2 ^ 32
  fits_A : r.mat.N * r.mat.N ≤ length r.mat.A
  fits_B : r.mat.N * r.mat.N ≤ length r.mat.B
  fits_C : r.mat.N * r.mat.N ≤ length r.mat.C
  words : IsS16 r.mat.A

-- The results are ready, and with them `calc_func` runs on every item: it returns, keeps the inputs of the
-- benchmarks, and a second call returns the same value.
pub record Prepared (s : Results) : Type 0 where
  pub ready : Ready s
  pub items :
      (m : Memory) (p : Ptr) (d : Data)
      → m.res ≡ s
      → p ≢ null
      → m.datas p ≡ some d
      → Calculated m p d
