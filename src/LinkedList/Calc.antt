-- ===== src/LinkedList/Calc.antt =====
-- The comparisons by which sw/coremark/core_list_join.c sorts its list. One of them runs the state
-- machine benchmark or the matrix benchmark on an item and caches the result in the item.
use zr_soc.Common.{
  ℕ, ◌+◌, ◌-◌, ◌*◌, ◌/◌, ◌^◌, bit_and, bit_or, ltb, ◌==◌, if◌then◌else◌, Bool, u32, sext16,
}
use zr_soc.Crc.{crcu16}
use zr_soc.State.Bench.{core_bench_state}
use zr_soc.Matrix.{core_bench_matrix}
use zr_soc.LinkedList.Store.{
  Ptr, item, Cmd, pure, ◌>>=◌, ◌>>◌, lift, get_data, set_data, get_res, put_res,
}

-- `(data>>7) & 1`, `data & 0x7`, and bits 3 to 6 twice.
unfoldable pub optype : ℕ → ℕ
optype d16 = bit_and (d16 / 2 ^ 7) 1

unfoldable pub flag : ℕ → ℕ
flag d16 = bit_and d16 0x7

unfoldable pub dtype : ℕ → ℕ
dtype d16 = let d = bit_and (d16 / 2 ^ 3) 0xf in bit_or d (d * 2 ^ 4)

-- Case 0 of the switch.
unfoldable pub calc_state : ℕ → Cmd ℕ
calc_state d16 = do
  r ← get_res
  (retval, block) ← lift (
      core_bench_state r.size r.memblock3 r.seed1 r.seed2
        (if ltb (dtype d16) 0x22 then 0x22 else dtype d16) r.crc)
  put_res
      (record r { memblock3 = block; crcstate = if r.crcstate == 0 then retval else r.crcstate })
  pure retval

-- Case 1 of the switch.
unfoldable pub calc_matrix : ℕ → Cmd ℕ
calc_matrix d16 = do
  r ← get_res
  (retval, mat) ← lift (core_bench_matrix r.mat (dtype d16) r.crc)
  put_res (record r { mat = mat; crcmatrix = if r.crcmatrix == 0 then retval else r.crcmatrix })
  pure retval

unfoldable pub calc_switch : ℕ → Cmd ℕ
calc_switch d16 =
    if flag d16 == 0 then calc_state d16 else if flag d16 == 1 then calc_matrix d16 else pure d16

-- `(data & 0xff00) | 0x0080 | retval`, where retval has been cut to seven bits.
unfoldable pub cached : (d16 retval : ℕ) → ℕ
cached d16 retval = bit_or (bit_or (bit_and d16 0xff00) 0x0080) (bit_and retval 0x007f)

-- `a->data16 = v;`
unfoldable pub set_data16 : Ptr → ℕ → Cmd (Unit {0})
set_data16 a v = do d ← get_data a; set_data a (item v d.idx)

unfoldable pub calc_func : Ptr → Cmd ℕ
calc_func pdata = do
  d ← get_data pdata
  if optype d.data16 == 1 then pure (bit_and d.data16 0x007f) else do
    retval ← calc_switch d.data16
    r ← get_res
    put_res (record r { crc = crcu16 retval r.crc })
    set_data16 pdata (cached d.data16 retval)
    pure (bit_and retval 0x007f)

-- The difference of two `ee_s16` as an `ee_s32`.
unfoldable pub difference : ℕ → ℕ → ℕ
difference a b = u32 (sext16 a + (2 ^ 32 - sext16 b))

unfoldable pub cmp_complex : (a b : Ptr) → Cmd ℕ
cmp_complex a b = do val1 ← calc_func a; val2 ← calc_func b; pure (difference val1 val2)

-- `(d & 0xff00) | (0x00ff & (d>>8))`.
unfoldable pub rebuilt : ℕ → ℕ
rebuilt d = bit_or (bit_and d 0xff00) (bit_and 0x00ff (d / 2 ^ 8))

unfoldable pub rebuild : Ptr → Cmd (Unit {0})
rebuild a = do d ← get_data a; set_data16 a (rebuilt d.data16)

-- The first argument tells whether `res` is `NULL`.
unfoldable pub cmp_idx : Bool → (a b : Ptr) → Cmd ℕ
cmp_idx res_is_null a b = do
  if res_is_null then (rebuild a >> rebuild b) else pure tt
  x ← get_data a
  y ← get_data b
  pure (difference x.idx y.idx)
