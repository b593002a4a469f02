-- ===== src/Crc.antt =====
-- The CRC service functions of sw/coremark/core_util.c.
pub mod Step
pub mod Reference
pub mod Linear
pub mod Message
mod Examples
use zr_soc.Common.{
  ℕ, zero, suc, ◌+◌, ◌/◌, ◌%◌, ◌^◌, u8, u16, ◌>>>◌, bit_and, bit_or, bit_xor, ◌==◌, if◌then◌else◌,
}

-- The variables of the loop: `data` loses its low bit in each round, `crc` takes it in.
pub record Round : Type 0 where
  pub input : ℕ
  pub crc : ℕ

abbrev pub round : ℕ → ℕ → Round
round a c = record { input = a; crc = c }

-- The body of the `for`: `carry` is set and read within one round.
unfoldable pub crc_round : Round → Round
crc_round r =
    let x16 = u8 (bit_xor (bit_and r.input 1) (bit_and (u8 r.crc) 1)) in
    if x16 == 1
    then round (r.input >>> 1) (bit_or (bit_xor r.crc 0x4002 >>> 1) 0x8000)
    else round (r.input >>> 1) (bit_and (r.crc >>> 1) 0x7fff)

unfoldable pub crc_rounds : ℕ → Round → Round
crc_rounds zero r = r
crc_rounds (suc n) r = crc_rounds n (crc_round r)

-- `data` and `crc` are an `ee_u8` and an `ee_u16`, so the caller converts them.
unfoldable pub crcu8 : ℕ → ℕ → ℕ
unfolding crc_rounds crc_round
crcu8 input crc = (crc_rounds 8 (round input crc)).crc

unfoldable pub crcu16 : ℕ → ℕ → ℕ
crcu16 newval crc = crcu8 (u8 (newval >>> 8)) (crcu8 (u8 newval) crc)

-- A signed argument is its bit pattern, so the conversion to `ee_u16` changes nothing.
unfoldable pub crc16 : ℕ → ℕ → ℕ
crc16 newval crc = crcu16 newval crc

unfoldable pub crcu32 : ℕ → ℕ → ℕ
crcu32 newval crc = crc16 (u16 (newval >>> 16)) (crc16 (u16 newval) crc)
