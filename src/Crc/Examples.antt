-- ===== src/Crc/Examples.antt =====
-- Tests of the checksum, and its theorems at concrete words.
use zr_soc.Common.{◌≡◌, ◌≢◌, refl, [], ◌∷◌, ◌++◌, bit_xor, arith}
use zr_soc.Crc.{crcu8, crcu16, crc16}
use zr_soc.Crc.Reference.{arc_shifts}
use zr_soc.Crc.Linear.{crcu16-arc}
use zr_soc.Crc.Message.{crc_words, crc_words_detects}

-- The check value of CRC-16/ARC over the digits 1 to 9 is 0xbb3d; here are its first four words.
crc_digits : crcu8 b'9' (crcu16 0x3837 (crcu16 0x3635 (crcu16 0x3433 (crcu16 0x3231 0)))) ≡ 0xbb3d
unfolding crcu16 crcu8
crc_digits = refl

-- `seedcrc` of the 2K performance run: seeds 0, 0 and 0x66 and a size of 666.
seed_words : crc_words (0 ∷ 0 ∷ 0x66 ∷ 666 ∷ []) 0 ≡ 0xe9f5
unfolding crc_words crc16 crcu16 crcu8
seed_words = refl

crc_words_detects_example :
    crc_words ((1 ∷ []) ++ 2 ∷ 4 ∷ []) 0 ≢ crc_words ((1 ∷ []) ++ 3 ∷ 4 ∷ []) 0
crc_words_detects_example =
    crc_words_detects (1 ∷ []) (4 ∷ []) 2 3 0 (omega arith) (omega arith) (omega arith)
      (omega arith)

crcu16-arc_example : crcu16 0x3231 0xffff ≡ arc_shifts 16 (bit_xor 0xffff 0x3231)
crcu16-arc_example = crcu16-arc 0x3231 0xffff (omega arith) (omega arith)
