-- ===== src/Crc/Message.antt =====
-- The checksum of a sequence of words, folded in by `crc16` as the benchmark folds its results.
use zr_soc.Common.{ℕ, ◌^◌, ◌<◌, ◌≡◌, ◌≢◌, refl, List, [], ◌∷◌, ◌++◌}
use zr_soc.Crc.{crc16}
use zr_soc.Crc.Step.{crc16-lt}
use zr_soc.Crc.Reference.{crcu16_injective_crc}
use zr_soc.Crc.Linear.{crcu16_injective_word}

-- `for (...) crc = crc16(word, crc);`
unfoldable pub crc_words : List ℕ → ℕ → ℕ
crc_words [] crc = crc
crc_words (w ∷ ws) crc = crc_words ws (crc16 w crc)

crc_words-lt : (ws : List ℕ) (c : ℕ) → c < 2 ^ 16 → crc_words ws c < 2 ^ 16
unfolding crc_words
crc_words-lt [] c h = h
crc_words-lt (w ∷ ws) c h = crc_words-lt ws (crc16 w c) (crc16-lt w c h)

crc_words-append : (us ws : List ℕ) (c : ℕ) → crc_words (us ++ ws) c ≡ crc_words ws (crc_words us c)
unfolding crc_words
crc_words-append [] ws c = refl
crc_words-append (u ∷ us) ws c = crc_words-append us ws (crc16 u c)

crc_words_injective :
    (ws : List ℕ) (c d : ℕ) → c < 2 ^ 16 → d < 2 ^ 16 → crc_words ws c ≡ crc_words ws d → c ≡ d
unfolding crc_words crc16
crc_words_injective [] c d p q e = e
crc_words_injective (w ∷ ws) c d p q e =
    crcu16_injective_crc w c d p q
      (crc_words_injective ws (crc16 w c) (crc16 w d) (crc16-lt w c p) (crc16-lt w d q) e)

-- Changing one word of a sequence of words always changes its checksum, whatever stands before
-- and after that word and whatever 16-bit register the sequence starts from.
pub crc_words_detects :
    (us ws : List ℕ) (v w c : ℕ)
    → v < 2 ^ 16
    → w < 2 ^ 16
    → c < 2 ^ 16
    → v ≢ w
    → crc_words (us ++ v ∷ ws) c ≢ crc_words (us ++ w ∷ ws) c
unfolding crc_words crc16
crc_words_detects us ws v w c p q r ne e =
    let start = crc_words-lt us c r in
    ne (
      crcu16_injective_word v w (crc_words us c) p q start (
        crc_words_injective ws _ _ (crc16-lt v _ start) (crc16-lt w _ start)
          (rw (crc_words-append us (v ∷ ws) c, crc_words-append us (w ∷ ws) c) at e)))
