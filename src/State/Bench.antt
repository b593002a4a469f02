-- ===== src/State/Bench.antt =====
-- `core_bench_state` and `core_init_state` of sw/coremark/core_state.c. The block is the list of its
-- bytes and an index into it; an index outside of it is a fault.
pub mod Clean
pub mod Corrupt
pub mod Count
pub mod Fill
pub mod Undo
pub mod Whole
use Prim.Native.Char.{code}
use Prim.Native.String.{String}
use zr_soc.Common.{
  ℕ, zero, suc, ◌+◌, ◌-◌, ◌*◌, ◌/◌, ◌%◌, ◌^◌, u8, u32, ltb, leb, ◌==◌, if◌then◌else◌, List, [], ◌∷◌,
  length, get_elem?, set, bit_and, bit_xor, ◌>>>◌, Run, ok, fault, out_of_fuel, from_option, ◌>>=◌,
  Bool, true, false,
}
use zr_soc.Crc.{crcu32}
use zr_soc.State.{
  CoreState, start, invalid, s1, s2, int, float, exponent, scientific, Counts, Token, bump,
  core_state_transition,
}

-- `while (*p != 0) final_counts[core_state_transition(&p, track_counts)]++`.
unfoldable pub count_tokens : ℕ → List ℕ → (final track : Counts) → Run (Counts × Counts)
count_tokens zero p final track = out_of_fuel
count_tokens (suc fuel) [] final track = fault
count_tokens (suc fuel) (c ∷ r) final track =
    let more = core_state_transition (c ∷ r) track >>= λ t.
    count_tokens fuel t.rest (bump t.state final) t.counts in
    if c == 0 then ok (final, track) else more

-- `if (*p != ',') *p ^= (ee_u8)seed;`
unfoldable pub flip : ℕ → ℕ → ℕ
flip seed c = if c == b',' then c else bit_xor c (u8 seed)

-- `p += step` for a signed step of 16 bits. A pointer that would stand before the block is a fault: the loop
-- would go on and read through it.
unfoldable pub move : (step p : ℕ) → Run ℕ
move step p =
    if ltb step (2 ^ 15)
    then ok (p + step)
    else if leb (2 ^ 16 - step) p
    then ok (p - (2 ^ 16 - step))
    else fault

-- `while (p < memblock + blksize) { ...; p += step; }`
unfoldable pub corrupt : ℕ → (blksize seed step : ℕ) → List ℕ → ℕ → Run (List ℕ)
corrupt zero blksize seed step mem p = out_of_fuel
corrupt (suc fuel) blksize seed step mem p =
    let more = from_option (get_elem? mem p) >>= λ c.
    move step p >>= λ q. corrupt fuel blksize seed step (set mem p (flip seed c)) q in
    if ltb p blksize then more else ok mem

-- The states in the order of their values.
abbrev pub all_states : List CoreState
all_states = start ∷ invalid ∷ s1 ∷ s2 ∷ int ∷ float ∷ exponent ∷ scientific ∷ []

unfoldable pub crc_counts : List CoreState → (final track : Counts) → ℕ → ℕ
crc_counts [] final track crc = crc
crc_counts (s ∷ ss) final track crc =
    crc_counts ss final track (crcu32 (track s) (crcu32 (final s) crc))

abbrev pub no_counts : Counts
no_counts s = 0

-- The checksum and the block as the function leaves it. The scans get a round for each byte of the block
-- and one more, the corruption loops one for each of the `blksize` bytes and one more.
unfoldable pub core_bench_state :
    (blksize : ℕ) → List ℕ → (seed1 seed2 step crc : ℕ) → Run (ℕ × List ℕ)
core_bench_state blksize memblock seed1 seed2 step crc = do
  first ← count_tokens (length memblock + 1) memblock no_counts no_counts
  corrupted ← corrupt (blksize + 1) blksize seed1 step memblock 0
  second ← count_tokens (length corrupted + 1) corrupted first.0 first.1
  undone ← corrupt (blksize + 1) blksize seed2 step corrupted 0
  ok (crc_counts all_states second.0 second.1 crc, undone)

-- The bytes of an ASCII text.
abbrev pub codes : String → List ℕ
codes String.[] = []
codes (String.◌∷◌ c s) = code c ∷ codes s

-- The four texts of a kind, by an index below 4.
abbrev pub pick : (a b c d : String) → ℕ → List ℕ
pick a b c d i =
    if i == 0 then codes a else if i == 1 then codes b else if i == 2 then codes c else codes d

unfoldable pub intpat : ℕ → List ℕ
intpat = pick "5012" "1234" "-874" "+122"

unfoldable pub floatpat : ℕ → List ℕ
floatpat = pick "35.54400" ".1234500" "-110.700" "+0.64400"

unfoldable pub scipat : ℕ → List ℕ
scipat = pick "5.500e+3" "-.123e-2" "-87e+832" "+0.6e-12"

unfoldable pub errpat : ℕ → List ℕ
errpat = pick "T0.3e-1F" "-T.T++Tq" "1T3.4e4z" "34.0e-T^"

-- `buf` and `next`.
pub record Pattern : Type 0 where
  pub buf : List ℕ
  pub next : ℕ

abbrev pub pattern_of : List ℕ → ℕ → Pattern
pattern_of b n = record { buf = b; next = n }

-- The `switch (seed & 0x7)`; the default case cannot be met.
unfoldable pub choose : ℕ → Pattern
choose seed =
    let kind = bit_and seed 7 in
    let i = bit_and (seed >>> 3) 3 in
    if ltb kind 3
    then pattern_of (intpat i) 4
    else if ltb kind 5
    then pattern_of (floatpat i) 8
    else if ltb kind 7
    then pattern_of (scipat i) 8
    else pattern_of (errpat i) 8

-- `*(p + i) = v`.
unfoldable pub write_at : List ℕ → ℕ → ℕ → Run (List ℕ)
write_at mem i v = if ltb i (length mem) then ok (set mem i v) else fault

-- `for (i = 0; i < next; i++) *(p + total + i) = buf[i];`, with `next - i` rounds left.
unfoldable pub copy_pattern : ℕ → (i total : ℕ) → (buf mem : List ℕ) → Run (List ℕ)
copy_pattern zero i total buf mem = ok mem
copy_pattern (suc left) i total buf mem = do
  c ← from_option (get_elem? buf i)
  m ← write_at mem (total + i) c
  copy_pattern left (i + 1) total buf m

-- The write of a pattern and of the comma behind it.
unfoldable pub put_pattern : Pattern → ℕ → List ℕ → Run (List ℕ)
put_pattern p total mem = do
  m ← copy_pattern p.next 0 total p.buf mem
  write_at m (total + p.next) b','

-- The `while` with the pattern that was chosen last; `size` is already decremented.
unfoldable pub fill_loop : ℕ → (size total seed : ℕ) → Pattern → List ℕ → Run (List ℕ × ℕ)
fill_loop zero size total seed p mem = out_of_fuel
fill_loop (suc fuel) size total seed p mem =
    let seed' = (seed + 1) % 2 ^ 16 in
    let skip = fill_loop fuel size total seed' (choose seed') mem in
    let put = put_pattern p total mem >>= λ m.
    fill_loop fuel size (total + (p.next + 1)) seed' (choose seed') m in
    if ltb (total + p.next + 1) size then (if ltb 0 p.next then put else skip) else ok (mem, total)

-- `while (total < size) { *(p + total) = 0; total++; }`, with `size - total` rounds left.
unfoldable pub zero_loop : ℕ → ℕ → List ℕ → Run (List ℕ)
zero_loop zero total mem = ok mem
zero_loop (suc left) total mem = do m ← write_at mem total 0; zero_loop left (total + 1) m

-- `size--` wraps at 0. The loop gets two rounds more than `size`.
unfoldable pub core_init_state : (size seed : ℕ) → List ℕ → Run (List ℕ)
core_init_state size seed mem = do
  (m, total) ← fill_loop (size + 2) (u32 (size + 2 ^ 32 - 1)) 0 seed (pattern_of [] 0) mem
  zero_loop (size - total) total m
