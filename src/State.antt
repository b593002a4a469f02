-- ===== src/State.antt =====
-- The state machine benchmark, sw/coremark/core_state.c and `CORE_STATE` of sw/coremark/coremark.h.
-- A pointer into the block is the list of the bytes from there to the end of the block; reading at
-- the empty list is a read outside of the block.
pub mod Bench
pub mod Grammar
pub mod Scan
mod Examples
use zr_soc.Common.{
  ℕ, zero, suc, ◌+◌, ◌*◌, ◌%◌, ◌^◌, u32, leb, ◌==◌, if◌then◌else◌, Bool, true, false, ◌&&◌, ◌||◌,
  List, [], ◌∷◌, Run, ok, fault,
}

pub data CoreState : Type 0 where
  start invalid s1 s2 int float exponent scientific : CoreState

-- The value of the enumerator, which indexes the count arrays.
abbrev pub state_index : CoreState → ℕ
state_index start = 0
state_index invalid = 1
state_index s1 = 2
state_index s2 = 3
state_index int = 4
state_index float = 5
state_index exponent = 6
state_index scientific = 7

-- An array of `NUM_CORE_STATES` counters.
abbrev pub Counts : Type 0
Counts = CoreState → ℕ

-- `counts[s]++` on `ee_u32`.
unfoldable pub bump : CoreState → Counts → Counts
bump s k t = if state_index s == state_index t then u32 (k t + 1) else k t

unfoldable pub ee_isdigit : ℕ → Bool
ee_isdigit c = leb b'0' c && leb c b'9'

unfoldable pub is_sign : ℕ → Bool
is_sign c = c == b'+' || c == b'-'

-- The `switch` on the state, one case for each.
unfoldable pub next_state : CoreState → ℕ → Counts → CoreState × Counts
next_state start c k =
    if ee_isdigit c
    then (int, bump start k)
    else if is_sign c
    then (s1, bump start k)
    else if c == b'.'
    then (float, bump start k)
    else (invalid, bump start (bump invalid k))
next_state s1 c k =
    if ee_isdigit c
    then (int, bump s1 k)
    else if c == b'.'
    then (float, bump s1 k)
    else (invalid, bump s1 k)
next_state int c k =
    if c == b'.'
    then (float, bump int k)
    else if ee_isdigit c
    then (int, k)
    else (invalid, bump int k)
next_state float c k =
    if c == b'E' || c == b'e'
    then (s2, bump float k)
    else if ee_isdigit c
    then (float, k)
    else (invalid, bump float k)
next_state s2 c k = if is_sign c then (exponent, bump s2 k) else (invalid, bump s2 k)
next_state exponent c k =
    if ee_isdigit c then (scientific, bump exponent k) else (invalid, bump exponent k)
next_state scientific c k = if ee_isdigit c then (scientific, k) else (invalid, bump invalid k)
next_state invalid c k = (invalid, k)

abbrev pub is_invalid : CoreState → Bool
is_invalid invalid = true
is_invalid start = false
is_invalid s1 = false
is_invalid s2 = false
is_invalid int = false
is_invalid float = false
is_invalid exponent = false
is_invalid scientific = false

-- What a scan gives back: the state, the counts and the pointer behind the token.
pub record Token : Type 0 where
  pub state : CoreState
  pub counts : Counts
  pub rest : List ℕ

abbrev pub token : CoreState → Counts → List ℕ → Token
token s k r = record { state = s; counts = k; rest = r }

-- The `for` loop at `str`.
unfoldable pub scan : CoreState → Counts → List ℕ → Run Token
scan s k [] = fault
scan s k (c ∷ r) =
    let more = scan (next_state s c k).0 (next_state s c k).1 r in
    if c == 0 || is_invalid s
    then ok (token s k (c ∷ r))
    else if c == b','
    then ok (token s k r)
    else more

unfoldable pub core_state_transition : List ℕ → Counts → Run Token
unfolding scan
core_state_transition instr transition_count = scan start transition_count instr
