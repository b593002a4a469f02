-- ===== src/Timer.antt =====
-- The timer of the port to the Arty A7, sw/coremark/barebone-arty-a7/core_portme.c. What the cycle counter
-- holds is an argument of the calls that read it.
mod Examples
pub mod Elapsed
use zr_soc.Common.{ℕ, ◌+◌, ◌-◌, ◌^◌, ◌/◌, u32}

-- `start_time_val` and `stop_time_val`.
pub record Timer : Type 0 where
  pub start_time_val : ℕ
  pub stop_time_val : ℕ

-- The low 32 bits of the counter.
unfoldable pub barebones_clock : (counter : ℕ) → ℕ
barebones_clock counter = u32 counter

unfoldable pub start_time : (counter : ℕ) → Timer → Timer
start_time counter t = record t { start_time_val = barebones_clock counter }

unfoldable pub stop_time : (counter : ℕ) → Timer → Timer
stop_time counter t = record t { stop_time_val = barebones_clock counter }

-- The difference of two `ee_u32`.
unfoldable pub get_time : Timer → ℕ
get_time t = u32 (t.stop_time_val + (2 ^ 32 - t.start_time_val))

-- `secs_ret` is `ee_u32`, since HAS_FLOAT is 0, and EE_TICKS_PER_SEC is 100000000.
unfoldable pub time_in_secs : (ticks : ℕ) → ℕ
time_in_secs ticks = ticks / 100000000
