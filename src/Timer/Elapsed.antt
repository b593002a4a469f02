-- ===== src/Timer/Elapsed.antt =====
-- What the timer of sw/coremark/barebone-arty-a7/core_portme.c measures.
use zr_soc.Common.{ℕ, ◌+◌, ◌^◌, ◌<◌, ◌≡◌, arith}
use zr_soc.Timer.{Timer, barebones_clock, start_time, stop_time, get_time}

-- If the counter has the count `c` at the start and `c + n` at the stop, for any `c` and for `n` below
-- 2 ^ 32, the ticks are `n`, also where the 32 bits that are read wrap around in between.
pub get_time-stop_time-start_time :
    (c n : ℕ) (t : Timer) → n < 2 ^ 32 → get_time (stop_time (c + n) (start_time c t)) ≡ n
unfolding get_time stop_time start_time barebones_clock
get_time-stop_time-start_time c n t h = omega arith
