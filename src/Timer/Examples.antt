-- ===== src/Timer/Examples.antt =====
-- A test of the timer at a counter that wraps around.
use zr_soc.Common.{◌+◌, ◌-◌, ◌^◌, ◌≡◌, refl}
use zr_soc.Timer.{Timer, barebones_clock, start_time, stop_time, get_time}

abbrev reset : Timer
reset = record { start_time_val = 0; stop_time_val = 0 }

wrapped : get_time (stop_time (2 ^ 32 - 1 + 5) (start_time (2 ^ 32 - 1) reset)) ≡ 5
unfolding get_time stop_time start_time barebones_clock
wrapped = refl
