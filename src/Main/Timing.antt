-- ===== src/Main/Timing.antt =====
-- The timed run of `main` in sw/coremark/core_main.c, and the search for the number of iterations before
-- it. Of the call of `iterate` only the time counts here: with `n` iterations the cycle counter stands at
-- `counter n` before it and has gone on by `cost n` cycles after it.
pub mod Enough
use zr_soc.Common.{
  ℕ, zero, suc, ◌+◌, ◌*◌, ◌/◌, ltb, ◌==◌, if◌then◌else◌, Run, ok, out_of_fuel, ◌>>=◌, u32,
}
use zr_soc.Timer.{Timer, start_time, stop_time, get_time, time_in_secs}

-- `start_time(); iterate(&results[0]); stop_time();`
unfoldable pub timed : (counter cost : ℕ → ℕ) → (iterations : ℕ) → Timer → Timer
timed counter cost n t = stop_time (counter n + cost n) (start_time (counter n) t)

-- `while (secs_passed < (secs_ret)1)` on fuel: the iterations and the seconds that it ends with.
unfoldable pub search_iterations :
    (left : ℕ) → (counter cost : ℕ → ℕ) → (iterations secs_passed : ℕ) → Timer → Run (ℕ × ℕ × Timer)
search_iterations zero counter cost n secs t = out_of_fuel
search_iterations (suc left) counter cost n secs t =
    let m = u32 (n * 10) in
    let u = timed counter cost m t in
    let rest = search_iterations left counter cost m (time_in_secs (get_time u)) u in
    if ltb secs 1 then rest else ok (n, secs, t)

-- `results[0].iterations*=1+10/divisor`
unfoldable pub scale_iterations : (iterations secs_passed : ℕ) → ℕ
scale_iterations n secs =
    let divisor = if secs == 0 then 1 else secs in u32 (n * u32 (1 + 10 / divisor))

-- "Automatically determine number of iterations if not set".
unfoldable pub set_iterations :
    (left : ℕ) → (counter cost : ℕ → ℕ) → (iterations : ℕ) → Timer → Run (ℕ × Timer)
set_iterations left counter cost n t =
    if n == 0
    then (search_iterations left counter cost 1 0 t >>= λ x. ok (scale_iterations x.0 x.1, x.2))
    else ok (n, t)

-- "Perform actual benchmark": the iterations of the run and `total_time`.
unfoldable pub perform :
    (left : ℕ) → (counter cost : ℕ → ℕ) → (iterations : ℕ) → Timer → Run (ℕ × ℕ)
perform left counter cost n t =
    set_iterations left counter cost n t >>= λ x. ok (x.0, get_time (timed counter cost x.0 x.1))
