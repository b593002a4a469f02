-- ===== src/Sim/Clock.antt =====
-- `sys_thrd` of verilator/sim.cpp, which resets the testbench, drives its clock, collects what the UART
-- sends, and ends by a timeout or by `$finish`.
use zr_soc.Common.{
  ℕ, zero, suc, ◌+◌, ◌-◌, ◌%◌, ◌^◌, u8, slt32, ltb, ◌==◌, if◌then◌else◌, Bool, true, false, List,
  [], ◌∷◌, ◌++◌, Run, ok, fault, out_of_fuel, ◌>>=◌,
}
use zr_soc.Sim.{Design, Shared, ThArg, lock, unlock, eval, dump, advance, set_pins}

-- The variables of `sys_thrd`: the rounds begun, the bytes that the UART has sent, its errors, and `done`.
pub record System : Type 0 where
  pub cnt : ℕ
  pub uart_rx_str : List ℕ
  pub uart_rx_errs : ℕ
  pub done : Bool

-- `1 << pow` on `int`, as it is compared with an `uint64_t`. A shift by the width of the type is undefined.
unfoldable pub shift_one : ℕ → Run ℕ
shift_one pow =
    if ltb pow 31 then ok (2 ^ pow) else if pow == 31 then ok (2 ^ 64 - 2 ^ 31) else fault

unfoldable pub timed_out : ThArg → (cnt : ℕ) → Run Bool
timed_out a cnt =
    if slt32 0 a.max_cycs_pow
    then (shift_one a.max_cycs_pow >>= λ limit. ok (ltb limit cnt))
    else ok false

unfoldable pub set_clk : {D : Type 0} → Design D → ThArg → ℕ → Shared D → Shared D
set_clk v a level m = advance (dump a (eval v (set_pins (record m.pins { clk = level }) m)))

unfoldable pub clock_cycle : {D : Type 0} → Design D → ThArg → Shared D → Shared D
clock_cycle v a m = set_clk v a 0 (set_clk v a 1 m)

-- `for (int i=0; i < 10; i++)`, with the rounds left.
unfoldable pub clock_cycles : {D : Type 0} → Design D → ThArg → ℕ → Shared D → Shared D
clock_cycles v a zero m = m
clock_cycles v a (suc left) m = clock_cycles v a left (clock_cycle v a m)

unfoldable pub system_reset : {D : Type 0} → Design D → ThArg → Shared D → Shared D
system_reset v a m =
    if v.got_finish m.design
    then m
    else (let n = clock_cycles v a 10 (set_pins (record m.pins { rst_n = 0 }) m) in
        set_pins (record n.pins { rst_n = 1 }) n)

-- Up to the loop, the message on the timeout included.
unfoldable pub system_start : {D : Type 0} → Design D → ThArg → Shared D → Run (Shared D)
system_start v a m = lock m >>= λ l. timed_out a 0 >>= λ t. ok (unlock (system_reset v a l))

unfoldable pub collect : {D : Type 0} → Design D → D → System → System
collect v d s =
    if v.uart_rx_rdy d == 0
    then s
    else if v.uart_rx_err d == 0
    then record s { uart_rx_str = s.uart_rx_str ++ u8 (v.uart_rx_data d) ∷ [] }
    else record s { uart_rx_errs = s.uart_rx_errs + 1 }

-- The round of the loop after `cnt++`, with the mutex held.
unfoldable pub system_body :
    {D : Type 0} → Design D → ThArg → Shared D → System → Run (Shared D × System)
system_body v a m s =
    if v.got_finish m.design
    then ok (m, record s { done = true })
    else (let t = collect v m.design s in
        let n = clock_cycle v a m in
        timed_out a s.cnt >>= λ out.
        if out
        then ok (eval v (set_pins (record n.pins { quit = 1 }) n), record t { done = true })
        else ok (n, t))

unfoldable pub system_round :
    {D : Type 0} → Design D → ThArg → Shared D → System → Run (Shared D × System)
system_round v a m s = lock m >>= λ l.
    system_body v a l (record s { cnt = (s.cnt + 1) % 2 ^ 64 }) >>= λ r. ok (unlock r.0, r.1)

-- `while (!done)`. Before a round with a given number of rounds to go the other thread changes what is
-- shared as `others` says.
unfoldable pub system_loop :
    {D : Type 0}
    → ℕ
    → Design D
    → ThArg
    → (others : ℕ → Shared D → Shared D) → Shared D
    → System
    → Run (Shared D × System)
system_loop zero v a others m s = if s.done then ok (m, s) else out_of_fuel
system_loop (suc fuel) v a others m s =
    let rest = system_round v a (others fuel m) s >>= λ r. system_loop fuel v a others r.0 r.1 in
    if s.done then ok (m, s) else rest

abbrev pub system_init : System
system_init = record { cnt = 0; uart_rx_str = []; uart_rx_errs = 0; done = false }
