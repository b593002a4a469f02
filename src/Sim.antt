-- ===== src/Sim.antt =====
-- The simulation driver, verilator/sim.cpp: what the threads share, the backend that drives the JTAG
-- inputs; the thread that drives the clock is in Sim/Clock.antt. The Verilated testbench, which the build generates from
-- verilator/tb_verilator.sv, is an argument.
pub mod Clock
pub mod Mutex
pub mod Timeout
pub mod Trace
pub mod Threads
mod Examples
use zr_soc.Common.{
  ℕ, zero, suc, ◌+◌, ◌-◌, ◌%◌, ◌^◌, u8, slt32, ltb, ◌==◌, if◌then◌else◌, Bool, true, false, not,
  ◌&&◌, ◌||◌, Option, none, some, List, [], ◌∷◌, ◌++◌, Run, ok, fault, out_of_fuel, ◌>>=◌,
}
use zr_soc.Rbb.{Backend, Server, finish}

-- The inputs of the testbench that the threads write.
pub record Pins : Type 0 where
  pub tck : ℕ
  pub tms : ℕ
  pub tdi : ℕ
  pub trstn : ℕ
  pub quit : ℕ
  pub clk : ℕ
  pub rst_n : ℕ

-- `Vtb_verilator`: its evaluation at the inputs, its outputs, and `Verilated::gotFinish()`.
pub record Design (D : Type 0) : Type 0 where
  pub evaluate : Pins → D → D
  pub tdo : D → ℕ
  pub uart_rx_rdy : D → ℕ
  pub uart_rx_err : D → ℕ
  pub uart_rx_data : D → ℕ
  pub got_finish : D → Bool

-- What the threads reach through `struct th_arg`: the testbench, the mutex, `simtime`, and the times at
-- which the tracer has dumped, the last one first.
pub record Shared (D : Type 0) : Type 0 where
  pub design : D
  pub pins : Pins
  pub locked : Bool
  pub simtime : ℕ
  pub dumps : List ℕ

-- `struct th_arg`: which of its pointers are not NULL, and the timeout as a 32-bit pattern.
pub record ThArg : Type 0 where
  pub mutex : Bool
  pub top : Bool
  pub tfp : Bool
  pub max_cycs_pow : ℕ

-- The members of `verilator_backend`: whether `srv` is not NULL, and `arg`, with what it points to.
pub record VerilatorBackend (D : Type 0) : Type 0 where
  pub srv : Bool
  pub arg : Option ThArg
  pub shared : Shared D

-- A thread that takes a mutex again that it holds waits for ever.
unfoldable pub lock : {D : Type 0} → Shared D → Run (Shared D)
lock m = if m.locked then fault else ok (record m { locked = true })

unfoldable pub unlock : {D : Type 0} → Shared D → Shared D
unlock m = record m { locked = false }

unfoldable pub eval : {D : Type 0} → Design D → Shared D → Shared D
eval v m = record m { design = v.evaluate m.pins m.design }

-- `if (tfp != NULL) tfp->dump(*simtime);`
unfoldable pub dump : {D : Type 0} → ThArg → Shared D → Shared D
dump a m = if a.tfp then record m { dumps = m.simtime ∷ m.dumps } else m

-- `(*simtime)++` on `uint64_t`.
unfoldable pub advance : {D : Type 0} → Shared D → Shared D
advance m = record m { simtime = (m.simtime + 1) % 2 ^ 64 }

unfoldable pub set_pins : {D : Type 0} → Pins → Shared D → Shared D
set_pins p m = record m { pins = p }

-- `arg->top != NULL && !Verilated::gotFinish()`
unfoldable pub live : {D : Type 0} → Design D → ThArg → Shared D → Bool
live v a m = a.top && not (v.got_finish m.design)

unfoldable pub set_server : {D : Type 0} → VerilatorBackend D → VerilatorBackend D × ℕ
set_server w = if w.srv then (w, 1) else (record w { srv = true }, 0)

-- `arg != NULL && arg->mutex != NULL`
unfoldable pub guarded {ℓ} : {A : Type ℓ} → Option ThArg → (otherwise : A) → (ThArg → A) → A
guarded none otherwise body = otherwise
guarded (some a) otherwise body = if a.mutex then body a else otherwise

-- A critical section of the backend: what it does with the testbench while it holds the mutex.
unfoldable pub critical :
    {D : Type 0} → (ThArg → Shared D → Shared D) → VerilatorBackend D → Run (VerilatorBackend D)
critical body w =
    guarded w.arg (ok w) (λ a. lock w.shared >>= λ m. ok (record w { shared = unlock (body a m) }))

unfoldable pub reset_body : {D : Type 0} → Design D → ThArg → Shared D → Shared D
reset_body v a m =
    if live v a m
    then (let low = eval v (set_pins (record m.pins { trstn = 0 }) m) in
        let high = eval v (set_pins (record low.pins { trstn = 1 }) low) in advance (dump a high))
    else m

unfoldable pub reset : {D : Type 0} → Design D → VerilatorBackend D → Run (VerilatorBackend D)
reset v = critical (reset_body v)

unfoldable pub quit_body : {D : Type 0} → Design D → ThArg → Shared D → Shared D
quit_body v a m =
    if live v a m then advance (dump a (eval v (set_pins (record m.pins { quit = 1 }) m))) else m

unfoldable pub quit :
    {D : Type 0} → Design D → VerilatorBackend D → Server → Run (VerilatorBackend D × Server)
quit v w s = critical (quit_body v) w >>= λ u. ok (u, (if u.srv then finish s else s))

unfoldable pub init :
    {D : Type 0} → Design D → VerilatorBackend D → Server → Run (VerilatorBackend D × Server)
init v w s = guarded w.arg (quit v w s) (λ a. lock w.shared >>= λ m.
    if live v a m
    then (let p = record m.pins { tck = 1; tms = 1; tdi = 1; trstn = 1; quit = 0 } in
        ok (record w { shared = unlock (advance (dump a (eval v (set_pins p m)))) }, s))
    else quit v (record w { shared = unlock m }) s)

unfoldable pub blink : {D : Type 0} → ℕ → VerilatorBackend D → Run (VerilatorBackend D)
blink on w = ok w

unfoldable pub set_inputs_body :
    {D : Type 0} → Design D → (tck tms tdi : ℕ) → ThArg → Shared D → Shared D
set_inputs_body v tck tms tdi a m =
    if live v a m
    then (let p = record m.pins { tck = tck; tms = tms; tdi = tdi } in
        advance (dump a (eval v (set_pins p m))))
    else m

unfoldable pub set_inputs :
    {D : Type 0} → Design D → (tck tms tdi : ℕ) → VerilatorBackend D → Run (VerilatorBackend D)
set_inputs v tck tms tdi = critical (set_inputs_body v tck tms tdi)

unfoldable pub get_tdo : {D : Type 0} → Design D → VerilatorBackend D → Run (VerilatorBackend D × ℕ)
get_tdo v w = guarded w.arg (ok (w, 1)) (λ a.
    if a.top
    then (lock w.shared >>= λ m.
        ok (record w { shared = unlock m }, (if v.got_finish m.design then 1 else v.tdo m.design)))
    else ok (w, 1))

unfoldable pub verilator_backend : {D : Type 0} → Design D → Backend (VerilatorBackend D)
verilator_backend v = record {
  set_server = set_server;
  reset = reset v;
  quit = quit v;
  blink = blink;
  set_inputs = set_inputs v;
  get_tdo = get_tdo v;
}
