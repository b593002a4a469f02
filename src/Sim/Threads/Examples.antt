-- ===== src/Sim/Threads/Examples.antt =====
-- The theorems on the threads at runs of a testbench that does nothing but finish when `quit` is raised.
use zr_soc.Common.{
  Reaches, ℕ, ◌==◌, if◌then◌else◌, ◌≡◌, ◌≢◌, refl, sym, ◌∙◌, inl, true, false, Option, some,
  some-injective, [], ◌∷◌, arith,
}
use zr_soc.Rbb.{
  fresh_server, await_events, accept, handle_event, handle_events, Opening, listen, open_socket,
  prepare, close_socket, close_client, finish, construct, Incoming, byte, finished, respond,
}
use zr_soc.Sim.{
  Pins, Design, ThArg, set_server, verilator_backend, lock, unlock, eval, dump, advance, set_pins,
}
use zr_soc.Sim.Clock.{
  system_init, system_start, system_reset, clock_cycles, system_round, system_body, clock_cycle,
  set_clk, timed_out, shift_one, collect,
}
use zr_soc.Sim.Trace.{Stamped}
use zr_soc.Sim.Threads.{
  system_ended, accepting, joining_jtag, main_returned, Program, shared, connect, start, round,
  stop, open_port, wait_client, join_system, created, Reach, here, after,
}
use zr_soc.Sim.Threads.Reachable.{Reach-Stamped, Reach-responds}
use zr_soc.Rbb.Serve.{Whole}
use zr_soc.Sim.Threads.Trip.{tripped, Reach-tripped}

abbrev low : Pins
low = record { tck = 0; tms = 0; tdi = 0; trstn = 0; quit = 0; clk = 0; rst_n = 0 }

-- 1 once it has finished.
abbrev toy : Design ℕ
toy = record {
  evaluate = λ p d. if p.quit == 1 then 1 else d;
  tdo = λ d. d;
  uart_rx_rdy = λ d. 0;
  uart_rx_err = λ d. 0;
  uart_rx_data = λ d. 0;
  got_finish = λ d. d == 1;
}

-- A testbench that has finished before it starts.
abbrev over : Design ℕ
over = record toy { got_finish = λ d. true }

-- A timeout of two cycles.
abbrev argument : ThArg
argument = record { mutex = true; top = true; tfp = true; max_cycs_pow = 1 }

abbrev good_port : Opening
good_port = record { socket = some 5; reusable = true; bound = λ port. true; listening = true }

-- A run from the creation of the threads, with its last state.
abbrev Execution : Design ℕ → Type 0
Execution v = (p : Program ℕ) × Reach v argument 3 (created argument 0 low) p

unfoldable one_round : Execution toy
unfolding system_start system_reset clock_cycles clock_cycle set_clk timed_out shift_one lock unlock
    eval dump advance set_pins system_round system_body collect
one_round = (_, after (after here (start refl refl)) (round refl refl refl))

Reach-Stamped_example : Stamped (shared one_round.0) × ((shared one_round.0).locked ≡ false)
unfolding one_round
Reach-Stamped_example =
    Reach-Stamped toy argument 3 (λ z. absurd (omega arith)) 0 low one_round.0 refl one_round.1

-- `sys_thrd` ends, and `main` signals.
unfoldable system_over : Execution over
unfolding system_start system_reset timed_out shift_one lock unlock system_round system_body
system_over = (
  _,
  after (after (after (after here (start refl refl)) (round refl refl refl)) (stop refl refl))
      (join_system refl refl),
)

unfoldable port_open : Execution over
unfolding listen open_socket prepare connect construct set_server system_start system_reset
    timed_out shift_one lock unlock system_round system_body system_over
port_open = (_, after system_over.1 (open_port good_port refl (λ e. absurd cc) refl))

client_named : (o : Option ℕ) → o ≡ some 6 → o ≢ some 0
client_named o k e = absurd (omega (arith, some-injective (sym k ∙ e)))

-- A client connects, and asks for TDO once `sys_thrd` has ended.
unfoldable client_connected : Execution over
unfolding accept await_events handle_events handle_event finish finished close_client close_socket
    listen open_socket prepare connect construct set_server system_start system_reset timed_out
    shift_one lock unlock system_round system_body system_over port_open
client_connected = (
  _,
  after port_open.1 (
      wait_client (record (tripped 3) { events = some (record { fd = 5; accepted = some 6 } ∷ []) })
        (record { fd = 5; accepted = some 6 }) [] refl refl
        (record { source = inl refl; client = client_named (some 6) refl }, tt) refl),
)

abbrev asks : Incoming
asks = record { received = byte b'R'; wrote = true; stale = 0 }

Reach-responds_example :
    Whole client_connected.0.session.server
    × Reaches
        (λ s. Whole s.server × (s.world.shared.locked ≡ false))
        (respond (verilator_backend over) asks client_connected.0.session)
unfolding accept await_events handle_events handle_event finish finished close_client close_socket
    listen open_socket prepare connect construct set_server system_start system_reset timed_out
    shift_one lock unlock system_round system_body system_over port_open client_connected
Reach-responds_example =
    Reach-responds over argument 3 (λ z. absurd (omega arith)) 0 low client_connected.0 asks
      client_connected.1 refl

abbrev waiting : Program ℕ
waiting = record {
  session = record {
    world = record {
      srv = true;
      arg = some argument;
      shared = record { design = 1; pins = low; locked = false; simtime = 0; dumps = [] };
    };
    server = record (fresh_server 3 true) { sockfd = 5 };
  };
  system = record system_init { done = true };
  signalled = true;
  system_at = system_ended;
  jtag_at = accepting;
  main_at = joining_jtag;
}

Reach-tripped_example :
    (q : Program ℕ) × Reach toy argument 3 waiting q × (q.main_at ≡ main_returned)
Reach-tripped_example =
    Reach-tripped toy argument 3 waiting refl refl refl refl (λ z. absurd (omega arith))
      (λ z. absurd (omega arith))
