-- ===== src/Sim/Examples.antt =====
-- The theorems on the threads at a testbench that does nothing but finish when `quit` is raised.
use zr_soc.Common.{
  ℕ, ◌+◌, ◌^◌, ◌==◌, if◌then◌else◌, refl, true, false, some, [], ◌∷◌, Reaches, arith,
}
use zr_soc.Rbb.{fresh_server, Session, Incoming, byte, end_of_stream, finished, serve}
use zr_soc.Rbb.Serve.{Whole, serve-quit, EndedSession, Ready}
use zr_soc.Rbb.Open.{serve-Running, Harmless, Running}
use zr_soc.Sim.{Pins, Design, Shared, ThArg, VerilatorBackend, verilator_backend}
use zr_soc.Sim.Clock.{system_loop, system_init}
use zr_soc.Sim.Mutex.{Unlocked, verilator_backend-Unlocked}
use zr_soc.Sim.Timeout.{Finished, system_loop-timeout}

abbrev low : Pins
low = record { tck = 0; tms = 0; tdi = 0; trstn = 0; quit = 0; clk = 0; rst_n = 0 }

-- 1 once it has finished.
abbrev toy : Design ℕ
toy = record {
  evaluate = λ p d. if p.quit == 1 then 1 else d;
  tdo = λ d. d;
  uart_rx_rdy = λ d. 0;
  uart_rx_err = λ d. 0;
  uart_rx_data = λ d. 0;
  got_finish = λ d. d == 1;
}

-- A timeout of two cycles.
abbrev argument : ThArg
argument = record { mutex = true; top = true; tfp = true; max_cycs_pow = 1 }

abbrev idle_bench : Shared ℕ
idle_bench = record { design = 0; pins = low; locked = false; simtime = 0; dumps = [] }

system_loop-timeout_example :
    Reaches
      (Finished toy argument (2 ^ 1))
      (system_loop (2 ^ 1 + 1) toy argument (λ i m. m) idle_bench system_init)
system_loop-timeout_example =
    system_loop-timeout toy argument (λ i m. m) idle_bench (omega arith) (omega arith) (λ i m u. u)
      refl

abbrev session : Session (VerilatorBackend ℕ)
session = record {
  world = record { srv = true; arg = some argument; shared = idle_bench };
  server = record (fresh_server 3 true) { sockfd = 5; clientfd = 6 };
}

abbrev says : ℕ → Incoming
says c = record { received = byte c; wrote = true; stale = 0 }

-- The client has gone away after a digit.
abbrev gone : Incoming
gone = record { received = end_of_stream; wrote = true; stale = b'5' }

session-Ready : Ready (Unlocked (some argument)) session
unfolding Whole
session-Ready = record {
  kept = record { unlocked = refl; served = refl; argument = refl; kept = tt };
  whole = refl;
}

serve-quit_example :
    Reaches
      (EndedSession (Unlocked (some argument)))
      (serve (verilator_backend toy) (says b'5' ∷ says b'Q' ∷ says b'0' ∷ []) session)
serve-quit_example =
    serve-quit (verilator_backend toy) (Unlocked (some argument))
      (verilator_backend-Unlocked toy (some argument)) (says b'5' ∷ []) (says b'Q') (says b'0' ∷ [])
      session refl session-Ready

serve-Running_example :
    Reaches
      (Running (Unlocked (some argument)))
      (serve (verilator_backend toy) (says b'5' ∷ gone ∷ gone ∷ []) session)
unfolding Harmless finished
serve-Running_example =
    serve-Running (verilator_backend toy) (Unlocked (some argument))
      (verilator_backend-Unlocked toy (some argument)) (says b'5' ∷ gone ∷ gone ∷ []) session
      (
        (λ z. absurd (omega arith)),
        ((λ z. absurd (omega arith)), ((λ z. absurd (omega arith)), tt)),
      )
      (session-Ready.kept, refl)
