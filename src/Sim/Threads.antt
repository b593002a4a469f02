-- ===== src/Sim/Threads.antt =====
-- The three threads of verilator/sim.cpp as a step relation: `main` from the creation of the other two
-- to its return, `sys_thrd` and `jtag_thrd`. A step is a critical section of `sys_thrd`, a call of
-- `listen`, `accept` or `respond` of `jtag_thrd`, or a call of `main`; the steps come in any order. A
-- step in which the process aborts is none.
pub mod Trip
mod Examples
pub mod Safety
pub mod Reachable
use zr_soc.Common.{
  ℕ, ◌≡◌, ◌≢◌, ◌⊎◌, Bool, true, false, Option, none, some, List, [], ◌∷◌, All, Run, ok,
}
use zr_soc.Rbb.{
  Server, Session, fresh_server, construct, finished, Opening, listen, Event, Polling, accept,
  Incoming, respond, returned,
}
use zr_soc.Sim.{Pins, Design, Shared, ThArg, VerilatorBackend, set_server, verilator_backend}
use zr_soc.Sim.Clock.{System, system_init, system_start, system_round}

-- Where `sys_thrd`, `jtag_thrd` and `main` stand.
pub data SystemAt : Type 0 where
  system_created clocking system_ended : SystemAt

pub data JtagAt : Type 0 where
  jtag_created accepting serving jtag_ended : JtagAt

pub data MainAt : Type 0 where
  joining_system joining_jtag main_returned : MainAt

-- The session holds the backend, with what the threads share, and the server. `signalled` is whether the
-- pipe holds the byte that `main` writes.
pub record Program (D : Type 0) : Type 0 where
  pub session : Session (VerilatorBackend D)
  pub system : System
  pub signalled : Bool
  pub system_at : SystemAt
  pub jtag_at : JtagAt
  pub main_at : MainAt

abbrev pub shared : {D : Type 0} → Program D → Shared D
shared p = p.session.world.shared

abbrev pub with_shared : {D : Type 0} → Shared D → Program D → Program D
with_shared m p = record p {
  session = record p.session { world = record p.session.world { shared = m } };
}

abbrev pub rbb_port : ℕ
rbb_port = 9823

-- `new verilator_backend(a)` and `new rbb_server(backend, pipefd[0])`.
unfoldable pub connect :
    {D : Type 0} → Design D → ℕ → VerilatorBackend D → Session (VerilatorBackend D)
connect v pipefd w = record {
  world = (set_server w).0;
  server = (construct (verilator_backend v) (some w) pipefd).1;
}

-- What `epoll_wait` reports is an event of the socket, or of the pipe once it has been written to; and no
-- client has descriptor 0.
pub record Reported (s : Server) (signalled : Bool) (e : Event) : Type 0 where
  pub source : (e.fd ≡ s.sockfd) ⊎ ((e.fd ≡ s.pipefd) × (signalled ≡ true))
  pub client : e.accepted ≢ some 0

pub data Label : Type 0 where
  by_system by_main by_end : Label
  opens : Opening → Label
  polls : Polling → Label
  reads : Incoming → Label

pub data Step {D : Type 0} (v : Design D) (a : ThArg) (pipefd : ℕ) (p : Program D)
    : Label → Program D → Type 0 where
  start :
      {m : Shared D}
      → p.system_at ≡ system_created
      → system_start v a (shared p) ≡ ok m
      → Step v a pipefd p by_system (record (with_shared m p) { system_at = clocking })
  round :
      {r : Shared D × System}
      → p.system_at ≡ clocking
      → p.system.done ≡ false
      → system_round v a (shared p) p.system ≡ ok r
      → Step v a pipefd p by_system (record (with_shared r.0 p) { system = r.1 })
  stop :
      p.system_at ≡ clocking
      → p.system.done ≡ true
      → Step v a pipefd p by_system (record p { system_at = system_ended })
  open_port :
      (o : Opening) {s : Server}
      → p.jtag_at ≡ jtag_created
      → o.socket ≢ some 0
      → listen o rbb_port (connect v pipefd p.session.world).server ≡ returned s
      → Step v a pipefd p (opens o) (record p {
        session = record (connect v pipefd p.session.world) { server = s };
        jtag_at = accepting;
      })
  wait_client :
      (poll : Polling) (e : Event) (es : List Event) {s : Server}
      → p.jtag_at ≡ accepting
      → poll.events ≡ some (e ∷ es)
      → All (Reported p.session.server p.signalled) (e ∷ es)
      → accept poll p.session.server ≡ returned s
      → Step v a pipefd p
          (polls poll)
          (record p { session = record p.session { server = s }; jtag_at = serving })
  answer :
      (i : Incoming) {s : Session (VerilatorBackend D)}
      → p.jtag_at ≡ serving
      → finished p.session.server ≡ false
      → respond (verilator_backend v) i p.session ≡ ok s
      → Step v a pipefd p (reads i) (record p { session = s })
  end_ :
      p.jtag_at ≡ serving
      → finished p.session.server ≡ true
      → Step v a pipefd p by_end (record p { jtag_at = jtag_ended })
  join_system :
      p.main_at ≡ joining_system
      → p.system_at ≡ system_ended
      → Step v a pipefd p by_main (record p { main_at = joining_jtag; signalled = true })
  join_jtag :
      p.main_at ≡ joining_jtag
      → p.jtag_at ≡ jtag_ended
      → Step v a pipefd p by_main (record p { main_at = main_returned })

-- The threads just created: the clock has not run, and nothing has been dumped.
abbrev pub created : {D : Type 0} → ThArg → D → Pins → Program D
created a d pins = record {
  session = record {
    world = record {
      srv = false;
      arg = some a;
      shared = record { design = d; pins = pins; locked = false; simtime = 0; dumps = [] };
    };
    server = fresh_server 0 false;
  };
  system = system_init;
  signalled = false;
  system_at = system_created;
  jtag_at = jtag_created;
  main_at = joining_system;
}

pub data Reach {D : Type 0} (v : Design D) (a : ThArg) (pipefd : ℕ) (p : Program D)
    : Program D → Type 0 where
  here : Reach v a pipefd p p
  after :
      {q r : Program D} {l : Label}
      → Reach v a pipefd p q
      → Step v a pipefd q l r
      → Reach v a pipefd p r
