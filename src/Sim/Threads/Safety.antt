-- ===== src/Sim/Threads/Safety.antt =====
-- What holds in every reachable state of the threads of verilator/sim.cpp.
pub mod Clocked
pub mod Served
use mathlib.Core.Path.{subst}
use zr_soc.Common.{
  ℕ, ◌≡◌, refl, ◌≢◌, ◌⊎◌, inl, inr, Bool, true, false, some, List, [], ◌∷◌, All, sym, ap, ◌∙◌,
  Bool-cases, ok, ok-injective,
}
use zr_soc.Rbb.{
  Server, Session, finished, Event, Polling, accept, listen, construct, returned, Opening, Incoming,
  respond,
}
use zr_soc.Rbb.Serve.{Whole, Ready, respond-Ready}
use zr_soc.Rbb.Accept.{Usual, accept-returned}
use zr_soc.Rbb.Lifecycle.{listen-returned}
use zr_soc.Sim.{Design, Shared, ThArg, VerilatorBackend, set_server, verilator_backend}
use zr_soc.Sim.Clock.{System, system_start, system_round}
use zr_soc.Sim.Mutex.{Idle, verilator_backend-Idle}
use zr_soc.Sim.Trace.{Traced, critical-Traced, system_round-Traced, system_start-Traced}
use zr_soc.Sim.Threads.{
  SystemAt, system_created, clocking, system_ended, JtagAt, jtag_created, accepting, serving,
  jtag_ended, MainAt, joining_system, joining_jtag, main_returned, Program, shared, with_shared,
  connect, rbb_port, Reported, Label, Step, start, round, stop, open_port, wait_client, answer,
  end_, join_system, join_jtag,
}

-- What holds of the session where `jtag_thrd` stands.
unfoldable pub Jtag : {D : Type 0} → (pipefd : ℕ) → JtagAt → Session (VerilatorBackend D) → Type 0
Jtag pipefd jtag_created s = Unit
Jtag pipefd accepting s =
    (s.world.srv ≡ true)
    × (s.server.clientfd ≡ 0)
    × (s.server.sockfd ≢ 0)
    × (s.server.pipefd ≡ pipefd)
Jtag pipefd serving s = (s.world.srv ≡ true) × Whole s.server
Jtag pipefd jtag_ended s = finished s.server ≡ true

-- `main` signals once `sys_thrd` has ended, and returns once both threads have.
unfoldable pub Main : MainAt → (signalled : Bool) → SystemAt → JtagAt → Type 0
Main joining_system b s j = b ≡ false
Main joining_jtag b s j = (b ≡ true) × (s ≡ system_ended)
Main main_returned b s j = (s ≡ system_ended) × (j ≡ jtag_ended)

unfoldable pub Clock : SystemAt → System → Type 0
Clock system_created s = Unit
Clock clocking s = Unit
Clock system_ended s = s.done ≡ true

pub record Good {D : Type 0} (a : ThArg) (pipefd : ℕ) (p : Program D) : Type 0 where
  pub unlocked : (shared p).locked ≡ false
  pub argument : p.session.world.arg ≡ some a
  pub traced : Traced a (shared p)
  pub clock : Clock p.system_at p.system
  pub jtag : Jtag pipefd p.jtag_at p.session
  pub main : Main p.main_at p.signalled p.system_at p.jtag_at

pub not_ended : {s : SystemAt} → (s ≡ system_created) ⊎ (s ≡ clocking) → s ≢ system_ended
not_ended (inl e) z = cc
not_ended (inr e) z = cc

pub still : {j : JtagAt} → (j ≡ jtag_created) ⊎ ((j ≡ accepting) ⊎ (j ≡ serving)) → j ≢ jtag_ended
still (inl e) z = cc
still (inr (inl e)) z = cc
still (inr (inr e)) z = cc

pub Main-system :
    (m : MainAt) (b : Bool) (s t : SystemAt) (j : JtagAt)
    → s ≢ system_ended
    → Main m b s j
    → Main m b t j
unfolding Main
Main-system joining_system _ _ _ _ n h = h
Main-system joining_jtag _ _ _ _ n h = absurd (n h.1)
Main-system main_returned _ _ _ _ n h = absurd (n h.0)

pub Main-jtag :
    (m : MainAt) (b : Bool) (s : SystemAt) (i j : JtagAt)
    → i ≢ jtag_ended
    → Main m b s i
    → Main m b s j
unfolding Main
Main-jtag joining_system _ _ _ _ n h = h
Main-jtag joining_jtag _ _ _ _ n h = h
Main-jtag main_returned _ _ _ _ n h = absurd (n h.1)
