-- ===== src/Sim/Threads/Safety/Clocked.antt =====
-- The steps of `sys_thrd`, verilator/sim.cpp, keep what holds in every reachable state.
use zr_soc.Common.{ℕ, ◌≡◌, inl, ok}
use zr_soc.Rbb.{Session}
use zr_soc.Sim.{Design, Shared, ThArg, VerilatorBackend}
use zr_soc.Sim.Clock.{System, system_start, system_round}
use zr_soc.Sim.Trace.{system_round-Traced, system_start-Traced}
use zr_soc.Sim.Threads.{
  system_created, clocking, JtagAt, jtag_created, accepting, serving, jtag_ended, Program, shared,
  with_shared,
}
use zr_soc.Sim.Threads.Safety.{Jtag, Clock, Good, not_ended, Main-system}

module _ {D : Type 0} (v : Design D) (a : ThArg) (pipefd : ℕ) where
  Jtag-shared :
      (j : JtagAt) (s : Session (VerilatorBackend D)) (m : Shared D)
      → Jtag pipefd j s
      → Jtag pipefd j (record s { world = record s.world { shared = m } })
  unfolding Jtag
  Jtag-shared jtag_created s m h = h
  Jtag-shared accepting s m h = h
  Jtag-shared serving s m h = h
  Jtag-shared jtag_ended s m h = h

  pub start-Good :
      (p : Program D) {m : Shared D}
      → p.system_at ≡ system_created
      → system_start v a (shared p) ≡ ok m
      → Good a pipefd p
      → Good a pipefd (record (with_shared m p) { system_at = clocking })
  unfolding Clock
  start-Good p {m} at e g =
      let y = (system_start-Traced v a (shared p) g.traced).on m e in
      record {
        unlocked = y.1;
        argument = g.argument;
        traced = y.0;
        clock = tt;
        jtag = Jtag-shared p.jtag_at p.session m g.jtag;
        main = Main-system p.main_at _ _ _ _ (not_ended (inl at)) g.main;
      }

  pub round-Good :
      (p : Program D) {r : Shared D × System}
      → p.system_at ≡ clocking
      → system_round v a (shared p) p.system ≡ ok r
      → Good a pipefd p
      → Good a pipefd (record (with_shared r.0 p) { system = r.1 })
  unfolding Clock
  round-Good p {r} at e g =
      let y = (system_round-Traced v a (shared p) p.system g.traced).on r e in
      record {
        unlocked = y.1;
        argument = g.argument;
        traced = y.0;
        clock = rw at tt;
        jtag = Jtag-shared p.jtag_at p.session r.0 g.jtag;
        main = g.main;
      }
