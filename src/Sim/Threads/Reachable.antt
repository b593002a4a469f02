-- ===== src/Sim/Threads/Reachable.antt =====
-- Every order of the steps of the threads of verilator/sim.cpp, from their creation on.
use mathlib.Core.Path.{subst}
use zr_soc.Common.{Reaches, ℕ, ◌≡◌, refl, ◌≢◌, inr, true, false}
use zr_soc.Rbb.{Incoming, respond}
use zr_soc.Rbb.Serve.{Whole}
use zr_soc.Sim.{verilator_backend}
use zr_soc.Sim.{Pins, Design, ThArg}
use zr_soc.Sim.Trace.{Stamped, Traced, stamps}
use zr_soc.Sim.Threads.{
  system_ended, serving, joining_jtag, Program, shared, Label, Step, start, round, stop, open_port,
  wait_client, answer, end_, join_system, join_jtag, created, Reach, here, after,
}
use zr_soc.Sim.Threads.Safety.{Good, Jtag, Main, Clock, not_ended, still, Main-system, Main-jtag}
use zr_soc.Sim.Threads.Safety.Clocked.{start-Good, round-Good}
use zr_soc.Sim.Threads.Safety.Served.{waiting, responds, open-Good, wait-Good, answer-Good}

module _ {D : Type 0} (v : Design D) (a : ThArg) (pipefd : ℕ) (named : pipefd ≢ 0) where
  ended : (p : Program D) → p.main_at ≡ joining_jtag → Good a pipefd p → p.system_at ≡ system_ended
  unfolding Main
  ended p at g = (subst (λ m. Main m p.signalled p.system_at p.jtag_at) at g.main).1

  Step-Good :
      {p q : Program D} {l : Label} → Step v a pipefd p l q → Good a pipefd p → Good a pipefd q
  unfolding Clock Jtag Main
  Step-Good {p} (start at e) g = start-Good v a pipefd p at e g
  Step-Good {p} (round at d e) g = round-Good v a pipefd p at e g
  Step-Good {p} (stop at d) g = record {
    unlocked = g.unlocked;
    argument = g.argument;
    traced = g.traced;
    clock = d;
    jtag = g.jtag;
    main = Main-system p.main_at _ _ _ _ (not_ended (inr at)) g.main;
  }
  Step-Good {p} (open_port o at n e) g = open-Good v a pipefd named p o at n e g
  Step-Good {p} (wait_client poll e es at ev n r) g =
      wait-Good v a pipefd named p poll e es at ev n r g
  Step-Good {p} (answer i at f e) g = answer-Good v a pipefd named p i at e g
  Step-Good {p} (end_ at f) g = record {
    unlocked = g.unlocked;
    argument = g.argument;
    traced = g.traced;
    clock = g.clock;
    jtag = f;
    main = Main-jtag p.main_at _ _ _ _ (still (inr (inr at))) g.main;
  }
  Step-Good {p} (join_system at e) g = record {
    unlocked = g.unlocked;
    argument = g.argument;
    traced = g.traced;
    clock = g.clock;
    jtag = g.jtag;
    main = (refl, e);
  }
  Step-Good {p} (join_jtag at e) g = record {
    unlocked = g.unlocked;
    argument = g.argument;
    traced = g.traced;
    clock = g.clock;
    jtag = g.jtag;
    main = (ended p at g, e);
  }

  created-Good : (d : D) (pins : Pins) → Good a pipefd (created a d pins)
  unfolding Jtag Main Clock Traced stamps
  created-Good d pins = record {
    unlocked = refl;
    argument = refl;
    traced = λ t. record { ticks = 0; time = refl; traced = refl };
    clock = tt;
    jtag = tt;
    main = refl;
  }

  pub Reach-Good : {p q : Program D} → Reach v a pipefd p q → Good a pipefd p → Good a pipefd q
  Reach-Good here g = g
  Reach-Good (after r s) g = Step-Good s (Reach-Good r g)

  -- In every state that the threads reach, whatever their order, whatever the client sends and whatever
  -- the testbench does, the tracer has been given every time from 0 up to the present, once and in order,
  -- and the mutex is free.
  pub Reach-Stamped :
      (d : D) (pins : Pins) (p : Program D)
      → a.tfp ≡ true
      → Reach v a pipefd (created a d pins) p
      → Stamped (shared p) × ((shared p).locked ≡ false)
  unfolding Traced
  Reach-Stamped d pins p t r =
      let g = Reach-Good r (created-Good d pins) in (g.traced t, g.unlocked)

  -- In every state that the threads reach in which `jtag_thrd` serves, a client is connected to an open
  -- socket or neither is there, and `respond` returns on whatever it reads, with the mutex free, and leaves a
  -- server of the same kind.
  pub Reach-responds :
      (d : D) (pins : Pins) (p : Program D) (i : Incoming)
      → Reach v a pipefd (created a d pins) p
      → p.jtag_at ≡ serving
      → Whole p.session.server
        × Reaches
            (λ s. Whole s.server × (s.world.shared.locked ≡ false))
            (respond (verilator_backend v) i p.session)
  Reach-responds d pins p i r at =
      let g = Reach-Good r (created-Good d pins) in
      let x = responds v a pipefd named p i at g in
      (
        (waiting v a pipefd named p at g).1,
        record { out = x.out; returns = x.returns; holds = (x.holds.whole, x.holds.kept.unlocked) },
      )
