-- ===== src/Sim/Threads/Safety/Served.antt =====
-- The steps of `jtag_thrd`, verilator/sim.cpp, keep what holds in every reachable state.
use mathlib.Core.Path.{subst}
use zr_soc.Common.{
  ℕ, ◌≡◌, refl, ◌≢◌, inl, inr, Bool, true, some, List, [], ◌∷◌, All, sym, ap, ◌∙◌, Bool-cases, ok,
  ok-injective, Reaches,
}
use zr_soc.Rbb.{
  Server, Session, Event, Polling, accept, listen, construct, returned, Opening, Incoming, respond,
}
use zr_soc.Rbb.Serve.{Whole, Ready, respond-Ready}
use zr_soc.Rbb.Accept.{Usual, accept-returned}
use zr_soc.Rbb.Lifecycle.{listen-returned}
use zr_soc.Sim.{Design, ThArg, VerilatorBackend, set_server, verilator_backend}
use zr_soc.Sim.Mutex.{Idle, verilator_backend-Idle}
use zr_soc.Sim.Trace.{Traced, critical-Traced}
use zr_soc.Sim.Threads.{jtag_created, accepting, serving, Program, connect, rbb_port, Reported}
use zr_soc.Sim.Threads.Safety.{Jtag, Good, still, Main-jtag}

module _ {D : Type 0} (v : Design D) (a : ThArg) (pipefd : ℕ) (named : pipefd ≢ 0) where
  pub waiting :
      (p : Program D)
      → p.jtag_at ≡ serving
      → Good a pipefd p
      → (p.session.world.srv ≡ true) × Whole p.session.server
  unfolding Jtag
  waiting p at g = subst (λ j. Jtag pipefd j p.session) at g.jtag

  connect-world : (w : VerilatorBackend D) → (connect v pipefd w).world ≡ record w { srv = true }
  unfolding connect set_server
  connect-world w = elim (Bool-cases w.srv) [ inl e ↦ rw e refl | inr e ↦ rw e refl ]

  connect-clientfd : (w : VerilatorBackend D) → (connect v pipefd w).server.clientfd ≡ 0
  unfolding connect construct
  connect-clientfd w = refl

  connect-pipefd : (w : VerilatorBackend D) → (connect v pipefd w).server.pipefd ≡ pipefd
  unfolding connect construct
  connect-pipefd w = refl

  Reported-Usual :
      (s : Server) (b : Bool) (es : List Event)
      → s.sockfd ≢ 0
      → s.pipefd ≡ pipefd
      → All (Reported s b) es
      → All Usual es
  Reported-Usual s b [] o k h = tt
  Reported-Usual s b (e ∷ es) o k h = (
    (
      elim h.0.source [ inl f ↦ λ z. o (sym f ∙ z) | inr f ↦ λ z. named (sym k ∙ sym f.0 ∙ z) ],
      h.0.client,
    ),
    Reported-Usual s b es o k h.1,
  )

  pub open-Good :
      (p : Program D) (o : Opening) {s : Server}
      → p.jtag_at ≡ jtag_created
      → o.socket ≢ some 0
      → listen o rbb_port (connect v pipefd p.session.world).server ≡ returned s
      → Good a pipefd p
      → Good a pipefd (record p {
        session = record (connect v pipefd p.session.world) { server = s };
        jtag_at = accepting;
      })
  unfolding Jtag
  open-Good p o {s} at n e g =
      let fresh = connect-world p.session.world in
      let y = listen-returned o rbb_port (connect v pipefd p.session.world).server s e in
      record {
        unlocked = rw fresh g.unlocked;
        argument = rw fresh g.argument;
        traced = rw fresh g.traced;
        clock = g.clock;
        jtag = (
          ap (λ (w : VerilatorBackend D). w.srv) fresh,
          y.1 ∙ connect-clientfd p.session.world,
          (λ z. n (y.0 ∙ ap some z)),
          y.2 ∙ connect-pipefd p.session.world,
        );
        main = Main-jtag p.main_at _ _ _ _ (still (inl at)) g.main;
      }

  pub wait-Good :
      (p : Program D) (poll : Polling) (e : Event) (es : List Event) {s : Server}
      → p.jtag_at ≡ accepting
      → poll.events ≡ some (e ∷ es)
      → All (Reported p.session.server p.signalled) (e ∷ es)
      → accept poll p.session.server ≡ returned s
      → Good a pipefd p
      → Good a pipefd (record p { session = record p.session { server = s }; jtag_at = serving })
  unfolding Jtag
  wait-Good p poll e es {s} at ev n r g =
      let j = subst (λ j. Jtag pipefd j p.session) at g.jtag in
      let u = Reported-Usual p.session.server p.signalled (e ∷ es) j.2 j.3 n in
      record {
        unlocked = g.unlocked;
        argument = g.argument;
        traced = g.traced;
        clock = g.clock;
        jtag = (j.0, accept-returned poll e es p.session.server s ev u j.1 j.2 r);
        main = Main-jtag p.main_at _ _ _ _ (still (inr (inl at))) g.main;
      }

  pub responds :
      (p : Program D) (i : Incoming)
      → p.jtag_at ≡ serving
      → Good a pipefd p
      → Reaches (Ready (Idle (some a) (Traced a))) (respond (verilator_backend v) i p.session)
  unfolding Jtag
  responds p i at g =
      let j = waiting p at g in
      respond-Ready _ _ (verilator_backend-Idle v (some a) (Traced a) (critical-Traced v a)) i
        p.session
        (record {
          kept = record {
            unlocked = g.unlocked;
            served = j.0;
            argument = g.argument;
            kept = g.traced;
          };
          whole = j.1;
        })

  pub answer-Good :
      (p : Program D) (i : Incoming) {s : Session (VerilatorBackend D)}
      → p.jtag_at ≡ serving
      → respond (verilator_backend v) i p.session ≡ ok s
      → Good a pipefd p
      → Good a pipefd (record p { session = s })
  unfolding Jtag
  answer-Good p i {s} at e g =
      let y = responds p i at g in
      let same = ok-injective (sym y.returns ∙ e) in
      let h = subst (Ready (Idle (some a) (Traced a))) same y.holds in
      record {
        unlocked = h.kept.unlocked;
        argument = h.kept.argument;
        traced = h.kept.kept;
        clock = g.clock;
        jtag = rw at (h.kept.served, h.whole);
        main = g.main;
      }
