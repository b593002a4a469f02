-- ===== src/Sim/Mutex.antt =====
-- The critical sections of `verilator_backend` and of `sys_thrd`, verilator/sim.cpp: each takes the mutex
-- once, and releases it.
use zr_soc.Common.{
  ℕ, ◌≡◌, refl, Bool, true, false, Option, none, some, Run, Reaches, bind-Reaches, if-Reaches,
  ok-Reaches, sym, ◌∙◌,
}
use zr_soc.Rbb.{Server, finish}
use zr_soc.Rbb.Serve.{Dependable}
use zr_soc.Sim.{
  Design, Shared, ThArg, VerilatorBackend, lock, unlock, guarded, critical, reset, reset_body, quit,
  quit_body, blink, set_inputs, set_inputs_body, get_tdo, verilator_backend,
}

-- The mutex is free, the backend has a server to finish and this argument, and a predicate holds of what
-- the threads share.
pub record Idle {D : Type 0} (given : Option ThArg) (P : Shared D → Type 0) (w : VerilatorBackend D)
    : Type 0 where
  pub unlocked : w.shared.locked ≡ false
  pub served : w.srv ≡ true
  pub argument : w.arg ≡ given
  pub kept : P w.shared

-- The critical sections keep the predicate, which does not depend on the mutex.
pub record Steady {D : Type 0} (v : Design D) (given : Option ThArg) (P : Shared D → Type 0)
    : Type 0 where
  pub any_lock : (b : Bool) (m : Shared D) → P m → P (record m { locked = b })
  pub reset_keeps : (a : ThArg) (m : Shared D) → given ≡ some a → P m → P (reset_body v a m)
  pub quit_keeps : (a : ThArg) (m : Shared D) → given ≡ some a → P m → P (quit_body v a m)
  pub set_inputs_keeps :
      (tck tms tdi : ℕ) (a : ThArg) (m : Shared D)
      → given ≡ some a
      → P m
      → P (set_inputs_body v tck tms tdi a m)

guarded-Reaches {ℓ κ} :
    {A : Type ℓ} {P : A → Type κ} (a : Option ThArg) {x : Run A} {f : ThArg → Run A}
    → Reaches P x
    → ((t : ThArg) → a ≡ some t → Reaches P (f t))
    → Reaches P (guarded a x f)
unfolding guarded
guarded-Reaches none h k = h
guarded-Reaches (some a) h k = if-Reaches a.mutex (k a refl) h

module _ {D : Type 0} (v : Design D) (given : Option ThArg) (P : Shared D → Type 0)
    (p : Steady v given P) where
  critical-Idle :
      (body : ThArg → Shared D → Shared D) (w : VerilatorBackend D)
      → ((a : ThArg) (m : Shared D) → given ≡ some a → P m → P (body a m))
      → Idle given P w
      → Reaches (Idle given P) (critical body w)
  unfolding critical lock unlock
  critical-Idle body w k h = guarded-Reaches w.arg (ok-Reaches h) (λ a e. rw h.unlocked (
      ok-Reaches (record {
        unlocked = refl;
        served = h.served;
        argument = h.argument;
        kept = p.any_lock false _ (k a _ (sym h.argument ∙ e) (p.any_lock true _ h.kept));
      })))

  quit-Idle :
      (w : VerilatorBackend D) (s : Server)
      → Idle given P w
      → Reaches (λ r. Idle given P r.0 × (r.1 ≡ finish s)) (quit v w s)
  unfolding quit
  quit-Idle w s h =
      bind-Reaches _ (critical-Idle (quit_body v) w p.quit_keeps h)
        (λ u k. ok-Reaches (k, rw k.served refl))

  get_tdo-Idle :
      (w : VerilatorBackend D) → Idle given P w → Reaches (λ r. Idle given P r.0) (get_tdo v w)
  unfolding get_tdo lock unlock
  get_tdo-Idle w h = guarded-Reaches {P = λ r. Idle given P r.0} w.arg (ok-Reaches h) (λ a e.
      if-Reaches a.top
        (rw h.unlocked (
          ok-Reaches (record {
            unlocked = refl;
            served = h.served;
            argument = h.argument;
            kept = p.any_lock false _ (p.any_lock true _ h.kept);
          })))
        (ok-Reaches h))

  pub verilator_backend-Idle : Dependable (verilator_backend v) (Idle given P)
  unfolding verilator_backend reset set_inputs blink
  verilator_backend-Idle = record {
    reset_keeps = λ w h. critical-Idle (reset_body v) w p.reset_keeps h;
    blink_keeps = λ on w h. ok-Reaches h;
    set_inputs_keeps = λ tck tms tdi w h.
        critical-Idle (set_inputs_body v tck tms tdi) w (p.set_inputs_keeps tck tms tdi) h;
    get_tdo_keeps = get_tdo-Idle;
    quit_finishes = quit-Idle;
  }

-- The mutex is free, and the backend has a server to finish.
abbrev pub Unlocked : {D : Type 0} → Option ThArg → VerilatorBackend D → Type 0
Unlocked given w = Idle given (λ m. Unit) w

-- Every operation of the backend returns, with the mutex free again, when it is called with the mutex
-- free, so none takes the mutex twice; and `quit` finishes the server. This holds for every testbench
-- and for every argument, NULL pointers in it included.
pub verilator_backend-Unlocked :
    {D : Type 0} (v : Design D) (given : Option ThArg)
    → Dependable (verilator_backend v) (Unlocked given)
verilator_backend-Unlocked v given =
    verilator_backend-Idle v given (λ m. Unit)
      (record {
        any_lock = λ b m h. h;
        reset_keeps = λ a m e h. h;
        quit_keeps = λ a m e h. h;
        set_inputs_keeps = λ tck tms tdi a m e h. h;
      })
