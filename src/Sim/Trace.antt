-- ===== src/Sim/Trace.antt =====
-- The times at which the threads of verilator/sim.cpp dump the signals.
use zr_soc.Common.{
  ℕ, zero, suc, ◌%◌, ◌^◌, ◌≡◌, refl, ap₂, if◌then◌else◌, Bool, true, false, some, List, [], ◌∷◌, ok,
  fault, Yields, bind-Yields, after-Yields, if-Yields, ok-Yields, some-injective, arith,
}
use zr_soc.Sim.Mutex.{Steady}
use zr_soc.Sim.{
  Design, Shared, ThArg, Pins, lock, unlock, live, reset_body, quit_body, set_inputs_body, eval,
  dump, advance, set_pins,
}
use zr_soc.Sim.Clock.{
  System, set_clk, clock_cycle, clock_cycles, timed_out, system_reset, system_start, system_body,
  system_round,
}

-- The times from 0 on, the last one first, as `uint64_t`.
unfoldable pub stamps : ℕ → List ℕ
stamps zero = []
stamps (suc n) = n % 2 ^ 64 ∷ stamps n

-- Every time so far has been dumped once, in order, and none else.
pub record Stamped {D : Type 0} (m : Shared D) : Type 0 where
  pub ticks : ℕ
  pub time : m.simtime ≡ ticks % 2 ^ 64
  pub traced : m.dumps ≡ stamps ticks

module _ {D : Type 0} (v : Design D) (a : ThArg) (traces : a.tfp ≡ true) where
  tick-Stamped : (m : Shared D) → Stamped m → Stamped (advance (dump a m))
  unfolding advance dump stamps
  tick-Stamped m h = rw traces (record {
    ticks = suc h.ticks;
    time = omega (arith, h.time);
    traced = ap₂ (λ t (ts : List ℕ). t ∷ ts) h.time h.traced;
  })

  eval-Stamped : (m : Shared D) → Stamped m → Stamped (eval v m)
  unfolding eval
  eval-Stamped m h = record { ticks = h.ticks; time = h.time; traced = h.traced }

  set_pins-Stamped : (p : Pins) (m : Shared D) → Stamped m → Stamped (set_pins p m)
  unfolding set_pins
  set_pins-Stamped p m h = record { ticks = h.ticks; time = h.time; traced = h.traced }

  step-Stamped :
      (p : Pins) (m : Shared D) → Stamped m → Stamped (advance (dump a (eval v (set_pins p m))))
  step-Stamped p m h = tick-Stamped _ (eval-Stamped _ (set_pins-Stamped p m h))

  if-Stamped : (c : Bool) {m n : Shared D} → Stamped m → Stamped n → Stamped (if c then m else n)
  if-Stamped true h k = h
  if-Stamped false h k = k

  set_inputs_body-Stamped :
      (tck tms tdi : ℕ) (m : Shared D) → Stamped m → Stamped (set_inputs_body v tck tms tdi a m)
  unfolding set_inputs_body
  set_inputs_body-Stamped tck tms tdi m h = if-Stamped (live v a m) (step-Stamped _ m h) h

  quit_body-Stamped : (m : Shared D) → Stamped m → Stamped (quit_body v a m)
  unfolding quit_body
  quit_body-Stamped m h = if-Stamped (live v a m) (step-Stamped _ m h) h

  reset_body-Stamped : (m : Shared D) → Stamped m → Stamped (reset_body v a m)
  unfolding reset_body
  reset_body-Stamped m h =
      if-Stamped (live v a m) (step-Stamped _ _ (eval-Stamped _ (set_pins-Stamped _ m h))) h

  clock_cycle-Stamped : (m : Shared D) → Stamped m → Stamped (clock_cycle v a m)
  unfolding clock_cycle set_clk
  clock_cycle-Stamped m h = step-Stamped _ _ (step-Stamped _ m h)

  clock_cycles-Stamped : (left : ℕ) (m : Shared D) → Stamped m → Stamped (clock_cycles v a left m)
  unfolding clock_cycles
  clock_cycles-Stamped zero m h = h
  clock_cycles-Stamped (suc left) m h =
      clock_cycles-Stamped left (clock_cycle v a m) (clock_cycle-Stamped m h)

  system_reset-Stamped : (m : Shared D) → Stamped m → Stamped (system_reset v a m)
  unfolding system_reset
  system_reset-Stamped m h =
      if-Stamped (v.got_finish m.design) h
        (set_pins-Stamped _ _ (clock_cycles-Stamped 10 _ (set_pins-Stamped _ m h)))

  relock-Stamped : (b : Bool) (m : Shared D) → Stamped m → Stamped (record m { locked = b })
  relock-Stamped b m h = record { ticks = h.ticks; time = h.time; traced = h.traced }

  system_body-Stamped :
      (m : Shared D) (s : System) → Stamped m → Yields (λ r. Stamped r.0) (system_body v a m s)
  unfolding system_body
  system_body-Stamped m s h =
      if-Yields {P = λ r. Stamped r.0} (v.got_finish m.design) (ok-Yields h) (
        after-Yields (timed_out a s.cnt) _ (λ out.
          if-Yields out
            (ok-Yields (eval-Stamped _ (set_pins-Stamped _ _ (clock_cycle-Stamped m h))))
            (ok-Yields (clock_cycle-Stamped m h))))

fault-ok {ℓ} : {A : Type ℓ} {x : A} → ¬ (fault ≡ ok x)
fault-ok e = cc

-- With a tracer every time up to the present has been dumped once, in order.
unfoldable pub Traced : {D : Type 0} → ThArg → Shared D → Type 0
Traced a m = a.tfp ≡ true → Stamped m

pub critical-Traced : {D : Type 0} (v : Design D) (a : ThArg) → Steady v (some a) (Traced a)
unfolding Traced
critical-Traced v a = record {
  any_lock = λ b m h t. relock-Stamped v a t b m (h t);
  reset_keeps =
      λ b m e h. let same = some-injective e in rw⁻¹ same (λ t. reset_body-Stamped v a t m (h t));
  quit_keeps =
      λ b m e h. let same = some-injective e in rw⁻¹ same (λ t. quit_body-Stamped v a t m (h t));
  set_inputs_keeps = λ tck tms tdi b m e h.
      let same = some-injective e in
      rw⁻¹ same (λ t. set_inputs_body-Stamped v a t tck tms tdi m (h t));
}

lock-Traced :
    {D : Type 0} (v : Design D) (a : ThArg) (m : Shared D) → Traced a m → Yields (Traced a) (lock m)
unfolding lock Traced
lock-Traced v a m h =
    if-Yields m.locked (record { on = λ b e. absurd (fault-ok e) })
      (ok-Yields (λ t. relock-Stamped v a t true m (h t)))

system_body-Traced :
    {D : Type 0} (v : Design D) (a : ThArg) (m : Shared D) (s : System)
    → Traced a m
    → Yields (λ r. Traced a r.0) (system_body v a m s)
unfolding Traced
system_body-Traced v a m s h = record { on = λ r e t. (system_body-Stamped v a t m s (h t)).on r e }

-- A round of `sys_thrd` leaves the mutex free.
pub system_round-Traced :
    {D : Type 0} (v : Design D) (a : ThArg) (m : Shared D) (s : System)
    → Traced a m
    → Yields (λ r. Traced a r.0 × (r.0.locked ≡ false)) (system_round v a m s)
unfolding system_round lock unlock Traced
system_round-Traced v a m s h = bind-Yields {P = Traced a} _ (lock-Traced v a m h) (λ l c.
    bind-Yields {P = λ r. Traced a r.0} _ (system_body-Traced v a l _ c)
      (λ r k. ok-Yields (λ t. relock-Stamped v a t false r.0 (k t), refl)))

pub system_start-Traced :
    {D : Type 0} (v : Design D) (a : ThArg) (m : Shared D)
    → Traced a m
    → Yields (λ r. Traced a r × (r.locked ≡ false)) (system_start v a m)
unfolding system_start lock unlock Traced
system_start-Traced v a m h = bind-Yields {P = Traced a} _ (lock-Traced v a m h) (λ l k.
    after-Yields (timed_out a 0) _ (λ u.
      ok-Yields (λ t. relock-Stamped v a t false _ (system_reset-Stamped v a t l (k t)), refl)))
