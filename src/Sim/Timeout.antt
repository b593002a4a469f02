-- ===== src/Sim/Timeout.antt =====
-- The end of the loop of `sys_thrd`, verilator/sim.cpp, by its timeout or by `$finish`.
use native.Mathlib.Nat.{pow-le-pow_right}
use zr_soc.Common.{
  ℕ, zero, suc, ◌+◌, ◌-◌, ◌%◌, ◌^◌, ◌≤◌, ◌<◌, ◌≡◌, refl, ◌⊎◌, inl, inr, slt32, ltb, true, false, ok,
  out_of_fuel, ◌>>=◌, Reaches, bind-Reaches, ok-Reaches, Bool-cases, ◌∙◌, lt→ltb, arith, tests,
}
use zr_soc.Sim.{Design, Shared, ThArg, lock, unlock, eval, set_pins}
use zr_soc.Sim.Clock.{
  System, shift_one, timed_out, collect, system_body, system_round, system_loop, system_init,
}

-- The other thread keeps the mutex free between its critical sections.
abbrev pub Polite : {D : Type 0} → (ℕ → Shared D → Shared D) → Type 0
Polite {D} others = (i : ℕ) (m : Shared D) → m.locked ≡ false → (others i m).locked ≡ false

-- Why the loop has ended: `$finish`, or the timeout, which has raised `quit`.
pub Over : {D : Type 0} → Design D → (limit : ℕ) → Shared D → System → Type 0
Over v limit m s = (v.got_finish m.design ≡ true) ⊎ ((s.cnt ≡ limit + 1) × (m.pins.quit ≡ 1))

pub slt32-positive : (n : ℕ) → 0 < n → n < 2 ^ 31 → slt32 0 n ≡ true
slt32-positive n p q = lt→ltb ((0 + 2 ^ 31) % 2 ^ 32) ((n + 2 ^ 31) % 2 ^ 32) (omega arith)

timed_out-limit :
    (a : ThArg) (cnt : ℕ)
    → 0 < a.max_cycs_pow
    → a.max_cycs_pow < 31
    → timed_out a cnt ≡ ok (ltb (2 ^ a.max_cycs_pow) cnt)
unfolding timed_out shift_one
timed_out-limit a cnt p q =
    rw (slt32-positive a.max_cycs_pow p (omega arith), lt→ltb a.max_cycs_pow 31 q) refl

collect-cnt : {D : Type 0} (v : Design D) (d : D) (s : System) → (collect v d s).cnt ≡ s.cnt
unfolding collect
collect-cnt v d s = ground arith

collect-done : {D : Type 0} (v : Design D) (d : D) (s : System) → (collect v d s).done ≡ s.done
unfolding collect
collect-done v d s = ground arith

at_limit : (limit c : ℕ) → ltb limit c ≡ true → c ≤ limit + 1 → c ≡ limit + 1
at_limit limit c l h = omega tests

within : (limit c : ℕ) → ltb limit c ≡ false → c ≤ limit
within limit c l = ground arith

count : {limit : ℕ} (c : ℕ) → limit < 2 ^ 64 - 1 → c ≤ limit → (c + 1) % 2 ^ 64 ≡ c + 1
count c w l = omega arith

power : (n : ℕ) → n < 31 → 2 ^ n < 2 ^ 64 - 1
power n q =
    let larger = pow-le-pow_right {n = 2} (omega arith) {i = n} {j = 31} (omega (arith, q)) in
    omega arith

module _ {D : Type 0} (v : Design D) (a : ThArg) (limit : ℕ) where
  -- After a round: the loop goes on within the limit, or is over.
  AfterRound : ℕ → Shared D × System → Type 0
  AfterRound cnt r =
      ((r.1.done ≡ false) × (r.1.cnt ≡ cnt) × (cnt ≤ limit))
      ⊎ ((r.1.done ≡ true) × (r.1.cnt ≡ cnt) × Over v limit r.0 r.1)

  system_body-AfterRound :
      (m : Shared D) (s : System)
      → ((c : ℕ) → timed_out a c ≡ ok (ltb limit c))
      → s.done ≡ false
      → s.cnt ≤ limit + 1
      → Reaches (AfterRound s.cnt) (system_body v a m s)
  unfolding system_body AfterRound Over eval set_pins
  system_body-AfterRound m s t d c = elim (Bool-cases (v.got_finish m.design)) [
    | inl f ↦ rw f (ok-Reaches (inr (refl, refl, inl f)))
    | inr f ↦
        rw (f, t s.cnt)
          (elim (Bool-cases (ltb limit s.cnt)) [
            | inl l ↦ rw l (
                ok-Reaches (
                  inr (
                    refl,
                    collect-cnt v m.design s,
                    inr (collect-cnt v m.design s ∙ at_limit limit s.cnt l c, refl),
                  )))
            | inr l ↦ rw l (
                ok-Reaches (
                  inl (
                    collect-done v m.design s ∙ d,
                    collect-cnt v m.design s,
                    within limit s.cnt l,
                  )))
          ])
  ]

  system_round-AfterRound :
      (m : Shared D) (s : System)
      → ((c : ℕ) → timed_out a c ≡ ok (ltb limit c))
      → limit < 2 ^ 64 - 1
      → m.locked ≡ false
      → s.done ≡ false
      → s.cnt ≤ limit
      → Reaches (λ r. (r.0.locked ≡ false) × AfterRound (s.cnt + 1) r) (system_round v a m s)
  unfolding system_round lock unlock AfterRound Over
  system_round-AfterRound m s t w u d c =
      rw (u, count s.cnt w c)
        (bind-Reaches _
          (system_body-AfterRound (record m { locked = true }) (record s { cnt = s.cnt + 1 }) t d
            (omega arith))
          (λ r k. ok-Reaches (refl, k)))

  -- The end of the loop.
  pub Finished : Shared D × System → Type 0
  Finished r = (r.1.done ≡ true) × (r.1.cnt ≤ limit + 1) × Over v limit r.0 r.1

  system_loop-over :
      (fuel : ℕ) (others : ℕ → Shared D → Shared D) (m : Shared D) (s : System)
      → s.done ≡ true
      → system_loop fuel v a others m s ≡ ok (m, s)
  unfolding system_loop
  system_loop-over zero others m s d = rw d refl
  system_loop-over (suc fuel) others m s d = rw d refl

  system_loop-next :
      (fuel : ℕ) (others : ℕ → Shared D → Shared D) (m : Shared D) (s : System)
      → s.done ≡ false
      → system_loop (suc fuel) v a others m s
        ≡ (system_round v a (others fuel m) s >>= λ r. system_loop fuel v a others r.0 r.1)
  unfolding system_loop
  system_loop-next fuel others m s d = rw d refl

  system_loop-Finished :
      (fuel : ℕ) (others : ℕ → Shared D → Shared D) (m : Shared D) (s : System)
      → ((c : ℕ) → timed_out a c ≡ ok (ltb limit c))
      → limit < 2 ^ 64 - 1
      → Polite others
      → m.locked ≡ false
      → s.done ≡ false
      → s.cnt + fuel ≡ limit + 1
      → s.cnt ≤ limit
      → Reaches Finished (system_loop fuel v a others m s)
  unfolding AfterRound Finished
  system_loop-Finished zero others m s t w p u d e c = absurd (omega arith)
  system_loop-Finished (suc fuel) others m s t w p u d e c =
      rw (system_loop-next fuel others m s d) (
        bind-Reaches _ (system_round-AfterRound (others fuel m) s t w (p fuel m u) d c) (λ r k.
          elim k.1 [
            | inl g ↦
                system_loop-Finished fuel others r.0 r.1 t w p k.0 g.0 (omega (arith, g))
                  (omega (arith, g))
            | inr g ↦
                rw (system_loop-over fuel others r.0 r.1 g.0)
                  (ok-Reaches (g.0, omega (arith, g), g.2))
          ]))

-- With a timeout of 2 to the `max_cycs_pow`, for a power from 1 to 30, the loop of `sys_thrd` ends within
-- that many rounds and one, whatever the testbench does and whatever the other thread does between the
-- rounds, provided that it leaves the mutex free. It has then ended by `$finish`, or in exactly the round
-- after that many rounds, with `quit` raised.
pub system_loop-timeout :
    {D : Type 0} (v : Design D) (a : ThArg) (others : ℕ → Shared D → Shared D) (m : Shared D)
    → 0 < a.max_cycs_pow
    → a.max_cycs_pow < 31
    → Polite others
    → m.locked ≡ false
    → Reaches
        (Finished v a (2 ^ a.max_cycs_pow))
        (system_loop (2 ^ a.max_cycs_pow + 1) v a others m system_init)
system_loop-timeout v a others m p q o u =
    system_loop-Finished v a (2 ^ a.max_cycs_pow) (2 ^ a.max_cycs_pow + 1) others m system_init
      (λ c. timed_out-limit a c p q) (power a.max_cycs_pow q) o u refl (omega arith) (omega arith)

-- Without a timeout, for a number that is not positive, the loop goes on for as long as the testbench
-- does not finish.
pub system_loop-unlimited :
    {D : Type 0} (fuel : ℕ) (v : Design D) (a : ThArg) (others : ℕ → Shared D → Shared D)
    (m : Shared D) (s : System)
    → slt32 0 a.max_cycs_pow ≡ false
    → ((d : D) → v.got_finish d ≡ false)
    → Polite others
    → m.locked ≡ false
    → s.done ≡ false
    → system_loop fuel v a others m s ≡ out_of_fuel
unfolding system_loop system_round system_body timed_out lock unlock
system_loop-unlimited zero v a others m s n f o u d = rw d refl
system_loop-unlimited (suc fuel) v a others m s n f o u d =
    rw (d, o fuel m u, f, n)
      (system_loop-unlimited fuel v a others _ _ n f o refl (collect-done v _ _))
