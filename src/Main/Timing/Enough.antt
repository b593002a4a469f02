-- ===== src/Main/Timing/Enough.antt =====
-- The number of iterations that the search of sw/coremark/core_main.c arrives at.
use native.Mathlib.Nat.{mul_assoc, mul-le-mul_right, pow-le-pow_right}
use native.Mathlib.Omega.{pow_step}
use zr_soc.Common.{
  ℕ, zero, suc, ◌+◌, ◌*◌, ◌/◌, ◌^◌, ◌≤◌, ◌<◌, ◌≡◌, refl, ap, sym, true, false, ltb, Bool-cases, inl,
  inr, ltb→lt, le→ltb, ne→==, ◌==◌, ok, Reaches, bind-Reaches, ok-Reaches, u32, arith,
}
use zr_soc.Timer.{Timer, get_time, time_in_secs}
use zr_soc.Timer.Elapsed.{get_time-stop_time-start_time}
use zr_soc.Main.Timing.{timed, search_iterations, scale_iterations, set_iterations, perform}

-- Each iteration takes `p` cycles, and what a call takes besides them is at most `a` cycles.
pub record Steady (p a : ℕ) (cost : ℕ → ℕ) : Type 0 where
  pub at_least : (n : ℕ) → p * n ≤ cost n
  pub at_most : (n : ℕ) → cost n ≤ p * n + a

-- What the search ends with.
record Searched (p : ℕ) (cost : ℕ → ℕ) (x : ℕ × ℕ × Timer) : Type 0 where
  secs : x.1 ≡ cost x.0 / 100000000
  enough : 1 ≤ x.1
  below : p * x.0 < 10 ^ 9

-- The run is at least 10 and below 23 seconds long.
long_enough :
    (s x c a : ℕ)
    → c / 100000000 ≡ s
    → 1 ≤ s
    → x ≤ c
    → c ≤ x + a
    → x < 10 ^ 9
    → a ≤ 9 * 10 ^ 6
    → (10 ^ 9 ≤ x * (1 + 10 / s)) × (x * (1 + 10 / s) + a < 23 * 10 ^ 8) × (10 / s ≤ 10)
long_enough zero x c a e h l u b k = omega arith
long_enough (suc zero) x c a e h l u b k = (omega arith, omega arith, omega arith)
long_enough (suc (suc zero)) x c a e h l u b k = (omega arith, omega arith, omega arith)
long_enough (suc (suc (suc zero))) x c a e h l u b k = (omega arith, omega arith, omega arith)
long_enough (suc (suc (suc (suc zero)))) x c a e h l u b k = (omega arith, omega arith, omega arith)
long_enough (suc (suc (suc (suc (suc zero))))) x c a e h l u b k =
    (omega arith, omega arith, omega arith)
long_enough (suc (suc (suc (suc (suc (suc zero)))))) x c a e h l u b k =
    (omega arith, omega arith, omega arith)
long_enough (suc (suc (suc (suc (suc (suc (suc zero))))))) x c a e h l u b k =
    (omega arith, omega arith, omega arith)
long_enough (suc (suc (suc (suc (suc (suc (suc (suc zero)))))))) x c a e h l u b k =
    (omega arith, omega arith, omega arith)
long_enough (suc (suc (suc (suc (suc (suc (suc (suc (suc zero))))))))) x c a e h l u b k =
    (omega arith, omega arith, omega arith)
long_enough (suc (suc (suc (suc (suc (suc (suc (suc (suc (suc zero)))))))))) x c a e h l u b k =
    (omega arith, omega arith, omega arith)
long_enough (suc (suc (suc (suc (suc (suc (suc (suc (suc (suc (suc s))))))))))) x c a e h l u b k =
    omega (arith, over)
  where
    over : 11 ≤ c / 100000000
    over = omega (arith, e)

-- The run whose time counts: its ticks are the cycles of all its iterations, and it takes 10 to 22
-- seconds.
pub record Performed (cost : ℕ → ℕ) (x : ℕ × ℕ) : Type 0 where
  pub exact : x.1 ≡ cost x.0
  pub long : 10 ≤ time_in_secs x.1
  pub short : time_in_secs x.1 ≤ 22

module _ (p a : ℕ) (counter cost : ℕ → ℕ) (steady : Steady p a cost) (some_time : 1 ≤ p)
    (little : a ≤ 9 * 10 ^ 6) where
  least : (n : ℕ) → n ≤ p * n
  least n = omega (arith, mul-le-mul_right n some_time)

  shift : (n : ℕ) → p * (n * 10) ≡ p * n * 10
  shift n = sym (mul_assoc p n 10)

  -- The 32 bits of the counter are enough for a run of less than 43 seconds.
  timed-cost : (n : ℕ) (t : Timer) → cost n < 2 ^ 32 → get_time (timed counter cost n t) ≡ cost n
  unfolding timed
  timed-cost n t h = get_time-stop_time-start_time (counter n) (cost n) t h

  search_iterations_step :
      (k n : ℕ) (t : Timer)
      → p * n < 10 ^ 8
      → search_iterations (suc k) counter cost n 0 t
        ≡ search_iterations k counter cost
            (n * 10)
            (cost (n * 10) / 100000000)
            (timed counter cost (n * 10) t)
  unfolding search_iterations time_in_secs
  search_iterations_step k n t h =
      let exact : u32 (n * 10) ≡ n * 10 = omega (arith, h, least n) in
      let fits : cost (n * 10) < 2 ^ 32 =
        omega (arith, h, little, shift n, steady.at_most (n * 10)) in
      rw (exact, timed-cost (n * 10) t fits)

  search_iterations_end :
      (k n secs : ℕ) (t : Timer)
      → 1 ≤ secs
      → search_iterations (suc k) counter cost n secs t ≡ ok (n, secs, t)
  unfolding search_iterations
  search_iterations_end k n secs t h = rw (le→ltb secs 1 h)

  search_iterations-Searched :
      (k n : ℕ) (t : Timer)
      → p * n < 10 ^ 8
      → 10 ^ 8 ≤ 10 ^ k * n
      → Reaches (Searched p cost) (search_iterations (suc k) counter cost n 0 t)
  search_iterations-Searched zero n t h e = absurd (omega (arith, h, e, least n))
  search_iterations-Searched (suc k) n t h e =
      rw (search_iterations_step (suc k) n t h)
        (elim (Bool-cases (ltb (cost (n * 10) / 100000000) 1)) [
          | inl short ↦ rw (none_passed short) (
              search_iterations-Searched k (n * 10) (timed counter cost (n * 10) t)
                (omega (arith, none_passed short, steady.at_least (n * 10))) further)
          | inr long ↦
              rw (search_iterations_end k (n * 10) _ (timed counter cost (n * 10) t) (passed long))
                (ok-Reaches
                  (record { secs = refl; enough = passed long; below = omega (arith, h, shift n) }))
        ])
    where
      none_passed : ltb (cost (n * 10) / 100000000) 1 ≡ true → cost (n * 10) / 100000000 ≡ 0
      none_passed q = omega (arith, ltb→lt _ 1 q)

      passed : ltb (cost (n * 10) / 100000000) 1 ≡ false → 1 ≤ cost (n * 10) / 100000000
      passed q = ground arith

      further : 10 ^ 8 ≤ 10 ^ k * (n * 10)
      further =
          let more : 10 ^ suc k * n ≡ 10 * 10 ^ k * n = ap (λ z. z * n) (pow_step 10 k) in
          omega (arith, e, more, mul_assoc (10 ^ k) n 10, mul_assoc 10 (10 ^ k) n)

  scaled :
      (n secs : ℕ) (t : Timer)
      → Searched p cost (n, secs, t)
      → scale_iterations n secs ≡ n * (1 + 10 / secs)
  unfolding scale_iterations
  scaled n secs t h =
      let r =
        long_enough secs (p * n) (cost n) a (sym h.secs) h.enough (steady.at_least n)
          (steady.at_most n) h.below little in
      let f = 1 + 10 / secs in
      let found : (secs == 0) ≡ false = ne→== secs 0 (λ z. omega (arith, z, h.enough)) in
      let factor : u32 f ≡ f = omega (arith, r.2) in
      rw (found, factor) (omega (arith, r.1, mul-le-mul_right f (least n)))

  scaled_long :
      (n secs : ℕ) (t : Timer)
      → Searched p cost (n, secs, t)
      → (10 ^ 9 ≤ cost (scale_iterations n secs)) × (cost (scale_iterations n secs) < 23 * 10 ^ 8)
  scaled_long n secs t h = rw (scaled n secs t h) (
      let r =
        long_enough secs (p * n) (cost n) a (sym h.secs) h.enough (steady.at_least n)
          (steady.at_most n) h.below little in
      let m = n * (1 + 10 / secs) in
      let whole = mul_assoc p n (1 + 10 / secs) in
      (omega (arith, r.0, whole, steady.at_least m), omega (arith, r.1, whole, steady.at_most m)))

  -- With no number of iterations given, the search of `main` ends after at most 9 looks at its condition, and
  -- the run whose time counts takes 10 to 22 seconds, as long as the benchmark asks for, which the 32 bits of
  -- the counter measure exactly. It is given that each iteration takes the same number `p` of cycles, at
  -- least one and less than 100000000, and that a call takes at most 9000000 cycles besides them.
  pub perform-Performed :
      (left : ℕ) (t : Timer)
      → 9 ≤ left
      → p < 10 ^ 8
      → Reaches (Performed cost) (perform left counter cost 0 t)
  unfolding perform set_iterations time_in_secs
  perform-Performed zero t l h = absurd (omega arith)
  perform-Performed (suc k) t l h =
      bind-Reaches (λ x. ok (x.0, get_time (timed counter cost x.0 x.1)))
        (bind-Reaches (λ x. ok (scale_iterations x.0 x.1, x.2))
          (search_iterations-Searched k 1 t (omega arith)
            (omega (arith, pow-le-pow_right {n = 10} (omega arith) {i = 8} {j = k} (omega arith))))
          (λ x q.
            ok-Reaches {P = λ y. (10 ^ 9 ≤ cost y.0) × (cost y.0 < 23 * 10 ^ 8)}
              (scaled_long x.0 x.1 x.2 q)))
        (λ y q. ok-Reaches (
          let e = timed-cost y.0 y.1 (omega (arith, q.1)) in
          record { exact = e; long = omega (arith, e, q.0); short = omega (arith, e, q.1) }))
