-- ===== src/Main/Verdict.antt =====
-- When `main` of sw/coremark/core_main.c reports a correct run.
use zr_soc.Common.{
  ℕ, suc, ◌+◌, ◌≤◌, ◌≡◌, ◌≢◌, ◌↔◌, inl, inr, refl, sym, ◌∙◌, ◌==◌, ==→eq, ==→ne, if◌then◌else◌,
  Bool, true, false, Bool-cases, Option, some, none, get_or, u16, arith,
}
use zr_soc.LinkedList.Store.{Results}
use zr_soc.Main.{
  executes, crc_error, judge, list_known_crc, matrix_known_crc, state_known_crc, judged_errors,
  known_run, seed_crc, Sizes, size_error, check_data_types, total_errors,
}

-- An algorithm that was executed has the checksum that is known for it.
abbrev pub IsRight : (execs i crc known : ℕ) → Type 0
IsRight execs i crc known = executes execs i ≡ true → crc ≡ known

-- All three algorithms, against the tables at one index.
abbrev pub AllRight : Results → ℕ → Type 0
AllRight r id =
    IsRight r.execs 0 r.crclist (get_or list_known_crc id 0)
    × IsRight r.execs 1 r.crcmatrix (get_or matrix_known_crc id 0)
    × IsRight r.execs 2 r.crcstate (get_or state_known_crc id 0)

crc_error_iff :
    (execs i crc known : ℕ) → (crc_error execs i crc known ≡ 0) ↔ IsRight execs i crc known
unfolding crc_error
crc_error_iff execs i crc known = elim (Bool-cases (executes execs i)) [
  | inl on ↦ elim (Bool-cases (crc == known)) [
    | inl e ↦ (λ _ _. ==→eq crc known e, λ _. rw (on, e) refl)
    | inr ne ↦ (λ z _. absurd (one_ne (rw (on, ne) at z)), λ h. absurd (==→ne crc known ne (h on)))
  ]
  | inr off ↦ (λ _ h. absurd (different (sym off ∙ h)), λ _. rw off refl)
]
  where
    one_ne : suc 0 ≢ 0
    one_ne e = omega (arith, e)

    different : false ≢ true
    different e = cc

crc_error-le : (execs i crc known : ℕ) → crc_error execs i crc known ≤ 1
unfolding crc_error
crc_error-le execs i crc known = ground arith

judge-le : (r : Results) (id : ℕ) → judge r id ≤ 3
unfolding judge
judge-le r id = omega (
  arith,
  crc_error-le r.execs 0 r.crclist (get_or list_known_crc id 0),
  crc_error-le r.execs 1 r.crcmatrix (get_or matrix_known_crc id 0),
  crc_error-le r.execs 2 r.crcstate (get_or state_known_crc id 0),
)

judge_iff : (r : Results) (id : ℕ) → (judge r id ≡ 0) ↔ AllRight r id
unfolding judge
judge_iff r id =
    let a = crc_error_iff r.execs 0 r.crclist (get_or list_known_crc id 0) in
    let b = crc_error_iff r.execs 1 r.crcmatrix (get_or matrix_known_crc id 0) in
    let c = crc_error_iff r.execs 2 r.crcstate (get_or state_known_crc id 0) in
    (
      λ z. (a.0 (omega (arith, z)), b.0 (omega (arith, z)), c.0 (omega (arith, z))),
      λ h. omega (arith, a.1 h.0, b.1 h.1, c.1 h.2),
    )

size_error-le : (a b : ℕ) → size_error a b ≤ 1
unfolding size_error
size_error-le a b = ground arith

check_data_types-le : (s : Sizes) → check_data_types s ≤ 6
unfolding check_data_types
check_data_types-le s = omega (
  arith,
  size_error-le s.ee_u8 1,
  size_error-le s.ee_u16 2,
  size_error-le s.ee_s16 2,
  size_error-le s.ee_s32 4,
  size_error-le s.ee_u32 4,
  size_error-le s.ee_ptr_int s.int_pointer,
)

-- The errors that do not come from the checksums.
abbrev pub others : Sizes → Bool → ℕ
others s too_short = check_data_types s + (if too_short then 1 else 0)

-- Known seeds, no wrong checksum and no other error, or unknown seeds and exactly one other error.
abbrev pub Reported : Results → Sizes → Bool → Option ℕ → Type 0
Reported r s too_short none = others s too_short ≡ 1
Reported r s too_short (some id) = AllRight r id × (others s too_short ≡ 0)

small : (e t b : ℕ) → e ≤ 3 → t ≤ 6 → b ≤ 1 → u16 (e + t + b) ≡ e + t + b
small e t b p q r = omega arith

wraps : (t b : ℕ) → t ≤ 6 → b ≤ 1 → (u16 (0xffff + t + b) ≡ 0) ↔ (t + b ≡ 1)
wraps t b p q = (λ z. omega (arith, z), λ z. omega (arith, z))

at_most_one : (s : Bool) → (if s then suc 0 else 0) ≤ 1
at_most_one true = omega arith
at_most_one false = omega arith

reported :
    (r : Results) (s : Sizes) (short : Bool) (known : Option ℕ)
    → (u16 (judged_errors r known + check_data_types s + (if short then 1 else 0)) ≡ 0)
      ↔ Reported r s short known
unfolding judged_errors
reported r s short none = wraps (check_data_types s) _ (check_data_types-le s) (at_most_one short)
reported r s short (some id) =
    let b : ℕ = if short then 1 else 0 in
    let e =
      small (judge r id) (check_data_types s) b (judge-le r id) (check_data_types-le s)
        (at_most_one short) in
    (
      λ z. ((judge_iff r id).0 (omega (arith, sym e ∙ z)), omega (arith, sym e ∙ z)),
      λ h. e ∙ omega (arith, (judge_iff r id).1 h.0, h.1),
    )

-- `total_errors` is zero, and `main` reports a correct run, exactly if the seeds are known, every executed
-- algorithm has its known checksum, the types have their sizes and the run was long enough; or if the
-- seeds are not known and there is exactly one error among the sizes and the length of the run.
pub total_errors_iff :
    (r : Results) (s : Sizes) (too_short : Bool)
    → (total_errors r s too_short ≡ 0) ↔ Reported r s too_short (known_run (seed_crc r))
unfolding total_errors
total_errors_iff r s too_short = reported r s too_short (known_run (seed_crc r))
