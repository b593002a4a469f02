-- ===== src/Rbb/Protocol/Commands.antt =====
-- Each command of `rbb_server::respond`, verilator/rbb_server.cpp, against the protocol.
use mathlib.Core.Path.{subst}
use zr_soc.Common.{
  ℕ, zero, suc, ◌≢◌, Option-cases, ◌+◌, ◌-◌, ◌<◌, ◌≡◌, refl, ltb, leb, ◌==◌, Bool, true, false,
  ◌&&◌, List, ◌∷◌, Option, none, sym, ok, Reaches, ok-Reaches, Bool-cases, inl, inr, ==→eq, arith,
}
use zr_soc.Rbb.{
  Server, dispatch, drive, leave, sample, with_backend, finish, finished, close_client,
  close_socket, send, obey,
}
use zr_soc.Rbb.Serve.{Whole}
use zr_soc.Rbb.Protocol.{Request, decode, recorder, view, follow, registered, Follows}

between : (c : ℕ) → (leb b'0' c && ltb c b'8') ≡ true → b'0' + (c - b'0') ≡ c
between c e = ground arith

below : (c : ℕ) → (leb b'0' c && ltb c b'8') ≡ true → c - b'0' < 8
below c e = ground arith

module _ (answer : List Request → ℕ) (wrote : Bool) (w : List Request) (s : Server)
    (h : Whole s) where
  unfoldable pub Obeys : ℕ → Type 0
  Obeys c =
      Reaches (Follows answer wrote (decode c) (registered w s))
        (obey (recorder answer) wrote c (registered w s))

  passes :
      {r : Option Request} {q : Request}
      → follow answer wrote r (view (registered w s))
        ≡ record (view (registered w s)) { requests = q ∷ w }
      → Follows answer wrote r (registered w s) (registered (q ∷ w) s)
  unfolding view finished Whole
  passes e = record { seen = sym e; whole = h; backend = refl }

  obey-Q : Obeys b'Q'
  unfolding Obeys obey dispatch leave recorder send follow view decode Whole finish finished
      close_client close_socket
  obey-Q = ok-Reaches (ground arith)

  obey-R : Obeys b'R'
  unfolding Obeys obey dispatch sample recorder send follow view decode Whole finished
  obey-R = ok-Reaches (record { seen = ground arith; whole = ground arith; backend = ground arith })

  obey-r : Obeys b'r'
  unfolding Obeys obey dispatch with_backend recorder send follow view decode
  obey-r = ok-Reaches (passes refl)

  obey-B : Obeys b'B'
  unfolding Obeys obey dispatch with_backend recorder send follow view decode
  obey-B = ok-Reaches (passes refl)

  obey-b : Obeys b'b'
  unfolding Obeys obey dispatch with_backend recorder send follow view decode
  obey-b = ok-Reaches (passes refl)

  obey-0 : Obeys b'0'
  unfolding Obeys obey dispatch drive with_backend recorder send follow view decode
  obey-0 = ok-Reaches (passes refl)

  obey-1 : Obeys b'1'
  unfolding Obeys obey dispatch drive with_backend recorder send follow view decode
  obey-1 = ok-Reaches (passes refl)

  obey-2 : Obeys b'2'
  unfolding Obeys obey dispatch drive with_backend recorder send follow view decode
  obey-2 = ok-Reaches (passes refl)

  obey-3 : Obeys b'3'
  unfolding Obeys obey dispatch drive with_backend recorder send follow view decode
  obey-3 = ok-Reaches (passes refl)

  obey-4 : Obeys b'4'
  unfolding Obeys obey dispatch drive with_backend recorder send follow view decode
  obey-4 = ok-Reaches (passes refl)

  obey-5 : Obeys b'5'
  unfolding Obeys obey dispatch drive with_backend recorder send follow view decode
  obey-5 = ok-Reaches (passes refl)

  obey-6 : Obeys b'6'
  unfolding Obeys obey dispatch drive with_backend recorder send follow view decode
  obey-6 = ok-Reaches (passes refl)

  obey-7 : Obeys b'7'
  unfolding Obeys obey dispatch drive with_backend recorder send follow view decode
  obey-7 = ok-Reaches (passes refl)

  obey-s : Obeys b's'
  unfolding Obeys obey dispatch send follow view decode Whole
  obey-s = ok-Reaches (record { seen = refl; whole = h; backend = refl })

  obey-t : Obeys b't'
  unfolding Obeys obey dispatch send follow view decode Whole
  obey-t = ok-Reaches (record { seen = refl; whole = h; backend = refl })

  obey-u : Obeys b'u'
  unfolding Obeys obey dispatch send follow view decode Whole
  obey-u = ok-Reaches (record { seen = refl; whole = h; backend = refl })

  obey-other :
      (c : ℕ)
      → decode c ≡ none
      → dispatch (recorder answer) c (registered w s) ≡ ok (registered w s, 0)
      → Obeys c
  unfolding Obeys obey send follow view Whole
  obey-other c e k = rw (e, k) (ok-Reaches (record { seen = refl; whole = h; backend = refl }))

  dispatch-other :
      (c : ℕ)
      → decode c ≡ none
      → dispatch (recorder answer) c (registered w s) ≡ ok (registered w s, 0)
  unfolding dispatch decode
  dispatch-other c e = ground arith

  at : (c k : ℕ) → (c == k) ≡ true → Obeys k → Obeys c
  at c k e o = subst Obeys (sym (==→eq c k e)) o

  obey-letter : (c : ℕ) → decode c ≢ none → (leb b'0' c && ltb c b'8') ≡ false → Obeys c
  unfolding decode
  obey-letter c d l = elim (Bool-cases (c == b'R')) [
    | inl e ↦ at c b'R' e obey-R
    | inr n ↦ elim (Bool-cases (c == b'Q')) [
      | inl e ↦ at c b'Q' e obey-Q
      | inr m ↦ elim (Bool-cases (c == b'r')) [
        | inl e ↦ at c b'r' e obey-r
        | inr o ↦ elim (Bool-cases (c == b'B')) [
          | inl e ↦ at c b'B' e obey-B
          | inr p ↦ elim (Bool-cases (c == b'b')) [
            | inl e ↦ at c b'b' e obey-b
            | inr q ↦ elim (Bool-cases (c == b's')) [
              | inl e ↦ at c b's' e obey-s
              | inr x ↦ elim (Bool-cases (c == b't')) [
                | inl e ↦ at c b't' e obey-t
                | inr y ↦ elim (Bool-cases (c == b'u')) [
                  | inl e ↦ at c b'u' e obey-u
                  | inr z ↦ absurd (d (rw (l, n, m, o, x, y, z, p, q) refl))
                ]
              ]
            ]
          ]
        ]
      ]
    ]
  ]

  obey-digit : (n : ℕ) → n < 8 → Obeys (b'0' + n)
  obey-digit zero l = obey-0
  obey-digit (suc zero) l = obey-1
  obey-digit (suc (suc zero)) l = obey-2
  obey-digit (suc (suc (suc zero))) l = obey-3
  obey-digit (suc (suc (suc (suc zero)))) l = obey-4
  obey-digit (suc (suc (suc (suc (suc zero))))) l = obey-5
  obey-digit (suc (suc (suc (suc (suc (suc zero)))))) l = obey-6
  obey-digit (suc (suc (suc (suc (suc (suc (suc zero))))))) l = obey-7
  obey-digit (suc (suc (suc (suc (suc (suc (suc (suc n)))))))) l = absurd (omega arith)

  -- One command, whatever byte it is.
  pub obey-Follows : (c : ℕ) → Obeys c
  obey-Follows c = elim (Bool-cases (leb b'0' c && ltb c b'8')) [
    | inl e ↦ subst Obeys (between c e) (obey-digit (c - b'0') (below c e))
    | inr e ↦ elim (Option-cases (decode c)) [
      | inl n ↦ obey-other c n (dispatch-other c n)
      | inr (r, k) ↦ obey-letter c (λ z. absurd cc) e
    ]
  ]
