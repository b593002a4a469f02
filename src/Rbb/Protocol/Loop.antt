-- ===== src/Rbb/Protocol/Loop.antt =====
-- The loop of `jtag_thrd`, verilator/sim.cpp, over a whole session of the remote bitbang protocol.
use mathlib.Core.Path.{subst}
use zr_soc.Common.{
  ◌≡◌, refl, sym, ap, ◌∙◌, ◌==◌, if◌then◌else◌, Bool, true, false, Option, none, List, [], ◌∷◌, ℕ,
  ok, ◌>>=◌, Reaches, bind-Reaches, ok-Reaches, Bool-cases, inl, inr,
}
use zr_soc.Rbb.{
  Server, Session, finished, Received, failed, end_of_stream, byte, Incoming, obey_read, respond,
  serve,
}
use zr_soc.Rbb.Serve.{Whole, connected}
use zr_soc.Rbb.Protocol.{Request, decode, Wire, recorder, view, follow, registered, Follows}
use zr_soc.Rbb.Protocol.Commands.{Obeys, obey-Follows}

-- The request of a round: that of the byte read, or of the byte left in the variable when the client has
-- closed the connection; none when `read` has failed.
pub heard : Received → (stale : ℕ) → Option Request
heard failed stale = none
heard end_of_stream stale = decode stale
heard (byte c) stale = decode c

-- The protocol over the rounds of a session, until it is closed.
pub plays : (answer : List Request → ℕ) → List Incoming → Wire → Wire
plays answer [] w = w
plays answer (i ∷ is) w =
    let rest = plays answer is (follow answer i.wrote (heard i.received i.stale) w) in
    if w.open_ then rest else w

module _ (answer : List Request → ℕ) where
  obey_read-Follows :
      (i : Incoming) (r : Received) (w : List Request) (s : Server)
      → Whole s
      → Reaches
          (Follows answer i.wrote (heard r i.stale) (registered w s))
          (obey_read (recorder answer) i r (registered w s))
  unfolding obey_read heard follow Obeys Whole
  obey_read-Follows i failed w s h = ok-Reaches (record { seen = refl; whole = h; backend = refl })
  obey_read-Follows i end_of_stream w s h = obey-Follows answer i.wrote w s h i.stale
  obey_read-Follows i (byte c) w s h = obey-Follows answer i.wrote w s h c

  registered_eta :
      (s : Session (List Request)) → s.server.backend ≡ true → registered s.world s.server ≡ s
  registered_eta s b =
      ap (λ (x : Bool). record s { server = record s.server { backend = x } }) (sym b)

  respond-Follows :
      (i : Incoming) (s : Session (List Request))
      → Whole s.server
      → s.server.backend ≡ true
      → finished s.server ≡ false
      → Reaches
          (Follows answer i.wrote (heard i.received i.stale) s)
          (respond (recorder answer) i s)
  unfolding respond
  respond-Follows i s h b f =
      subst
        (λ t.
          Reaches (Follows answer i.wrote (heard i.received i.stale) t)
            (if s.server.clientfd == 0 then ok t else obey_read (recorder answer) i i.received t))
        (registered_eta s b)
        (rw (connected s.server h f) (obey_read-Follows i i.received s.world s.server h))

  serve-end :
      (is : List Incoming) (s : Session (List Request))
      → finished s.server ≡ true
      → (serve (recorder answer) is s ≡ ok s) × (plays answer is (view s) ≡ view s)
  unfolding serve plays view
  serve-end [] s f = (refl, refl)
  serve-end (i ∷ is) s f = (rw f refl, rw f refl)

  serve-next :
      (i : Incoming) (is : List Incoming) (s : Session (List Request))
      → finished s.server ≡ false
      → (serve (recorder answer) (i ∷ is) s
          ≡ (respond (recorder answer) i s >>= serve (recorder answer) is))
        × (plays answer (i ∷ is) (view s)
            ≡ plays answer is (follow answer i.wrote (heard i.received i.stale) (view s)))
  unfolding serve plays view
  serve-next i is s f = (rw f refl, rw f refl)

  -- A server with a backend does what the protocol says over any session, whatever is read and written, but
  -- for the resets with TRST or SRST, which it drops: it passes on the same other requests in the same order,
  -- sends the same replies, and is open just as long.
  -- A `read` that fails is no request, and one that returns 0 repeats the byte that stands in the
  -- variable. It is given that at the start both the socket and the client are there or neither is.
  pub serve-plays :
      (is : List Incoming) (s : Session (List Request))
      → Whole s.server
      → s.server.backend ≡ true
      → Reaches (λ t. view t ≡ plays answer is (view s)) (serve (recorder answer) is s)
  unfolding serve plays
  serve-plays [] s h b = ok-Reaches refl
  serve-plays (i ∷ is) s h b = elim (Bool-cases (finished s.server)) [
    | inl f ↦ let e = serve-end (i ∷ is) s f in rw e.0 (ok-Reaches (sym e.1))
    | inr f ↦
        let e = serve-next i is s f in
        rw e.0 (
          bind-Reaches (serve (recorder answer) is) (respond-Follows i s h b f) (λ t k.
            let rest = serve-plays is t k.whole k.backend in
            record {
              out = rest.out;
              returns = rest.returns;
              holds = rest.holds ∙ ap (plays answer is) k.seen ∙ sym e.1;
            }))
  ]
