-- ===== src/Rbb/Open.antt =====
-- Clients that never send `Q`, against `rbb_server::respond` of verilator/rbb_server.cpp.
use zr_soc.Common.{
  ℕ, ◌≡◌, refl, ◌≢◌, ◌==◌, Bool, false, List, [], ◌∷◌, All, ◌∙◌, ap, Run, ok, ◌>>=◌, Reaches,
  bind-Reaches, if-Reaches, ok-Reaches, ==→eq, arith,
}
use zr_soc.Rbb.{
  Server, Backend, Session, finished, with_backend, sample, dispatch, send, obey, obey_read,
  Received, failed, end_of_stream, byte, Incoming, respond, serve,
}
use zr_soc.Rbb.Serve.{Dependable, dispatch-Reaches}

-- The command that a round obeys is not `Q`: the byte read or, when the client has closed the connection,
-- the one that is still in the variable.
unfoldable pub Harmless : ℕ → Received → Type 0
Harmless stale failed = Unit
Harmless stale end_of_stream = stale ≢ b'Q'
Harmless stale (byte c) = c ≢ b'Q'

send-finished : (wrote : Bool) (c : ℕ) (s : Server) → finished (send wrote c s) ≡ finished s
unfolding send finished
send-finished wrote c s = ground arith

-- The session goes on.
abbrev pub Running : {W : Type 0} → (W → Type 0) → Session W → Type 0
Running I s = I s.world × (finished s.server ≡ false)

module _ {W : Type 0} (b : Backend W) (I : W → Type 0) (d : Dependable b I) where
  Same : Server → Session W × ℕ → Type 0
  Same s r = I r.0.world × (r.0.server ≡ s)

  with_backend-Same :
      (op : W → Run W) (s : Session W)
      → ((w : W) → I w → Reaches I (op w))
      → I s.world
      → Reaches (Same s.server) (with_backend op s >>= λ t. ok (t, 0))
  unfolding with_backend Same
  with_backend-Same op s k h =
      bind-Reaches _
        (if-Reaches {P = λ t. I t.world × (t.server ≡ s.server)} s.server.backend
          (bind-Reaches _ (k s.world h) (λ w i. ok-Reaches (i, refl))) (ok-Reaches (h, refl)))
        (λ t r. ok-Reaches r)

  sample-Same : (s : Session W) → I s.world → Reaches (Same s.server) (sample b s)
  unfolding sample Same
  sample-Same s h =
      if-Reaches {P = Same s.server} s.server.backend
        (bind-Reaches _ (d.get_tdo_keeps s.world h) (λ r i. ok-Reaches (i, refl)))
        (ok-Reaches (h, refl))

  -- Only `Q` touches the descriptors.
  dispatch-Same :
      (c : ℕ) (s : Session W) → c ≢ b'Q' → I s.world → Reaches (Same s.server) (dispatch b c s)
  unfolding Same
  dispatch-Same c s q h =
      dispatch-Reaches b I d {P = Same s.server} c s (λ e. absurd (q (==→eq c b'Q' e)))
        (λ f k. with_backend-Same f s k h) (sample-Same s h) (h, refl)

  obey-Running :
      (wrote : Bool) (c : ℕ) (s : Session W)
      → c ≢ b'Q'
      → Running I s
      → Reaches (Running I) (obey b wrote c s)
  unfolding obey Same
  obey-Running wrote c s q h =
      bind-Reaches _ (dispatch-Same c s q h.0)
        (λ r k. ok-Reaches (k.0, send-finished wrote r.1 r.0.server ∙ ap finished k.1 ∙ h.1))

  obey_read-Running :
      (i : Incoming) (r : Received) (s : Session W)
      → Harmless i.stale r
      → Running I s
      → Reaches (Running I) (obey_read b i r s)
  unfolding obey_read Harmless
  obey_read-Running i failed s q h = ok-Reaches h
  obey_read-Running i end_of_stream s q h = obey-Running i.wrote i.stale s q h
  obey_read-Running i (byte c) s q h = obey-Running i.wrote c s q h

  -- The loop does not end while no round obeys `Q`, however many rounds there are: neither a client that
  -- has closed the connection nor an error of `read` ends it.
  pub serve-Running :
      (is : List Incoming) (s : Session W)
      → All (λ i. Harmless i.stale i.received) is
      → Running I s
      → Reaches (Running I) (serve b is s)
  unfolding serve respond
  serve-Running [] s q h = ok-Reaches h
  serve-Running (i ∷ is) s q h = if-Reaches (finished s.server) (ok-Reaches h) (
      bind-Reaches (serve b is)
        (if-Reaches (s.server.clientfd == 0) (ok-Reaches h)
          (obey_read-Running i i.received s q.0 h))
        (λ t e. serve-Running is t q.1 e))
