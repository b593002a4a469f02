-- ===== src/Rbb/Serve.antt =====
-- The loop of `jtag_thrd`, verilator/sim.cpp, over `rbb_server::respond` of verilator/rbb_server.cpp, for
-- any backend that keeps an invariant of its own.
use zr_soc.Common.{
  ℕ, ◌≡◌, refl, inl, inr, ◌==◌, Bool, true, false, List, [], ◌∷◌, ◌++◌, Run, ok, ◌>>=◌, Reaches,
  bind-Reaches, if-Reaches, ok-Reaches, Bool-cases, ◌∙◌, arith,
}
use zr_soc.Rbb.{
  Server, Backend, Session, finished, finish, close_client, close_socket, with_backend, drive,
  leave, sample, dispatch, send, obey, obey_read, Received, failed, end_of_stream, byte, Incoming,
  respond, serve,
}

-- What `rbb_server` relies on: the operations of the backend return and keep its invariant, and `quit`
-- finishes the server.
pub record Dependable {W : Type 0} (b : Backend W) (I : W → Type 0) : Type 0 where
  pub reset_keeps : (w : W) → I w → Reaches I (b.reset w)
  pub blink_keeps : (on : ℕ) (w : W) → I w → Reaches I (b.blink on w)
  pub set_inputs_keeps : (tck tms tdi : ℕ) (w : W) → I w → Reaches I (b.set_inputs tck tms tdi w)
  pub get_tdo_keeps : (w : W) → I w → Reaches (λ r. I r.0) (b.get_tdo w)
  pub quit_finishes :
      (w : W) (s : Server) → I w → Reaches (λ r. I r.0 × (r.1 ≡ finish s)) (b.quit w s)

-- Either both the socket and the client are there, or the server is finished.
unfoldable pub Whole : Server → Type 0
Whole s = (s.sockfd == 0) ≡ (s.clientfd == 0)

pub record Ready {W : Type 0} (I : W → Type 0) (s : Session W) : Type 0 where
  pub kept : I s.world
  pub whole : Whole s.server

pub finish-finished : (s : Server) → Whole s → (finished (finish s) ≡ true) × Whole (finish s)
unfolding finish finished close_client close_socket Whole
finish-finished s h = ground arith

send-descriptors :
    (wrote : Bool) (c : ℕ) (s : Server)
    → Whole s
    → Whole (send wrote c s) × (finished (send wrote c s) ≡ finished s)
unfolding send finished Whole
send-descriptors wrote c s h = ground arith

pub connected : (s : Server) → Whole s → finished s ≡ false → (s.clientfd == 0) ≡ false
unfolding finished Whole
connected s h f = ground arith

abbrev pub EndedSession : {W : Type 0} → (W → Type 0) → Session W → Type 0
EndedSession I s = Ready I s × (finished s.server ≡ true)

module _ {W : Type 0} (b : Backend W) (I : W → Type 0) (d : Dependable b I) where
  -- What holds after `quit`, after any other operation of the backend, after the sample of TDO and
  -- when nothing is done holds after every command.
  pub dispatch-Reaches {κ} :
      {P : Session W × ℕ → Type κ} (c : ℕ) (s : Session W)
      → ((c == b'Q') ≡ true → Reaches P (leave b s))
      → ((op : W → Run W)
          → ((w : W) → I w → Reaches I (op w))
          → Reaches P (with_backend op s >>= λ t. ok (t, 0)))
      → Reaches P (sample b s)
      → P (s, 0)
      → Reaches P (dispatch b c s)
  unfolding dispatch drive
  dispatch-Reaches {P} c s stop op tdo none =
      let pins =
        λ (tck tms tdi : ℕ). op (b.set_inputs tck tms tdi) (d.set_inputs_keeps tck tms tdi) in
      let digits = if-Reaches (c == b'0') (pins 0 0 0) (
        if-Reaches (c == b'1') (pins 0 0 1) (
          if-Reaches (c == b'2') (pins 0 1 0) (
            if-Reaches (c == b'3') (pins 0 1 1) (
              if-Reaches (c == b'4') (pins 1 0 0) (
                if-Reaches (c == b'5') (pins 1 0 1) (
                  if-Reaches (c == b'6') (pins 1 1 0) (
                    if-Reaches (c == b'7') (pins 1 1 1)
                      (if-Reaches (c == b'R') tdo (ok-Reaches none))))))))) in
      let rest = if-Reaches (c == b'r') (op b.reset d.reset_keeps) (
        if-Reaches (c == b'B') (op (b.blink 1) (d.blink_keeps 1))
          (if-Reaches (c == b'b') (op (b.blink 0) (d.blink_keeps 0)) digits)) in
      elim (Bool-cases (c == b'Q')) [ inl e ↦ rw e (stop e) | inr e ↦ rw e rest ]

  -- The value that `dispatch` returns.
  Replied : Session W × ℕ → Type 0
  Replied r = Ready I r.0

  Stopped : Session W × ℕ → Type 0
  Stopped r = Ready I r.0 × (finished r.0.server ≡ true)

  with_backend-Ready :
      (op : W → Run W) (s : Session W)
      → ((w : W) → I w → Reaches I (op w))
      → Ready I s
      → Reaches Replied (with_backend op s >>= λ t. ok (t, 0))
  unfolding with_backend Replied
  with_backend-Ready op s k h =
      bind-Reaches _
        (if-Reaches {P = Ready I} s.server.backend
          (bind-Reaches _ (k s.world h.kept)
            (λ w i. ok-Reaches (record { kept = i; whole = h.whole })))
          (ok-Reaches h))
        (λ t r. ok-Reaches r)

  leave-Stopped : (s : Session W) → Ready I s → Reaches Stopped (leave b s)
  unfolding leave Stopped
  leave-Stopped s h =
      let f = finish-finished s.server h.whole in
      if-Reaches {P = Stopped} s.server.backend
        (bind-Reaches _ (d.quit_finishes s.world s.server h.kept)
          (λ r q. ok-Reaches (rw q.1 (record { kept = q.0; whole = f.1 }, f.0))))
        (ok-Reaches (record { kept = h.kept; whole = f.1 }, f.0))

  sample-Ready : (s : Session W) → Ready I s → Reaches Replied (sample b s)
  unfolding sample Replied
  sample-Ready s h =
      if-Reaches {P = Replied} s.server.backend
        (bind-Reaches _ (d.get_tdo_keeps s.world h.kept)
          (λ r i. ok-Reaches (record { kept = i; whole = h.whole })))
        (ok-Reaches h)

  dispatch-Ready : (c : ℕ) (s : Session W) → Ready I s → Reaches Replied (dispatch b c s)
  unfolding Replied Stopped
  dispatch-Ready c s h =
      let stop = leave-Stopped s h in
      dispatch-Reaches {P = Replied} c s
        (λ _. record { out = stop.out; returns = stop.returns; holds = stop.holds.0 })
        (λ f k. with_backend-Ready f s k h) (sample-Ready s h) h

  sent-Ready :
      (wrote : Bool) (r : Session W × ℕ)
      → Replied r
      → Ready I (record { world = r.0.world; server = send wrote r.1 r.0.server })
  unfolding Replied
  sent-Ready wrote r h = record {
    kept = h.kept;
    whole = (send-descriptors wrote r.1 r.0.server h.whole).0;
  }

  pub obey-Ready :
      (wrote : Bool) (c : ℕ) (s : Session W) → Ready I s → Reaches (Ready I) (obey b wrote c s)
  unfolding obey
  obey-Ready wrote c s h =
      bind-Reaches _ (dispatch-Ready c s h) (λ r q. ok-Reaches (sent-Ready wrote r q))

  obey_read-Ready :
      (i : Incoming) (r : Received) (s : Session W)
      → Ready I s
      → Reaches (Ready I) (obey_read b i r s)
  unfolding obey_read
  obey_read-Ready i failed s h = ok-Reaches h
  obey_read-Ready i end_of_stream s h = obey-Ready i.wrote i.stale s h
  obey_read-Ready i (byte c) s h = obey-Ready i.wrote c s h

  -- Whatever the client sends and however reading and writing fail, `respond` returns, the backend's
  -- invariant holds, and either both the socket and the client are there or neither is.
  pub respond-Ready : (i : Incoming) (s : Session W) → Ready I s → Reaches (Ready I) (respond b i s)
  unfolding respond
  respond-Ready i s h =
      if-Reaches (s.server.clientfd == 0) (ok-Reaches h) (obey_read-Ready i i.received s h)

  pub serve-Ready :
      (is : List Incoming) (s : Session W) → Ready I s → Reaches (Ready I) (serve b is s)
  unfolding serve
  serve-Ready [] s h = ok-Reaches h
  serve-Ready (i ∷ is) s h =
      if-Reaches (finished s.server) (ok-Reaches h)
        (bind-Reaches (serve b is) (respond-Ready i s h) (serve-Ready is))

  quit-finished :
      (i : Incoming) (s : Session W)
      → i.received ≡ byte b'Q'
      → finished s.server ≡ false
      → Ready I s
      → Reaches (EndedSession I) (respond b i s)
  unfolding respond obey_read obey dispatch Stopped
  quit-finished i s q f h =
      rw (q, connected s.server h.whole f)
        (bind-Reaches _ (leave-Stopped s h) (λ r st.
          let k = send-descriptors i.wrote r.1 r.0.server st.0.whole in
          ok-Reaches (record { kept = st.0.kept; whole = k.0 }, k.1 ∙ st.1)))

  serve-finished :
      (is : List Incoming) (s : Session W) → finished s.server ≡ true → serve b is s ≡ ok s
  unfolding serve
  serve-finished [] s f = refl
  serve-finished (i ∷ is) s f = rw f refl

  -- The loop ends once the client sends `Q`, whatever it sends before and after and however reading and
  -- writing fail: there is then neither a socket nor a client.
  pub serve-quit :
      (is : List Incoming) (i : Incoming) (js : List Incoming) (s : Session W)
      → i.received ≡ byte b'Q'
      → Ready I s
      → Reaches (EndedSession I) (serve b (is ++ i ∷ js) s)
  unfolding serve
  serve-quit [] i js s q h = elim (Bool-cases (finished s.server)) [
    | inl f ↦ rw f (ok-Reaches (h, f))
    | inr f ↦ rw f (
        bind-Reaches (serve b js) (quit-finished i s q f h)
          (λ t e. rw (serve-finished js t e.1) (ok-Reaches e)))
  ]
  serve-quit (j ∷ is) i js s q h = elim (Bool-cases (finished s.server)) [
    | inl f ↦ rw f (ok-Reaches (h, f))
    | inr f ↦ rw f (
        bind-Reaches (serve b (is ++ i ∷ js)) (respond-Ready j s h)
          (λ t e. serve-quit is i js t q e))
  ]
