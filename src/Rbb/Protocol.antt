-- ===== src/Rbb/Protocol.antt =====
-- The remote bitbang protocol, with the commands that the documentation of OpenOCD has for JTAG, as the
-- `rbb_server` of verilator/rbb_server.cpp serves it: of the four resets the server knows one. What the
-- server asks of its backend is observed with one that writes down every request and answers for TDO as it
-- likes.
pub mod Commands
pub mod Loop
use mathlib.Core.Path.{subst}
use zr_soc.Common.{
  ℕ, zero, suc, ◌≢◌, Option-cases, ◌+◌, ◌-◌, ◌/◌, ◌%◌, ◌<◌, ◌≡◌, refl, ltb, leb, ◌==◌,
  if◌then◌else◌, Bool, true, false, not, ◌&&◌, List, [], ◌∷◌, Option, none, some, sym, Run, ok,
  ◌>>=◌, Reaches, ok-Reaches, Bool-cases, inl, inr, ==→eq, tests, arith,
}
use zr_soc.Rbb.{
  Backend, Server, Session, Received, failed, end_of_stream, byte, Incoming, dispatch, drive, leave,
  sample, with_backend, finish, finished, close_client, close_socket, send, obey, obey_read,
  respond, serve,
}
use zr_soc.Rbb.Serve.{Whole}

pub data Request : Type 0 where
  put : (tck tms tdi : ℕ) → Request
  ask quit : Request
  reset : (trst srst : ℕ) → Request
  light : ℕ → Request

-- The command that a byte stands for: a digit below 8 is a number whose bits are TCK, TMS and TDI, from
-- the highest to the lowest, and the letters from `r` to `u` set the two resets.
pub decode : ℕ → Option Request
decode c =
    if leb b'0' c && ltb c b'8'
    then (let n = c - b'0' in some (put (n / 4 % 2) (n / 2 % 2) (n % 2)))
    else if c == b'R'
    then some ask
    else if c == b'Q'
    then some quit
    else if c == b'r'
    then some (reset 0 0)
    else if c == b's'
    then some (reset 0 1)
    else if c == b't'
    then some (reset 1 0)
    else if c == b'u'
    then some (reset 1 1)
    else if c == b'B'
    then some (light 1)
    else if c == b'b'
    then some (light 0)
    else none

-- What is seen of a session: whether it is open, the requests and the replies, the last one first.
pub record Wire : Type 0 where
  pub open_ : Bool
  pub requests : List Request
  pub replies : List ℕ

pub recorder : (answer : List Request → ℕ) → Backend (List Request)
recorder answer = record {
  set_server = λ w. (w, 0);
  reset = λ w. ok (reset 0 0 ∷ w);
  quit = λ w s. ok (quit ∷ w, finish s);
  blink = λ on w. ok (light on ∷ w);
  set_inputs = λ tck tms tdi w. ok (put tck tms tdi ∷ w);
  get_tdo = λ w. ok (ask ∷ w, answer w);
}

pub view : Session (List Request) → Wire
view s = record { open_ = not (finished s.server); requests = s.world; replies = s.server.sent }

-- The protocol as the server has it: a request is passed on, `ask` is replied to, and `quit` ends the
-- session. A reset with TRST or SRST is dropped.
pub follow : (answer : List Request → ℕ) → (wrote : Bool) → Option Request → Wire → Wire
follow answer wrote none w = w
follow answer wrote (some quit) w = record w { open_ = false; requests = quit ∷ w.requests }
follow answer wrote (some ask) w =
    let reply = if answer w.requests == 0 then b'0' else b'1' in
    record w {
      requests = ask ∷ w.requests;
      replies = if wrote then reply ∷ w.replies else w.replies;
    }
follow answer wrote (some (reset trst srst)) w =
    if trst == 0 && srst == 0 then record w { requests = reset 0 0 ∷ w.requests } else w
follow answer wrote (some (put tck tms tdi)) w = record w {
  requests = put tck tms tdi ∷ w.requests;
}
follow answer wrote (some (light on)) w = record w { requests = light on ∷ w.requests }

-- A registered session.
abbrev pub registered : List Request → Server → Session (List Request)
registered w s = record { world = w; server = record s { backend = true } }

pub record Follows (answer : List Request → ℕ) (wrote : Bool) (r : Option Request)
    (s t : Session (List Request)) : Type 0 where
  pub seen : view t ≡ follow answer wrote r (view s)
  pub whole : Whole t.server
  pub backend : t.server.backend ≡ true
