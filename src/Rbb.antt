-- ===== src/Rbb.antt =====
-- The remote bitbang server, verilator/rbb_server.cpp and verilator/rbb_server.h. What a system call
-- returns is an argument of the operation that makes the call; a failed call is `none` or `false`.
-- Beside the members of the class the state holds what the kernel was told: the bytes written to the
-- client, the descriptors closed, the last one first, and the descriptors of `epoll_create1`, which the
-- server never closes.
pub mod Protocol
pub mod Accept
pub mod Lifecycle
pub mod Serve
pub mod Wakeup
pub mod Open
mod Examples
use zr_soc.Common.{
  ℕ, ◌==◌, if◌then◌else◌, Bool, true, false, not, ◌&&◌, Option, none, some, List, [], ◌∷◌, take,
  Run, ok, ◌>>=◌,
}

-- The members `sockfd`, `clientfd`, `pipefd`, and whether `backend` is not NULL.
pub record Server : Type 0 where
  pub sockfd : ℕ
  pub clientfd : ℕ
  pub pipefd : ℕ
  pub backend : Bool
  pub sent : List ℕ
  pub closed : List ℕ
  pub epollfds : List ℕ

-- `rbb_backend`, over a state of its own. `quit` reaches the server through the pointer that
-- `setServer` gave it.
pub record Backend (W : Type 0) : Type 0 where
  pub set_server : W → W × ℕ
  pub reset : W → Run W
  pub quit : W → Server → Run (W × Server)
  pub blink : ℕ → W → Run W
  pub set_inputs : (tck tms tdi : ℕ) → W → Run W
  pub get_tdo : W → Run (W × ℕ)

-- A server and the state of its backend.
pub record Session (W : Type 0) : Type 0 where
  pub world : W
  pub server : Server

-- A call has returned, or has ended the process by `abort()`.
pub data Ended {ℓ} (S : Type ℓ) : Type ℓ where
  returned : S → Ended S
  aborted : S → Ended S

-- The calls after one that has returned.
infixl 5 ◌▷◌
abbrev pub ◌▷◌ {ℓ} : {S : Type ℓ} → Ended S → (S → Ended S) → Ended S
returned s ▷ f = f s
aborted s ▷ f = aborted s

abbrev pub fresh_server : ℕ → Bool → Server
fresh_server pipefd backend = record {
  sockfd = 0;
  clientfd = 0;
  pipefd = pipefd;
  backend = backend;
  sent = [];
  closed = [];
  epollfds = [];
}

-- The constructor; `none` is a NULL backend.
unfoldable pub construct : {W : Type 0} → Backend W → (given : Option W) → ℕ → Option W × Server
construct b none pipefd = (none, fresh_server pipefd false)
construct b (some w) pipefd = let r = b.set_server w in (some r.0, fresh_server pipefd (r.1 == 0))

unfoldable pub finished : Server → Bool
finished s = s.sockfd == 0 && s.clientfd == 0

abbrev pub close : ℕ → Server → Server
close fd s = record s { closed = fd ∷ s.closed }

unfoldable pub close_client : Server → Server
close_client s = if s.clientfd == 0 then s else record (close s.clientfd s) { clientfd = 0 }

-- `close(sockfd); sockfd = 0;`
unfoldable pub close_socket : Server → Server
close_socket s = record (close s.sockfd s) { sockfd = 0 }

unfoldable pub finish : Server → Server
finish s = if s.sockfd == 0 then s else close_socket (close_client s)

-- What `socket`, `setsockopt`, `bind` and `listen` return.
pub record Opening : Type 0 where
  pub socket : Option ℕ
  pub reusable : Bool
  pub bound : (port : ℕ) → Bool
  pub listening : Bool

unfoldable pub open_socket : Option ℕ → Server → Ended Server
open_socket none s = aborted (record s { sockfd = 0 })
open_socket (some fd) s = returned (record s { sockfd = fd })

-- A call that has failed closes the socket.
unfoldable pub prepare : (success : Bool) → Server → Ended Server
prepare true s = returned s
prepare false s = aborted (close_socket s)

unfoldable pub listen : Opening → (port : ℕ) → Server → Ended Server
listen o port s =
    open_socket o.socket s ▷ prepare o.reusable ▷ prepare (o.bound port) ▷ prepare o.listening

-- An entry of `events`: its descriptor, and what `::accept` returns when the entry is handled.
pub record Event : Type 0 where
  pub fd : ℕ
  pub accepted : Option ℕ

-- What `epoll_create1`, the two `epoll_ctl` and `epoll_wait` return. `events` has two entries, and
-- `epoll_wait` is told so: what more is ready is left for another call.
pub record Polling : Type 0 where
  pub created : Option ℕ
  pub socket_added : Bool
  pub pipe_added : Bool
  pub events : Option (List Event)

unfoldable pub handle_event : (of_socket : Bool) → (accepted : Option ℕ) → Server → Ended Server
handle_event true none s = aborted (record (close_socket s) { clientfd = 0 })
handle_event true (some fd) s = returned (record s { clientfd = fd })
handle_event false a s = returned (finish s)

-- `for (int n = 0; n < nfds; ++n)`
unfoldable pub handle_events : List Event → Server → Ended Server
handle_events [] s = returned s
handle_events (e ∷ es) s = handle_event (e.fd == s.sockfd) e.accepted s ▷ handle_events es

-- From the first `epoll_ctl` on.
unfoldable pub await_events : Polling → Server → Ended Server
await_events p s =
    if not p.socket_added
    then aborted s
    else if not p.pipe_added
    then aborted s
    else elim p.events [ none ↦ aborted s | some es ↦ handle_events (take 2 es) s ]

unfoldable pub accept : Polling → Server → Ended Server
accept p s =
    if s.clientfd == 0 && not (s.sockfd == 0)
    then elim p.created [
      | none ↦ aborted s
      | some epollfd ↦ await_events p (record s { epollfds = epollfd ∷ s.epollfds })
    ]
    else returned s

-- What `read` does: it fails, the client has closed the connection and it returns 0, or it gives a byte.
pub data Received : Type 0 where
  failed : Received
  end_of_stream : Received
  byte : ℕ → Received

-- `if (backend) op();`
unfoldable pub with_backend : {W : Type 0} → (W → Run W) → Session W → Run (Session W)
with_backend op s =
    if s.server.backend then (op s.world >>= λ w. ok (record s { world = w })) else ok s

unfoldable pub drive :
    {W : Type 0} → Backend W → (tck tms tdi : ℕ) → Session W → Run (Session W × ℕ)
drive b tck tms tdi s = with_backend (b.set_inputs tck tms tdi) s >>= λ t. ok (t, 0)

unfoldable pub leave : {W : Type 0} → Backend W → Session W → Run (Session W × ℕ)
leave b s =
    if s.server.backend
    then (b.quit s.world s.server >>= λ r. ok (record { world = r.0; server = r.1 }, 0))
    else ok (record s { server = finish s.server }, 0)

unfoldable pub sample : {W : Type 0} → Backend W → Session W → Run (Session W × ℕ)
sample b s =
    if s.server.backend
    then (b.get_tdo s.world >>= λ r.
        ok (record s { world = r.0 }, (if r.1 == 0 then b'0' else b'1')))
    else ok (s, b'1')

-- The `switch` on the command, with the value of `respond` after it.
unfoldable pub dispatch : {W : Type 0} → Backend W → (c : ℕ) → Session W → Run (Session W × ℕ)
dispatch b c s =
    if c == b'Q'
    then leave b s
    else if c == b'r'
    then (with_backend b.reset s >>= λ t. ok (t, 0))
    else if c == b'B'
    then (with_backend (b.blink 1) s >>= λ t. ok (t, 0))
    else if c == b'b'
    then (with_backend (b.blink 0) s >>= λ t. ok (t, 0))
    else if c == b'0'
    then drive b 0 0 0 s
    else if c == b'1'
    then drive b 0 0 1 s
    else if c == b'2'
    then drive b 0 1 0 s
    else if c == b'3'
    then drive b 0 1 1 s
    else if c == b'4'
    then drive b 1 0 0 s
    else if c == b'5'
    then drive b 1 0 1 s
    else if c == b'6'
    then drive b 1 1 0 s
    else if c == b'7'
    then drive b 1 1 1 s
    else if c == b'R'
    then sample b s
    else ok (s, 0)

-- `if (respond != 0) write(clientfd, &respond, 1)`
unfoldable pub send : (wrote : Bool) → ℕ → Server → Server
send wrote c s = if c == 0 then s else if wrote then record s { sent = c ∷ s.sent } else s

unfoldable pub obey : {W : Type 0} → Backend W → (wrote : Bool) → ℕ → Session W → Run (Session W)
obey b wrote c s =
    dispatch b c s >>= λ r. ok (record { world = r.0.world; server = send wrote r.1 r.0.server })

-- One round of the client: what `read` does, what `write` does, and what stands in the variable `c`
-- before the round, which is left there when `read` returns 0.
pub record Incoming : Type 0 where
  pub received : Received
  pub wrote : Bool
  pub stale : ℕ

unfoldable pub obey_read :
    {W : Type 0} → Backend W → Incoming → Received → Session W → Run (Session W)
obey_read b i failed s = ok s
obey_read b i end_of_stream s = obey b i.wrote i.stale s
obey_read b i (byte c) s = obey b i.wrote c s

unfoldable pub respond : {W : Type 0} → Backend W → Incoming → Session W → Run (Session W)
respond b i s = if s.server.clientfd == 0 then ok s else obey_read b i i.received s

-- `while (!rbb->finished()) rbb->respond();` of `jtag_thrd`, verilator/sim.cpp, over the rounds that
-- the client gives it. When it is not finished after them, it waits in `read`.
unfoldable pub serve : {W : Type 0} → Backend W → List Incoming → Session W → Run (Session W)
serve b [] s = ok s
serve b (i ∷ is) s =
    let rest = respond b i s >>= serve b is in if finished s.server then ok s else rest
