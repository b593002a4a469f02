-- ===== src/Rbb/Examples.antt =====
-- The theorems on the server at concrete servers and clients.
use zr_soc.Common.{
  ℕ, suc, Option, ◌≡◌, ◌≢◌, refl, sym, ◌∙◌, some-injective, true, false, some, none, List, [], ◌∷◌,
  Reaches, arith,
}
use zr_soc.Rbb.{
  Server, fresh_server, Session, Opening, listen, Polling, accept, byte, failed, Incoming, serve,
}
use zr_soc.Rbb.Lifecycle.{left, opened, Opened, listen-Opened}
use zr_soc.Rbb.Wakeup.{Woken, accept-finished}
use zr_soc.Rbb.Serve.{Whole}
use zr_soc.Rbb.Protocol.{Request, recorder, view}
use zr_soc.Rbb.Protocol.Loop.{plays, serve-plays}

-- `bind` fails, as when the port is taken.
abbrev taken_port : Opening
taken_port = record { socket = some 5; reusable = true; bound = λ port. false; listening = true }

listen-Opened_example :
    Opened taken_port 9823 (fresh_server 3 true) (listen taken_port 9823 (fresh_server 3 true))
listen-Opened_example = listen-Opened taken_port 9823 (fresh_server 3 true)

abbrev open_server : Server
open_server = record (fresh_server 3 true) { sockfd = 5 }

-- A client connects, and the pipe is written to.
abbrev client_and_pipe : Polling
client_and_pipe = record {
  created = some 7;
  socket_added = true;
  pipe_added = true;
  events = some (record { fd = 5; accepted = some 6 } ∷ record { fd = 3; accepted = none } ∷ []);
}

client_named : (c : ℕ) (o : Option ℕ) → o ≡ some (suc c) → o ≢ some 0
client_named c o k e = absurd (omega (arith, some-injective (sym k ∙ e)))

-- The client's descriptor 6 and the socket's 5 have been closed, and `epoll_create1`'s 7 stays open.
accept-finished_example :
    Woken
      (record open_server { epollfds = 7 ∷ [] })
      (6 ∷ [])
      (left (accept client_and_pipe open_server))
unfolding opened
accept-finished_example =
    accept-finished client_and_pipe 7 (record { fd = 5; accepted = some 6 } ∷ [])
      (record { fd = 3; accepted = none }) []
      (record { fd = 5; accepted = some 6 } ∷ record { fd = 3; accepted = none } ∷ []) open_server
      refl refl refl refl refl
      (
        ((λ z. absurd (omega arith)), client_named 5 (some 6) refl),
        (((λ z. absurd (omega arith)), λ e. absurd cc), tt),
      )
      refl (λ z. absurd (omega arith)) (λ z. absurd (omega arith))

abbrev connected_session : Session (List Request)
connected_session = record { world = []; server = record open_server { clientfd = 6 } }

abbrev says : ℕ → Incoming
says c = record { received = byte c; wrote = true; stale = 0 }

-- A number, a sample, an error of `read`, and the end.
abbrev dialogue : List Incoming
dialogue =
    says b'6'
    ∷ says b'R'
    ∷ record { received = failed; wrote = true; stale = b'R' }
    ∷ says b'Q'
    ∷ []

serve-plays_example :
    Reaches
      (λ t. view t ≡ plays (λ w. 0) dialogue (view connected_session))
      (serve (recorder (λ w. 0)) dialogue connected_session)
unfolding Whole
serve-plays_example = serve-plays (λ w. 0) dialogue connected_session refl refl
