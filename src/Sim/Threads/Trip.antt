-- ===== src/Sim/Threads/Trip.antt =====
-- How `main` of verilator/sim.cpp ends a server that no client has connected to.
use zr_soc.Common.{ℕ, ◌+◌, ◌≡◌, refl, ◌≢◌, inr, true, none, some, [], ◌∷◌, arith}
use zr_soc.Rbb.{
  Server, Polling, await_events, accept, handle_event, handle_events, finish, finished, returned,
  close_client, close_socket,
}
use zr_soc.Sim.{Design, ThArg}
use zr_soc.Sim.Threads.{
  accepting, joining_jtag, main_returned, Program, wait_client, end_, join_jtag, Reach, here, after,
}

-- `epoll_wait` reports the pipe, and nothing else.
abbrev pub tripped : ℕ → Polling
tripped pipefd = record {
  created = some (pipefd + 1);
  socket_added = true;
  pipe_added = true;
  events = some (record { fd = pipefd; accepted = none } ∷ []);
}

abbrev polled : Server → Server
polled s = record s { epollfds = (s.pipefd + 1) ∷ s.epollfds }

accept-tripped :
    (s : Server)
    → s.clientfd ≡ 0
    → s.sockfd ≢ 0
    → s.pipefd ≢ s.sockfd
    → (accept (tripped s.pipefd) s ≡ returned (finish (polled s)))
      × (finished (finish (polled s)) ≡ true)
unfolding accept await_events handle_events handle_event finish finished close_client close_socket
accept-tripped s c o d = ground arith

-- From any state in which `main` waits for the server and the server waits for a client, the byte that
-- `main` has written to the pipe brings the threads to the return of `main`.
pub Reach-tripped :
    {D : Type 0} (v : Design D) (a : ThArg) (pipefd : ℕ) (p : Program D)
    → p.main_at ≡ joining_jtag
    → p.signalled ≡ true
    → p.jtag_at ≡ accepting
    → p.session.server.clientfd ≡ 0
    → p.session.server.sockfd ≢ 0
    → p.session.server.pipefd ≢ p.session.server.sockfd
    → (q : Program D) × Reach v a pipefd p q × (q.main_at ≡ main_returned)
Reach-tripped v a pipefd p m g j c o d =
    let t = accept-tripped p.session.server c o d in
    let woken =
      wait_client (tripped p.session.server.pipefd) _ [] j refl
        (record { source = inr (refl, g); client = λ e. absurd cc }, tt) t.0 in
    (_, after (after (after here woken) (end_ refl t.1)) (join_jtag m refl), refl)
