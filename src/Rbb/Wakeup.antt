-- ===== src/Rbb/Wakeup.antt =====
-- `rbb_server::accept` of verilator/rbb_server.cpp when the pipe wakes it.
use zr_soc.Common.{
  ℕ, ◌≤◌, ◌≡◌, refl, sym, ◌∙◌, ◌≢◌, inl, inr, ◌==◌, if◌then◌else◌, true, false, some, List, [], ◌∷◌,
  ◌++◌, length, take, length-append, length-take_le, ap, All, Bool-cases, Option-cases, eq→==,
  ne→==, arith,
}
use zr_soc.Rbb.{
  Server, Event, Polling, handle_events, await_events, accept, finish, finished, close_client,
  close_socket,
}
use zr_soc.Rbb.Lifecycle.{
  left, opened, Sound, Named, finish-sockfd, handle_events-other, handle_events-failed,
  handle_events-taken, handle_events-closed, handle_events-Sound,
}
use zr_soc.Rbb.Accept.{Usual}

-- The client that is accepted before the event that ends the server.
abbrev pub connected : (sockfd : ℕ) → List Event → List ℕ
connected sockfd [] = []
connected sockfd (x ∷ xs) = if x.fd == sockfd then opened x.accepted else []

-- The server `t` has neither a socket nor a client. It has closed the socket and the clients `cs` of `s`,
-- and has left the descriptors of `epoll_create1` open.
pub record Woken (s : Server) (cs : List ℕ) (t : Server) : Type 0 where
  pub over : finished t ≡ true
  pub closed : t.closed ≡ s.sockfd ∷ cs ++ s.closed
  pub epollfds : t.epollfds ≡ s.epollfds

All-Named : (es : List Event) → All Usual es → Named es
All-Named [] u = tt
All-Named (e ∷ es) u = (u.0.0, All-Named es u.1)

finish-Woken :
    (s : Server) (c : ℕ)
    → s.sockfd ≢ 0
    → c ≢ 0
    → Woken s (c ∷ []) (finish (record s { clientfd = c }))
unfolding finish finished close_client close_socket
finish-Woken s c o n =
    rw (ne→== s.sockfd 0 o, ne→== c 0 n) (record { over = refl; closed = refl; epollfds = refl })

finish_alone : (s : Server) → s.sockfd ≢ 0 → s.clientfd ≡ 0 → Woken s [] (finish s)
unfolding finish finished close_client close_socket
finish_alone s o k =
    rw (ne→== s.sockfd 0 o, k) (record { over = refl; closed = refl; epollfds = refl })

failed_alone : (s : Server) → s.clientfd ≡ 0 → Woken s [] (record (close_socket s) { clientfd = 0 })
unfolding finished close_socket
failed_alone s k = record { over = refl; closed = refl; epollfds = refl }

-- The event that is not of the socket, and those behind it.
woken :
    (e : Event) (ys : List Event) (s : Server)
    → Named (e ∷ ys)
    → (e.fd == s.sockfd) ≡ false
    → left (handle_events (e ∷ ys) s) ≡ finish s
woken e ys s n d =
    ap left
      (handle_events-other e ys s d ∙ handle_events-closed ys (finish s) n.1 (finish-sockfd s))

handle_events-Woken :
    (xs : List Event) (e : Event) (ys : List Event) (s : Server)
    → All Usual (xs ++ e ∷ ys)
    → length xs ≤ 1
    → s.sockfd ≢ 0
    → s.clientfd ≡ 0
    → e.fd ≢ s.sockfd
    → Woken s (connected s.sockfd xs) (left (handle_events (xs ++ e ∷ ys) s))
unfolding opened
handle_events-Woken [] e ys s u l o k d =
    rw (woken e ys s (All-Named (e ∷ ys) u) (ne→== e.fd s.sockfd d)) (finish_alone s o k)
handle_events-Woken (x ∷ []) e ys s u l o k d = elim (Bool-cases (x.fd == s.sockfd)) [
  | inr q ↦ rw (q, woken x (e ∷ ys) s (All-Named (x ∷ e ∷ ys) u) q) (finish_alone s o k)
  | inl q ↦ elim (Option-cases x.accepted) [
    | inl a ↦ rw (q, handle_events-failed x (e ∷ ys) s q a) (rw a (failed_alone s k))
    | inr (c, a) ↦
        rw (q, handle_events-taken x (e ∷ ys) s c q a)
          (rw a (
            rw
              (woken e ys (record s { clientfd = c }) (All-Named (e ∷ ys) u.1)
                (ne→== e.fd s.sockfd d))
              (finish-Woken s c o (λ z. u.0.1 (a ∙ ap some z)))))
  ]
]
handle_events-Woken (x ∷ y ∷ xs) e ys s u l o k d = absurd (omega arith)

one_before :
    (xs : List Event) (e : Event) (ys es : List Event) → xs ++ e ∷ ys ≡ take 2 es → length xs ≤ 1
one_before xs e ys es h =
    omega (arith, length-append xs (e ∷ ys), ap (λ t. length t) h, length-take_le 2 es)

-- When `epoll_wait` reports an event that is not of the socket among the two for which it is given room,
-- whatever stands before and after it and whether `accept` returns or aborts, then after `accept` the server
-- is finished: it has closed the socket and the client that it accepted before that event, if any, and no
-- other descriptor. The descriptor of `epoll_create1` stays open. It is given that the other calls on `epoll`
-- succeed, that the server waits for a client, and that neither an event nor a client has descriptor 0.
pub accept-finished :
    (p : Polling) (epollfd : ℕ) (xs : List Event) (e : Event) (ys es : List Event) (s : Server)
    → p.created ≡ some epollfd
    → p.socket_added ≡ true
    → p.pipe_added ≡ true
    → p.events ≡ some es
    → xs ++ e ∷ ys ≡ take 2 es
    → All Usual (xs ++ e ∷ ys)
    → s.clientfd ≡ 0
    → s.sockfd ≢ 0
    → e.fd ≢ s.sockfd
    → Woken
        (record s { epollfds = epollfd ∷ s.epollfds })
        (connected s.sockfd xs)
        (left (accept p s))
unfolding accept await_events
accept-finished p epollfd xs e ys es s made sa pa events shown u k o d =
    let end =
      handle_events-Woken xs e ys (record s { epollfds = epollfd ∷ s.epollfds }) u
        (one_before xs e ys es shown) o k d in
    rw (made, events, sym shown, eq→== s.clientfd 0 k, ne→== s.sockfd 0 o, sa, pa) end

-- Whatever `epoll` reports and whatever `::accept` returns, no client is connected after `accept` unless
-- the socket is open, given that this holds before and that no event is of descriptor 0.
pub accept-Sound :
    (p : Polling) (es : List Event) (s : Server)
    → p.events ≡ some es
    → Named (take 2 es)
    → Sound s
    → Sound (left (accept p s))
unfolding accept await_events Sound
accept-Sound p es s e n h = elim (Option-cases p.created) [
  | inl m ↦ rw m (ground arith)
  | inr (fd, m) ↦
      let kept = handle_events-Sound (take 2 es) (record s { epollfds = fd ∷ s.epollfds }) n h in
      rw (m, e) (ground (arith, kept))
]
