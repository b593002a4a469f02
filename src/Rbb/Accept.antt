-- ===== src/Rbb/Accept.antt =====
-- The descriptors after `rbb_server::accept` of verilator/rbb_server.cpp has handled an event.
use mathlib.Core.Path.{subst}
use zr_soc.Common.{
  inl, inr, Option-cases, take, All-take, ℕ, ◌≡◌, refl, ◌≢◌, ◌==◌, Bool, true, false, Option, none,
  some, List, [], ◌∷◌, All, ◌∙◌, sym, ap, ==→eq, ne→==, eq→==, arith,
}
use zr_soc.Rbb.{
  Server, Ended, returned, aborted, Event, Polling, handle_event, handle_events, await_events,
  accept, finish, close_client, close_socket, ◌▷◌,
}
use zr_soc.Rbb.Lifecycle.{Sound}
use zr_soc.Rbb.Serve.{Whole}

-- The call aborts, or what it returns has the predicate.
pub UnlessAborted {ℓ} : {S : Type ℓ} → (S → Type 0) → Ended S → Type 0
UnlessAborted P (returned s) = P s
UnlessAborted P (aborted s) = Unit

-- An event of another descriptor than 0, and a client that is not descriptor 0.
abbrev pub Usual : Event → Type 0
Usual e = (e.fd ≢ 0) × (e.accepted ≢ some 0)

chain-UnlessAborted :
    (P Q : Server → Type 0) (r : Ended Server) (f : Server → Ended Server)
    → UnlessAborted P r
    → ((s : Server) → P s → UnlessAborted Q (f s))
    → UnlessAborted Q (r ▷ f)
unfolding UnlessAborted
chain-UnlessAborted P Q (returned s) f h k = k s h
chain-UnlessAborted P Q (aborted s) f h k = tt

handle_event-Whole :
    (of_socket : Bool) (accepted : Option ℕ) (s : Server)
    → (of_socket ≡ true → s.sockfd ≢ 0)
    → accepted ≢ some 0
    → Sound s
    → UnlessAborted Whole (handle_event of_socket accepted s)
unfolding handle_event UnlessAborted Whole Sound finish close_client close_socket
handle_event-Whole true none s o a h = tt
handle_event-Whole true (some c) s o a h =
    ne→== s.sockfd 0 (o refl) ∙ sym (ne→== c 0 (λ z. a (ap some z)))
handle_event-Whole false a s o n h = ground arith

Whole-Sound : (s : Server) → Whole s → Sound s
unfolding Whole Sound
Whole-Sound s h z = ==→eq s.clientfd 0 (sym h ∙ eq→== s.sockfd 0 z)

of_socket : (e : Event) (s : Server) → Usual e → (e.fd == s.sockfd) ≡ true → s.sockfd ≢ 0
of_socket e s u k z = u.0 (==→eq e.fd s.sockfd k ∙ z)

handle_events-Whole :
    (es : List Event) (s : Server)
    → All Usual es
    → Whole s
    → UnlessAborted Whole (handle_events es s)
unfolding handle_events UnlessAborted
handle_events-Whole [] s n h = h
handle_events-Whole (e ∷ es) s n h =
    chain-UnlessAborted Whole Whole (handle_event (e.fd == s.sockfd) e.accepted s)
      (handle_events es)
      (handle_event-Whole (e.fd == s.sockfd) e.accepted s (of_socket e s n.0) n.0.1
        (Whole-Sound s h))
      (λ t k. handle_events-Whole es t n.1 k)

await_events-Whole :
    (p : Polling) (e : Event) (es : List Event) (s : Server)
    → p.events ≡ some (e ∷ es)
    → All Usual (e ∷ es)
    → s.clientfd ≡ 0
    → s.sockfd ≢ 0
    → UnlessAborted Whole (await_events p s)
unfolding await_events handle_events Sound UnlessAborted
await_events-Whole p e es s events n c o =
    let shown = take 1 es in
    let handled =
      chain-UnlessAborted Whole Whole (handle_event (e.fd == s.sockfd) e.accepted s)
        (handle_events shown)
        (handle_event-Whole (e.fd == s.sockfd) e.accepted s (of_socket e s n.0) n.0.1 (λ z. c))
        (λ t k. handle_events-Whole shown t (All-take Usual 1 es n.1) k) in
    rw events (ground arith)

-- Once `accept` has handled an event and returns, either a client is connected to an open socket, or no
-- socket and no client is open.
pub accept-Whole :
    (p : Polling) (e : Event) (es : List Event) (s : Server)
    → p.events ≡ some (e ∷ es)
    → All Usual (e ∷ es)
    → s.clientfd ≡ 0
    → s.sockfd ≢ 0
    → UnlessAborted Whole (accept p s)
unfolding accept UnlessAborted Whole
accept-Whole p e es s events n c o = elim (Option-cases p.created) [
  | inl m ↦ rw (eq→== s.clientfd 0 c, ne→== s.sockfd 0 o, m) tt
  | inr (fd, m) ↦
      rw (eq→== s.clientfd 0 c, ne→== s.sockfd 0 o, m)
        (await_events-Whole p e es (record s { epollfds = fd ∷ s.epollfds }) events n c o)
]

pub accept-returned :
    (p : Polling) (e : Event) (es : List Event) (s t : Server)
    → p.events ≡ some (e ∷ es)
    → All Usual (e ∷ es)
    → s.clientfd ≡ 0
    → s.sockfd ≢ 0
    → accept p s ≡ returned t
    → Whole t
unfolding UnlessAborted
accept-returned p e es s t events n c o r =
    subst (UnlessAborted Whole) r (accept-Whole p e es s events n c o)
