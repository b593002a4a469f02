-- ===== src/Rbb/Lifecycle.antt =====
-- The descriptors of the server, verilator/rbb_server.cpp, as its operations open and close them.
use mathlib.Core.Path.{subst}
use zr_soc.Common.{
  ◌⊎◌, ℕ, ◌≡◌, refl, ◌≢◌, inl, inr, ◌==◌, if◌then◌else◌, true, false, ◌&&◌, Option, none, some,
  List, [], ◌∷◌, ◌++◌, ap, All, ◌∙◌, Bool-cases, Option-cases, ==→eq, eq→==, ne→==, arith,
}
use zr_soc.Rbb.{
  Server, Ended, returned, aborted, Opening, listen, Event, handle_event, handle_events,
  open_socket, prepare, finish, finished, close_client, close_socket,
}

-- A client is connected only while the socket is open.
unfoldable pub Sound : Server → Type 0
Sound s = s.sockfd ≡ 0 → s.clientfd ≡ 0

-- What a call leaves, returning or not.
abbrev pub left : Ended Server → Server
left (returned s) = s
left (aborted s) = s

-- `finish` leaves neither a socket nor a client, and closes those that were there: the client's descriptor
-- before the socket's.
pub finish-closed :
    (s : Server)
    → Sound s
    → (finished (finish s) ≡ true)
      × ((finish s).closed
          ≡ (if s.sockfd == 0 then [] else s.sockfd ∷ [])
            ++ (if s.clientfd == 0 then [] else s.clientfd ∷ [])
            ++ s.closed)
unfolding finish finished close_client close_socket Sound
finish-closed s h = ground arith

pub finish-Sound : (s : Server) → Sound s → Sound (finish s)
unfolding finish close_client close_socket Sound
finish-Sound s h = ground arith

unfoldable pub opened : Option ℕ → List ℕ
opened none = []
opened (some fd) = fd ∷ []

-- Every call has succeeded, and the socket is open and kept; or one has failed, no socket is kept, and one
-- that was created has been closed.
pub Opened : Opening → ℕ → Server → Ended Server → Type 0
Opened o port s (returned t) =
    (o.socket ≡ some t.sockfd)
    × ((o.reusable && o.bound port && o.listening) ≡ true)
    × (t ≡ record s { sockfd = t.sockfd })
Opened o port s (aborted t) =
    (t.sockfd ≡ 0)
    × (t.closed ≡ opened o.socket ++ s.closed)
    × ((o.socket ≡ none) ⊎ ((o.reusable && o.bound port && o.listening) ≡ false))

-- `listen` returns exactly when `socket`, `setsockopt`, `bind` and `listen` succeed, with the new socket in
-- `sockfd` and no other member changed. When one of them fails it aborts with no socket open: the one
-- that it had created, if any, has been closed, and nothing else has.
pub listen-Opened : (o : Opening) (port : ℕ) (s : Server) → Opened o port s (listen o port s)
unfolding listen open_socket prepare close_socket Opened opened
listen-Opened o port s = elim (Option-cases o.socket) [
  | inl e ↦ rw e (refl, refl, inl refl)
  | inr (fd, e) ↦ rw e (ground arith)
]

pub listen-returned :
    (o : Opening) (port : ℕ) (s t : Server)
    → listen o port s ≡ returned t
    → (o.socket ≡ some t.sockfd) × (t.clientfd ≡ s.clientfd) × (t.pipefd ≡ s.pipefd)
unfolding Opened
listen-returned o port s t e =
    let k = subst (Opened o port s) e (listen-Opened o port s) in
    (k.0, ap (λ (x : Server). x.clientfd) k.2, ap (λ (x : Server). x.pipefd) k.2)

pub listen-Sound :
    (o : Opening) (port : ℕ) (s : Server) → s.clientfd ≡ 0 → Sound (left (listen o port s))
unfolding listen open_socket prepare close_socket Sound
listen-Sound o port s h = elim (Option-cases o.socket) [
  | inl e ↦ rw e (λ _. h)
  | inr (fd, e) ↦ rw e (ground arith)
]

-- Descriptor 0 is standard input: it is neither the socket nor the pipe.
abbrev pub Named : List Event → Type 0
Named es = All (λ e. e.fd ≢ 0) es

pub handle_events-other :
    (e : Event) (es : List Event) (s : Server)
    → (e.fd == s.sockfd) ≡ false
    → handle_events (e ∷ es) s ≡ handle_events es (finish s)
unfolding handle_events handle_event
handle_events-other e es s k = rw k refl

pub handle_events-failed :
    (e : Event) (es : List Event) (s : Server)
    → (e.fd == s.sockfd) ≡ true
    → e.accepted ≡ none
    → handle_events (e ∷ es) s ≡ aborted (record (close_socket s) { clientfd = 0 })
unfolding handle_events handle_event
handle_events-failed e es s k a = rw (k, a) refl

pub handle_events-taken :
    (e : Event) (es : List Event) (s : Server) (c : ℕ)
    → (e.fd == s.sockfd) ≡ true
    → e.accepted ≡ some c
    → handle_events (e ∷ es) s ≡ handle_events es (record s { clientfd = c })
unfolding handle_events handle_event
handle_events-taken e es s c k a = rw (k, a) refl

pub handle_events-Sound :
    (es : List Event) (s : Server) → Named es → Sound s → Sound (left (handle_events es s))
unfolding handle_events close_socket Sound
handle_events-Sound [] s n h = h
handle_events-Sound (e ∷ es) s n h = elim (Bool-cases (e.fd == s.sockfd)) [
  | inr k ↦
      rw (handle_events-other e es s k) (handle_events-Sound es (finish s) n.1 (finish-Sound s h))
  | inl k ↦ elim (Option-cases e.accepted) [
    | inl a ↦ rw (handle_events-failed e es s k a) (λ _. refl)
    | inr (c, a) ↦ rw (handle_events-taken e es s c k a) (
        handle_events-Sound es (record s { clientfd = c }) n.1
          (λ z. absurd (n.0 (==→eq e.fd s.sockfd k ∙ z))))
  ]
]

pub handle_events-closed :
    (es : List Event) (s : Server) → Named es → s.sockfd ≡ 0 → handle_events es s ≡ returned s
unfolding finish handle_events
handle_events-closed [] s n h = refl
handle_events-closed (e ∷ es) s n h =
    handle_events-other e es s (ne→== e.fd s.sockfd (λ z. n.0 (z ∙ h)))
    ∙ (rw (eq→== s.sockfd 0 h) (handle_events-closed es s n.1 h))

pub finish-sockfd : (s : Server) → (finish s).sockfd ≡ 0
unfolding finish close_client close_socket
finish-sockfd s = ground arith

handle_events-woken :
    (e : Event) (es : List Event) (s : Server)
    → (e.fd == s.sockfd) ≡ false
    → Named es
    → Sound s
    → finished (left (handle_events (e ∷ es) s)) ≡ true
handle_events-woken e es s k n h =
    rw (handle_events-other e es s k)
      (rw (handle_events-closed es (finish s) n (finish-sockfd s)) ((finish-closed s h).0))

-- An event that is not of the socket ends the server, wherever it stands among the events.
pub handle_events-finished :
    (xs : List Event) (e : Event) (ys : List Event) (s : Server)
    → Named (xs ++ e ∷ ys)
    → s.sockfd ≢ 0
    → e.fd ≢ s.sockfd
    → Sound s
    → finished (left (handle_events (xs ++ e ∷ ys) s)) ≡ true
unfolding finished close_socket Sound
handle_events-finished [] e ys s n o d h = handle_events-woken e ys s (ne→== e.fd s.sockfd d) n.1 h
handle_events-finished (x ∷ xs) e ys s n o d h = elim (Bool-cases (x.fd == s.sockfd)) [
  | inr k ↦ handle_events-woken x (xs ++ e ∷ ys) s k n.1 h
  | inl k ↦ elim (Option-cases x.accepted) [
    | inl a ↦ rw (handle_events-failed x _ s k a) refl
    | inr (c, a) ↦
        rw (handle_events-taken x _ s c k a)
          (handle_events-finished xs e ys (record s { clientfd = c }) n.1 o d (λ z. absurd (o z)))
  ]
]
