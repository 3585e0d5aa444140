-- ===== src/Service/Steps.antt =====
-- service/service.go: the steps of `Start`, each with the listeners and sockets that it leaves.
use zbproxy_a.Base.{
  ℕ, List, [], ◌∷◌, ◌++◌, true, false, ◌||◌, if◌then◌else◌, Option, none, some, ◌≡◌, inl, inr, refl,
  arith, Bool-cases, ==_refl,
}
use zbproxy_a.Service.{
  Config, Service, Surroundings, Socket, tcp_socket, udp_socket, Outcome, when_ok, start_legacy,
  start_lists, start_flags, listen_tcp, listen_udp, close_tcp, close_socket, is_socket, tcp_enabled,
  udp_enabled,
}

abbrev pub tcp_port : Config → Option ℕ
tcp_port c = if tcp_enabled c then some c.listen else none

abbrev pub udp_port_of : Config → Option ℕ
udp_port_of c = if udp_enabled c then some c.listen_udp else none

abbrev pub sockets_of : Option ℕ → Option ℕ → List Socket
sockets_of none none = []
sockets_of (some p) none = tcp_socket p ∷ []
sockets_of none (some q) = udp_socket q ∷ []
sockets_of (some p) (some q) = udp_socket q ∷ (tcp_socket p ∷ [])

-- No listener, and the sockets that were open before the service.
abbrev pub IsStopped : List Socket → Service → Type 0
IsStopped base s =
    (s.started ≡ false) × (s.tcp_listener ≡ none) × (s.udp_listener ≡ none) × (s.sockets ≡ base)

-- The listeners that the configuration asks for, at least one, and their sockets.
abbrev pub IsRunning : List Socket → Service → Type 0
IsRunning base s =
    (s.started ≡ true)
    × (s.tcp_listener ≡ tcp_port s.config)
    × (s.udp_listener ≡ udp_port_of s.config)
    × (s.sockets ≡ sockets_of (tcp_port s.config) (udp_port_of s.config) ++ base)
    × ((tcp_enabled s.config || udp_enabled s.config) ≡ true)

abbrev pub AfterStart : List Socket → Outcome → Type 0
AfterStart base (none, s) = IsRunning base s
AfterStart base (some e, s) = IsStopped base s

abbrev pub AfterStep : (Service → Type 0) → List Socket → Outcome → Type 0
AfterStep P base (none, s) = P s
AfterStep P base (some e, s) = IsStopped base s

-- A step that fails leaves the service stopped, and one that succeeds hands on to the next.
pub AfterStep-when_ok :
    {P : Service → Type 0} (base : List Socket) (o : Outcome) (f : Service → Outcome)
    → AfterStep P base o
    → ((s : Service) → P s → AfterStart base (f s))
    → AfterStart base (when_ok o f)
AfterStep-when_ok base (none, s) f h k = k s h
AfterStep-when_ok base (some e, s) f h k = h

pub start_legacy-IsStopped :
    (base : List Socket) (w : Surroundings) (s : Service)
    → IsStopped base s
    → AfterStep (IsStopped base) base (start_legacy w s)
unfolding start_legacy
start_legacy-IsStopped base w s h = ground arith

pub start_lists-IsStopped :
    (base : List Socket) (w : Surroundings) (s : Service)
    → IsStopped base s
    → AfterStep (IsStopped base) base (start_lists w s)
unfolding start_lists
start_lists-IsStopped base w s h = ground arith

abbrev pub HasPort : List Socket → Service → Type 0
HasPort base s = IsStopped base s × ((tcp_enabled s.config || udp_enabled s.config) ≡ true)

pub start_flags-HasPort :
    (base : List Socket) (s : Service)
    → IsStopped base s
    → AfterStep (HasPort base) base (start_flags s)
unfolding start_flags
start_flags-HasPort base s h = ground arith

abbrev pub HasTcp : List Socket → Service → Type 0
HasTcp base s =
    (s.started ≡ false)
    × (s.tcp_listener ≡ tcp_port s.config)
    × (s.udp_listener ≡ none)
    × (s.sockets ≡ sockets_of (tcp_port s.config) none ++ base)
    × ((tcp_enabled s.config || udp_enabled s.config) ≡ true)

pub listen_tcp-HasTcp :
    (base : List Socket) (w : Surroundings) (s : Service)
    → HasPort base s
    → AfterStep (HasTcp base) base (listen_tcp w s)
unfolding listen_tcp
listen_tcp-HasTcp base w s h = ground arith

pub close_socket_head : (x : Socket) (xs : List Socket) → close_socket x (x ∷ xs) ≡ xs
unfolding close_socket is_socket
close_socket_head (tcp_socket p) xs = rw (==_refl p) refl
close_socket_head (udp_socket p) xs = rw (==_refl p) refl

close_tcp-IsStopped :
    (base : List Socket) (s : Service) → HasTcp base s → IsStopped base (close_tcp s)
unfolding close_tcp
close_tcp-IsStopped base s h = elim (Bool-cases (tcp_enabled s.config)) [
  | inl e ↦ ground (arith, close_socket_head (tcp_socket s.config.listen) base)
  | inr e ↦ ground arith
]

abbrev pub HasBoth : List Socket → Service → Type 0
HasBoth base s =
    (s.tcp_listener ≡ tcp_port s.config)
    × (s.udp_listener ≡ udp_port_of s.config)
    × (s.sockets ≡ sockets_of (tcp_port s.config) (udp_port_of s.config) ++ base)
    × ((tcp_enabled s.config || udp_enabled s.config) ≡ true)

pub listen_udp-HasBoth :
    (base : List Socket) (w : Surroundings) (s : Service)
    → HasTcp base s
    → AfterStep (HasBoth base) base (listen_udp w s)
unfolding listen_udp
listen_udp-HasBoth base w s h = ground (arith, close_tcp-IsStopped base s h)
