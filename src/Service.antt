-- ===== src/Service.antt =====
-- service/service.go: the state of one service and what starts, reloads and closes it. Whether a port
-- can be bound, whether the legacy outbound initialises and which lists the router has are given by
-- the surroundings; the sockets that are open are kept in the state, beside the fields that own them.
pub mod Inbound
pub mod Steps
pub mod Life
pub mod Gate
use zbproxy_a.Base.{
  ℕ, List, [], ◌∷◌, Bool, true, false, ltb, ◌==◌, ◌||◌, ◌&&◌, not, if◌then◌else◌, Option, none,
  some,
}
use zbproxy_a.Base.Assoc.{nat_eq, ◌===◌}
use zbproxy_a.Route.Values.{String}
use zbproxy_a.Route.{StringSet}
use zbproxy_a.Access.{find_lists_by_tag}
use zbproxy_a.Access as Access
use zbproxy_a.Auth.{stored_secret}

-- config.Service, as far as the service reads it; `minecraft` and `tls_sniffing` tell whether the
-- pointer is set.
pub record Config : Type 0 where
  pub name : String
  pub target_address : String
  pub target_port : ℕ
  pub listen : ℕ
  pub listen_udp : ℕ
  pub enable_tcp : Bool
  pub enable_udp : Bool
  pub enable_proxy_protocol : Bool
  pub require_auth_secret : Bool
  pub ip_mode : Access.Mode
  pub ip_tags : List String
  pub minecraft : Bool
  pub tls_sniffing : Bool

unfoldable pub tcp_enabled : Config → Bool
tcp_enabled c = if c.enable_tcp || c.enable_udp then c.enable_tcp else true

unfoldable pub udp_enabled : Config → Bool
udp_enabled c = c.enable_udp && ltb 0 c.listen_udp

pub data Error : Type 0 where
  exclusive post_initialize lists none_enabled udp_port tcp_listening udp_listening closed : Error

pub record Surroundings : Type 0 where
  pub legacy_ready : Config → Bool
  pub list_map : Option (List (String × StringSet))
  pub tcp_free : ℕ → Bool
  pub udp_free : ℕ → Bool

pub data Socket : Type 0 where
  tcp_socket udp_socket : ℕ → Socket

-- A listener is the port it is bound to.
pub record Service : Type 0 where
  pub config : Config
  pub tcp_listener : Option ℕ
  pub udp_listener : Option ℕ
  pub legacy_outbound : Bool
  pub ip_access_lists : Option (List StringSet)
  pub auth_secret : List ℕ
  pub started : Bool
  pub sockets : List Socket

unfoldable pub new_service : Config → List Socket → Service
new_service c open_before = record {
  config = c;
  tcp_listener = none;
  udp_listener = none;
  legacy_outbound = false;
  ip_access_lists = none;
  auth_secret = [];
  started = false;
  sockets = open_before;
}

unfoldable pub set_auth_secret : String → Service → Service
unfolding stored_secret
set_auth_secret secret s = record s { auth_secret = stored_secret secret }

-- An error, or nil, and the service after the call.
abbrev pub Outcome : Type 0
Outcome = Option Error × Service

abbrev pub when_ok : Outcome → (Service → Outcome) → Outcome
when_ok (none, s) f = f s
when_ok (some e, s) f = (some e, s)

unfoldable pub is_socket : Socket → Socket → Bool
is_socket (tcp_socket p) (tcp_socket q) = p == q
is_socket (tcp_socket p) (udp_socket q) = false
is_socket (udp_socket p) (tcp_socket q) = false
is_socket (udp_socket p) (udp_socket q) = p == q

-- Closing a socket takes it off those that are open.
unfoldable pub close_socket : Socket → List Socket → List Socket
unfolding is_socket
close_socket x [] = []
close_socket x (y ∷ ys) = let rest = close_socket x ys in if is_socket x y then ys else y ∷ rest

unfoldable pub close_tcp : Service → Service
unfolding close_socket
close_tcp s = elim s.tcp_listener [
  | none ↦ s
  | some p ↦ record s { tcp_listener = none; sockets = close_socket (tcp_socket p) s.sockets }
]

-- The listener's own Close is taken to return.
unfoldable pub close_udp : Service → Service
unfolding close_socket
close_udp s = elim s.udp_listener [
  | none ↦ s
  | some p ↦ record s { udp_listener = none; sockets = close_socket (udp_socket p) s.sockets }
]

-- `Start`, in its steps: the legacy outbound, the access lists, the two flags, then the listeners.
unfoldable pub start_legacy : Surroundings → Service → Outcome
start_legacy w s =
    if s.config.minecraft && s.config.tls_sniffing
    then (some exclusive, s)
    else if s.config.minecraft
    then (
      if w.legacy_ready s.config then none else some post_initialize,
      record s { legacy_outbound = true },
    )
    else (none, s)

unfoldable pub start_lists : Surroundings → Service → Outcome
unfolding find_lists_by_tag
start_lists w s =
    let found = find_lists_by_tag w.list_map s.config.ip_tags in
    let loaded : Outcome =
      (elim found [ none ↦ some lists | some ls ↦ none ], record s { ip_access_lists = found }) in
    elim s.config.ip_mode [
      | Access.unset ↦ (none, s)
      | Access.allow ↦ loaded
      | Access.block ↦ loaded
      | Access.other ↦ loaded
    ]

unfoldable pub start_flags : Service → Outcome
unfolding tcp_enabled udp_enabled
start_flags s =
    if not (tcp_enabled s.config) && not (udp_enabled s.config)
    then (some none_enabled, s)
    else if s.config.enable_udp && (s.config.listen_udp == 0)
    then (some udp_port, s)
    else (none, s)

unfoldable pub listen_tcp : Surroundings → Service → Outcome
unfolding tcp_enabled
listen_tcp w s =
    let p = s.config.listen in
    if tcp_enabled s.config
    then (if w.tcp_free p
        then (none, record s { tcp_listener = some p; sockets = tcp_socket p ∷ s.sockets })
        else (some tcp_listening, s))
    else (none, s)

unfoldable pub listen_udp : Surroundings → Service → Outcome
unfolding udp_enabled close_tcp
listen_udp w s =
    let p = s.config.listen_udp in
    if udp_enabled s.config
    then (if w.udp_free p
        then (none, record s { udp_listener = some p; sockets = udp_socket p ∷ s.sockets })
        else (some udp_listening, close_tcp s))
    else (none, s)

unfoldable pub start : Surroundings → Service → Outcome
unfolding start_legacy start_lists start_flags listen_tcp listen_udp
start w s = when_ok (start_legacy w s) (λ a. when_ok (start_lists w a) (λ b.
    when_ok (start_flags b) (λ c.
      when_ok (listen_tcp w c)
        (λ d. when_ok (listen_udp w d) (λ e. (none, record e { started = true }))))))

abbrev pub is_nil : Option ℕ → Bool
is_nil none = true
is_nil (some p) = false

-- `Close`: the listeners' own errors are left out.
unfoldable pub close : Service → Outcome
unfolding close_tcp close_udp
close s =
    if not s.started && (is_nil s.tcp_listener && is_nil s.udp_listener)
    then (some closed, s)
    else (none, record (close_udp (close_tcp s)) { started = false })

unfoldable pub reload : Surroundings → Config → Service → Outcome
reload w c s =
    if not s.started
    then (some closed, s)
    else start w
        (record (close s).1 { config = c; legacy_outbound = false; ip_access_lists = none })
