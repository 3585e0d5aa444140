-- ===== src/Outbound.antt =====
-- protocol/outbound.go and the part of protocol/minecraft/outbound.go that is its twin: the settings of
-- an outbound, what `PostInitialize` and `Reload` make of them, and how a connection to the next hop is
-- dialled and opened. Dialling, and writing the PROXY protocol header, are parameters.
pub mod Resolved
pub mod Settings
pub mod Hop
pub mod Chain
unfoldable pub use Resolved.*
use zbproxy_a.Base.{
  ℕ, ◌+◌, ◌*◌, List, [], ◌∷◌, ◌++◌, Bool, true, false, ltb, ◌==◌, ◌&&◌, ◌||◌, not, if◌then◌else◌,
  length, Option, none, some, ◌⊎◌, inl, inr,
}
use zbproxy_a.Route.Values.{String, Metadata}
use zbproxy_a.Route.Handle as Handle
use zbproxy_a.Auth.{stored_secret, write}
use zbproxy_a.Selector.{
  Mode, tcp, udp, auto, other, Transport, by_tcp, by_udp, Selector, prefer, new, second,
}
use zbproxy_a.Selector as Selector

pub data Dialer : Type 0 where
  system_dialer : Bool → Dialer
  through : Handle.Outbound → Dialer
  socks_client : Dialer → Dialer

pub data Error : Type 0 where
  proxy_over_udp no_udp_port options_with_dialer dialer_over_udp dialer_not_found bad_version :
      Error
  udp_without_port dial_failed secret_missing secret_write header_write : Error

pub record Outbound : Type 0 where
  pub config : Config
  pub dialer : Option Dialer
  pub selector : Option Selector
  pub auth_secret : List ℕ

unfoldable pub new_outbound : Config → Outbound
new_outbound c = record { config = c; dialer = none; selector = none; auth_secret = [] }

unfoldable pub set_auth_secret : String → Outbound → Outbound
unfolding stored_secret
set_auth_secret secret o = record o { auth_secret = stored_secret secret }

abbrev pub is_udp : Mode → Bool
is_udp m = elim m [ udp ↦ true | tcp ↦ false | auto ↦ false | other ↦ false ]

abbrev pub is_auto : Mode → Bool
is_auto m = elim m [ auto ↦ true | tcp ↦ false | udp ↦ false | other ↦ false ]

abbrev pub has_proxy : Proxy → Bool
has_proxy p = elim p [ no_proxy ↦ false | socks ↦ true | other_proxy ↦ true ]

abbrev pub is_empty : String → Bool
is_empty s = length s == 0

abbrev pub Outcome : Type 0
Outcome = Option Error × Outbound

-- The dialer, or the error of the settings around it; an outbound is found by its name.
unfoldable pub choose_dialer : (String → Option Handle.Outbound) → Config → Error ⊎ Dialer
choose_dialer find c =
    if is_empty c.dialer
    then inr (system_dialer c.socket_options)
    else if c.socket_options
    then inl options_with_dialer
    else if is_udp (resolved_transport c)
    then inl dialer_over_udp
    else elim (find c.dialer) [ none ↦ inl dialer_not_found | some o ↦ inr (through o) ]

unfoldable pub proxied : Config → Dialer → Dialer
proxied c d = elim c.proxy [ socks ↦ socks_client d | no_proxy ↦ d | other_proxy ↦ d ]

abbrev pub selector_config : Config → Selector.Config
selector_config c = record {
  tcp_port = c.target_port;
  udp_port = c.udp_target_port;
  mode = resolved_transport c;
  interval = probe_interval c;
}

-- The selector of an outbound with a UDP path.
unfoldable pub choose_selector : Config → Option Selector
unfolding new
choose_selector c =
    let mode = resolved_transport c in
    if is_auto mode || (is_udp mode || ltb 0 c.udp_target_port)
    then some (new (selector_config c))
    else none

abbrev pub known_version : ℕ → Bool
known_version v = (v == 0) || ((v == 1) || (v == 2))

-- The last steps of `PostInitialize`, with the dialer chosen. A bad version leaves the dialer set.
unfoldable pub finish_initialize : Dialer → Outbound → Outcome
unfolding proxied choose_selector
finish_initialize d o =
    if known_version o.config.proxy_protocol_version
    then (
      none,
      record o { dialer = some (proxied o.config d); selector = choose_selector o.config },
    )
    else (some bad_version, record o { dialer = some d })

-- Whether the named dialer is looked up.
abbrev pub searches : Config → Bool
searches c =
    not (is_empty c.dialer) && (not c.socket_options && not (is_udp (resolved_transport c)))

-- `PostInitialize`; a dialer that is not found leaves the nil that the provider gave.
unfoldable pub post_initialize : (String → Option Handle.Outbound) → Outbound → Outcome
unfolding choose_dialer finish_initialize
post_initialize find o =
    let mode = resolved_transport o.config in
    if (is_udp mode || is_auto mode) && has_proxy o.config.proxy
    then (some proxy_over_udp, o)
    else if is_udp mode && (o.config.udp_target_port == 0)
    then (some no_udp_port, o)
    else elim (choose_dialer find o.config) [
      | inl e ↦ (some e, if searches o.config then record o { dialer = none } else o)
      | inr d ↦ finish_initialize d o
    ]

-- `Reload`: the old selector is stopped first.
unfoldable pub reload : (String → Option Handle.Outbound) → Config → Outbound → Outcome
reload find c o = post_initialize find (record o { config = c; selector = none })

-- What a dial asks for: a UDP tunnel or a TCP connection to a host and a port. A dialer that is an
-- outbound itself is given the metadata too, and may go to a target of its own.
pub data Target : Type 0 where
  udp_tunnel : String → ℕ → Target
  tcp_through : Option Dialer → String → ℕ → Target

-- An error with no connection, an error behind which the connection is closed, or the connection with
-- the bytes written to it.
pub data Dialed : Type 0 where
  unconnected : Error → Dialed
  closed : Error → Dialed
  opened : Target → List ℕ → Dialed

-- The mode of the next dial.
unfoldable pub current_transport : Outbound → Transport
unfolding prefer
current_transport o =
    let mode = resolved_transport o.config in
    elim o.selector [
      | some s ↦ if is_auto mode then prefer s else if is_udp mode then by_udp else by_tcp
      | none ↦ if is_udp mode then by_udp else by_tcp
    ]

unfoldable pub tunnel_hop : Config → Bool
tunnel_hop c =
    let mode = resolved_transport c in ltb 0 c.udp_target_port || (is_udp mode || is_auto mode)

-- The destination of the metadata where it has one, and otherwise the target.
abbrev pub or_target_host : Config → Metadata → String
or_target_host c m =
    if is_empty m.destination_hostname then c.target_address else m.destination_hostname

abbrev pub or_target_port : Config → Metadata → ℕ
or_target_port c m = if m.destination_port == 0 then c.target_port else m.destination_port

-- `dialTunnel` of `Plain`, and the dial of `connectServer`.
unfoldable pub dial_tunnel : Outbound → Metadata → Error ⊎ Target
unfolding current_transport tunnel_hop
dial_tunnel o m = elim (current_transport o) [
  | by_udp ↦
      if o.config.udp_target_port == 0
      then inl udp_without_port
      else inr (udp_tunnel o.config.target_address o.config.udp_target_port)
  | by_tcp ↦
      if tunnel_hop o.config
      then inr (tcp_through o.dialer o.config.target_address o.config.target_port)
      else inr (tcp_through o.dialer (or_target_host o.config m) (or_target_port o.config m))
]

-- The secret is written first, when it is to be sent; `conn.Write` takes all its bytes or fails.
unfoldable pub send_secret : Bool → Outbound → Error ⊎ List ℕ
unfolding write
send_secret writes o =
    if o.config.send_auth_secret
    then (if length o.auth_secret == 0
        then inl secret_missing
        else elim (write o.auth_secret (if writes then some (length o.auth_secret) else none)) [
          | some e ↦ inl secret_write
          | none ↦ inr o.auth_secret
        ])
    else inr []

-- Then the PROXY protocol header, whose bytes the argument gives unless it fails.
unfoldable pub send_header : Option (List ℕ) → Outbound → Error ⊎ List ℕ
send_header header o =
    if o.config.proxy_protocol_version == 0
    then inr []
    else elim header [ none ↦ inl header_write | some bytes ↦ inr bytes ]

-- `DialContextWithMetadata` of `Plain`, and `connectServer`.
unfoldable pub connect : (Target → Bool) → Bool → Option (List ℕ) → Outbound → Metadata → Dialed
unfolding dial_tunnel send_secret send_header
connect dials writes header o m = elim (dial_tunnel o m) [
  | inl e ↦ unconnected e
  | inr t ↦
      if dials t
      then elim (send_secret writes o) [
        | inl e ↦ closed e
        | inr secret ↦ elim (send_header header o) [
          | inl e ↦ closed e
          | inr bytes ↦ opened t (secret ++ bytes)
        ]
      ]
      else unconnected dial_failed
]
