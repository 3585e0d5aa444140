-- ===== src/Outbound/Resolved.antt =====
-- config/outbound.go and common/network/transport.go: the settings of an outbound, with the transport
-- and the probe interval that they resolve to.
use zbproxy_a.Base.{ℕ, ◌*◌, Bool, ltb, if◌then◌else◌}
use zbproxy_a.Route.Values.{String}
use zbproxy_a.Selector.{Mode, tcp, udp, auto, second}

-- The strings of `Transport`; any other is `unknown`.
pub data Setting : Type 0 where
  unset as_tcp as_udp as_auto unknown : Setting

-- What `time.ParseDuration` makes of the interval's string; a negative time is 0.
pub data Interval : Type 0 where
  absent malformed : Interval
  duration : ℕ → Interval

-- The strings of `ProxyOptions.Type`: "socks", "socks5", "socks4a" and "socks4" are `socks`.
pub data Proxy : Type 0 where
  no_proxy socks other_proxy : Proxy

-- config.Outbound; `legacy_udp` is DialNetwork "udp".
pub record Config : Type 0 where
  pub name : String
  pub dialer : String
  pub target_address : String
  pub target_port : ℕ
  pub udp_target_port : ℕ
  pub transport : Setting
  pub legacy_udp : Bool
  pub interval : Interval
  pub socket_options : Bool
  pub proxy_protocol_version : ℕ
  pub proxy : Proxy
  pub send_auth_secret : Bool

-- `ResolvedTransport`
unfoldable pub resolved_transport : Config → Mode
resolved_transport c = elim c.transport [
  | as_tcp ↦ tcp
  | as_udp ↦ udp
  | as_auto ↦ auto
  | unset ↦ if c.legacy_udp then udp else tcp
  | unknown ↦ tcp
]

-- `ProbeInterval`
unfoldable pub probe_interval : Config → ℕ
probe_interval c = elim c.interval [
  | absent ↦ 10 * second
  | malformed ↦ 10 * second
  | duration d ↦
      if ltb d (3 * second) then 10 * second else if ltb (60 * second) d then 60 * second else d
]
