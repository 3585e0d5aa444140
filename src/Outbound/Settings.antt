-- ===== src/Outbound/Settings.antt =====
-- protocol/outbound.go: which settings `PostInitialize` accepts.
use zbproxy_a.Base.{Bool, true, false, ltb, ◌&&◌, ◌||◌, not, Option, none, some, ◌≡◌, ◌↔◌, arith}
use zbproxy_a.Route.Values.{String}
use zbproxy_a.Route.Handle as Handle
use zbproxy_a.Outbound.{
  Config, Outbound, resolved_transport, choose_dialer, finish_initialize, post_initialize, is_udp,
  is_auto, has_proxy, is_empty, known_version,
}

abbrev pub is_found : Option Handle.Outbound → Bool
is_found none = false
is_found (some o) = true

-- What a configuration must satisfy: SOCKS not with UDP or auto, a UDP port with UDP, a named dialer
-- that is there, without socket options of its own and not with UDP, and a known header version.
unfoldable pub accepts : (String → Option Handle.Outbound) → Config → Bool
accepts find c =
    let mode = resolved_transport c in
    (not (is_udp mode || is_auto mode) || not (has_proxy c.proxy))
    && ((not (is_udp mode) || ltb 0 c.udp_target_port)
        && ((is_empty c.dialer
              || (not c.socket_options && (not (is_udp mode) && is_found (find c.dialer))))
            && known_version c.proxy_protocol_version))

-- `PostInitialize` returns no error exactly for the configurations that satisfy this.
pub post_initialize-accepts :
    (find : String → Option Handle.Outbound) (o : Outbound)
    → ((post_initialize find o).0 ≡ none) ↔ (accepts find o.config ≡ true)
unfolding post_initialize choose_dialer finish_initialize accepts
post_initialize-accepts find o = ground arith
