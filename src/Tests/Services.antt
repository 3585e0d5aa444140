-- ===== src/Tests/Services.antt =====
-- Services, the secret and the outbounds on small inputs.
use zbproxy_a.Base.{
  ℕ, inl, ◌≢◌, ◌≡◌, ◌↔◌, refl, List, [], ◌∷◌, ◌++◌, arith, Option, some, none, Bool, true, false,
  inr,
}
use zbproxy_a.Wire.{Conn, closes, stalls}
use zbproxy_a.Wire as Wire
use zbproxy_a.Auth as Auth
use zbproxy_a.Route.Handle as Handle
use zbproxy_a.Auth.{verify, returns, waits, normalize, accepted, write, stored_secret}
use zbproxy_a.Auth.Laws.{verify_accepts_iff, rest_of}
use zbproxy_a.Access.{unset}
use zbproxy_a.Route.Values.{Metadata, String}
use zbproxy_a.Service.{
  Config, Service, Surroundings, new_service, start, reload, start_legacy, start_lists, start_flags,
  listen_tcp, listen_udp, close, close_tcp, close_udp, close_socket, is_socket, tcp_enabled,
  udp_enabled, closed, tcp_listening,
}
use zbproxy_a.Service.Life.{
  Called, made, started_up, reloaded, IsSound, Called-IsSound, reload-failed,
}
use zbproxy_a.Service.Inbound.{
  over_tcp, ip_remote, Headed, header_read, handle_inbound, hand_on, remote_ip, with_secret,
  with_access,
}
use zbproxy_a.Service.Gate.{IsHandedOn, IsAllowed, SentSecret, handle_inbound-IsHandedOn}
use zbproxy_a.Outbound as Outbound
use zbproxy_a.Outbound.{
  Target, tcp_through, opened, connect, send_header, send_secret, no_proxy, absent, as_auto,
  dial_tunnel, tunnel_hop, resolved_transport, post_initialize, udp_without_port, current_transport,
}
use zbproxy_a.Outbound.Settings.{accepts, post_initialize-accepts}
use zbproxy_a.Outbound.Hop.{probed, dial_tunnel-accepts}
use zbproxy_a.Outbound.Chain.{connect-handle_inbound}

abbrev secret : List ℕ
secret = 104 ∷ (105 ∷ [])

abbrev stream : List ℕ → Conn
stream bytes = record { incoming = bytes; ending = stalls; deadline = none }

verify_accepts_iff_example :
    (verify 1 secret 5 (stream (secret ++ (9 ∷ []))) ≡ returns none (rest_of (9 ∷ []) (stream [])))
    ↔ (secret ++ (9 ∷ []) ≡ secret ++ (9 ∷ []))
verify_accepts_iff_example =
    verify_accepts_iff 1 5 secret (9 ∷ []) (stream (secret ++ (9 ∷ []))) (omega arith, omega arith)

abbrev listening : Bool → ℕ → Config
listening requires p = record {
  name = [];
  target_address = [];
  target_port = 0;
  listen = p;
  listen_udp = 25566;
  enable_tcp = true;
  enable_udp = true;
  enable_proxy_protocol = false;
  require_auth_secret = requires;
  ip_mode = unset;
  ip_tags = [];
  minecraft = false;
  tls_sniffing = false;
}

abbrev ports : Bool → Surroundings
ports free = record {
  legacy_ready = λ c. true;
  list_map = none;
  tcp_free = λ p. free;
  udp_free = λ p. true;
}

abbrev running : Service
running = (start (ports true) (new_service (listening false 1) [])).1

running-Called : Called [] running
unfolding new_service
running-Called =
    started_up (new_service (listening false 1) []) (ports true) refl (made (listening false 1))

Called-IsSound_example : IsSound [] (reload (ports true) (listening false 2) running).1
Called-IsSound_example =
    Called-IsSound [] (reload (ports true) (listening false 2) running).1
      (reloaded running (ports true) (listening false 2) running-Called)

reload_refused : (reload (ports false) (listening false 2) running).0 ≡ some tcp_listening
unfolding reload close close_tcp close_udp close_socket is_socket start start_legacy start_lists
    start_flags listen_tcp listen_udp tcp_enabled udp_enabled new_service
reload_refused = refl

reload-failed_example :
    reload (ports true) (listening false 1) (reload (ports false) (listening false 2) running).1
    ≡ (some closed, (reload (ports false) (listening false 2) running).1)
reload-failed_example =
    reload-failed [] (ports false) (ports true) (listening false 2) (listening false 1) running
      tcp_listening (Called-IsSound [] running running-Called) reload_refused

abbrev guarded : Service
guarded = record {
  config = listening true 1;
  tcp_listener = some 1;
  udp_listener = none;
  legacy_outbound = false;
  ip_access_lists = none;
  auth_secret = secret;
  started = true;
  sockets = [];
}

abbrev any_name : ℕ → Bool → String
any_name addr is4 = []

abbrev no_header : Conn → Metadata → Headed
no_header c m = header_read m c

let_in : IsHandedOn (
    handle_inbound any_name no_header 1 guarded over_tcp
      (ip_remote 1 true 2)
      (stream (secret ++ (9 ∷ []))))
unfolding handle_inbound with_secret with_access hand_on verify Auth.judge Wire.read_full
    Wire.set_read_deadline
let_in = tt

handle_inbound-IsHandedOn_example :
    IsAllowed guarded (remote_ip any_name no_header (ip_remote 1 true 2))
    × (guarded.config.require_auth_secret ≡ true
        → (rest : List ℕ) × SentSecret guarded (stream (secret ++ (9 ∷ []))) rest)
handle_inbound-IsHandedOn_example =
    handle_inbound-IsHandedOn any_name no_header 1 guarded over_tcp (ip_remote 1 true 2)
      (stream (secret ++ (9 ∷ []))) (omega arith) let_in

abbrev dual : Outbound.Config
dual = record {
  name = [];
  dialer = [];
  target_address = 103 ∷ [];
  target_port = 25565;
  udp_target_port = 0;
  transport = as_auto;
  legacy_udp = false;
  interval = absent;
  socket_options = false;
  proxy_protocol_version = 0;
  proxy = no_proxy;
  send_auth_secret = true;
}

abbrev sender : Outbound.Outbound
sender = record { config = dual; dialer = none; selector = none; auth_secret = secret }

abbrev visitor : Metadata
visitor = record {
  service_name = [];
  source_addr = 1;
  source_is4 = true;
  source_port = 1;
  destination_hostname = 101 ∷ [];
  destination_port = 80;
  minecraft = none;
}

abbrev nothing_found : String → Option Handle.Outbound
nothing_found name = none

dual_accepted : accepts nothing_found dual ≡ true
unfolding accepts resolved_transport
dual_accepted = refl

post_initialize-accepts_example :
    ((post_initialize nothing_found sender).0 ≡ none) ↔ (accepts nothing_found dual ≡ true)
post_initialize-accepts_example = post_initialize-accepts nothing_found sender

dual_hop : tunnel_hop dual ≡ true
unfolding tunnel_hop resolved_transport
dual_hop = refl

abbrev next_hop : Target
next_hop = tcp_through none (103 ∷ []) 25565

dials_hop : dial_tunnel sender visitor ≡ inr next_hop
unfolding dial_tunnel current_transport tunnel_hop resolved_transport
dials_hop = refl

secret_stored : secret ≡ stored_secret secret
unfolding stored_secret normalize
secret_stored = refl

opens : connect (λ t. true) true none sender visitor ≡ opened next_hop secret
unfolding connect dial_tunnel current_transport tunnel_hop resolved_transport send_secret
    send_header write
opens = refl

connect-handle_inbound_example :
    (sent : List ℕ) × (send_header none sender ≡ inr sent)
    × (handle_inbound any_name no_header 1 guarded over_tcp
          (ip_remote 1 true 2)
          (stream (secret ++ (9 ∷ [])))
        ≡ hand_on any_name no_header guarded
            (ip_remote 1 true 2)
            (rest_of (sent ++ (9 ∷ [])) (stream (secret ++ (9 ∷ [])))))
connect-handle_inbound_example =
    connect-handle_inbound any_name no_header secret sender guarded (λ t. true) true none visitor
      next_hop secret (9 ∷ []) 1 over_tcp (ip_remote 1 true 2) (stream (secret ++ (9 ∷ [])))
      secret_stored secret_stored refl refl tt opens refl

dial_tunnel-accepts_example :
    dial_tunnel (probed ((none, some 3) ∷ []) sender) visitor ≢ inl udp_without_port
dial_tunnel-accepts_example =
    dial_tunnel-accepts nothing_found sender visitor ((none, some 3) ∷ []) dual_accepted
      (omega arith)
