-- ===== src/Tests/Joins.antt =====
-- A login from the client to the server, on a small input.
use zbproxy_a.Base.{
  ℕ, ◌+◌, ◌≡◌, ◌≤◌, ◌<◌, refl, List, [], ◌∷◌, ◌++◌, arith, Option, some, none, true, false, length,
  replicate,
}
use zbproxy_a.Wire.{Conn, closes}
use zbproxy_a.Mc.{var_int_bytes}
use zbproxy_a.Access.{unset, allow, check}
use zbproxy_a.Cached.{CachedConn, At, cache_size, new_cached_conn, rewind_conn}
use zbproxy_a.Cached.Peeks.{new_cached_conn-At}
use zbproxy_a.Route.Values.{Metadata, Minecraft, String, clean_origin_destination}
use zbproxy_a.Sniff.{intent_login, sniff_client_handshake, done, max_packet_size}
use zbproxy_a.Sniff.Login.{handshake_body, login_body, IsHandshake}
use zbproxy_a.Sniff.Recovered.{packet, sniff_client_handshake-packet}
use zbproxy_a.Outbound.{
  Config, Target, tcp_through, opened, connect, dial_tunnel, current_transport, tunnel_hop,
  resolved_transport, send_secret, send_header, no_proxy, absent, unset as no_setting,
}
use zbproxy_a.Inject.{
  passes, World, McOutbound, Settings, AccessConfig, disconnect, joined, inject_connection,
  forward_host, forward_port, connect_server,
}
use zbproxy_a.Inject as Inject
use zbproxy_a.Inject.Forward.{sniff-inject, logged_in}
use zbproxy_a.Inject.Legacy.{handle_legacy, handle_legacy-panics, injected}
use zbproxy_a.Inject.Online.{
  Run, started, stepped, compared, added, none_online, IsCounted, Run-IsCounted,
}

-- "mc" on port 25565, and the player "al".
abbrev host : String
host = 109 ∷ (99 ∷ [])

abbrev name : String
name = 97 ∷ (108 ∷ [])

abbrev uuid : List ℕ
uuid = replicate 16 7

abbrev greeting : List ℕ
greeting = packet (handshake_body 765 host 25565 intent_login)

abbrev login_packet : List ℕ
login_packet = packet (login_body name uuid)

abbrev client : CachedConn
client = new_cached_conn (record {
  incoming = greeting ++ (login_packet ++ (1 ∷ (2 ∷ [])));
  ending = closes;
  deadline = none;
})

client-At : At [] (greeting ++ (login_packet ++ (1 ∷ (2 ∷ [])))) client
client-At = new_cached_conn-At (record {
  incoming = greeting ++ (login_packet ++ (1 ∷ (2 ∷ [])));
  ending = closes;
  deadline = none;
})

greeting_fits : length (handshake_body 765 host 25565 intent_login) ≤ max_packet_size
unfolding var_int_bytes
greeting_fits = omega arith

packets_fit : length greeting + length login_packet ≤ cache_size
unfolding var_int_bytes
packets_fit = omega arith

valid : IsHandshake 765 host 25565 intent_login
valid = (omega arith, omega arith, omega arith, omega arith, omega arith, omega arith, refl)

-- The server "gs".
abbrev config : Config
config = record {
  name = [];
  dialer = [];
  target_address = 103 ∷ (115 ∷ []);
  target_port = 25565;
  udp_target_port = 0;
  transport = no_setting;
  legacy_udp = false;
  interval = absent;
  socket_options = false;
  proxy_protocol_version = 0;
  proxy = no_proxy;
  send_auth_secret = false;
}

abbrev open_to_all : AccessConfig
open_to_all = record { mode = unset; lower_case = false }

abbrev outbound : McOutbound
outbound = record {
  base = record { config = config; dialer = none; selector = none; auth_secret = [] };
  settings = record {
    enable_hostname_rewrite = true;
    rewritten_hostname = [];
    max_online = 20;
    enable_max_limit = true;
    ignore_fml_suffix = true;
    hostname_access = open_to_all;
    name_access = open_to_all;
    ping_mode = disconnect;
    motd_favicon = [];
    motd_description = [];
  };
  hostname_access_lists = [];
  name_access_lists = [];
  online_count = 3;
}

abbrev server : Target
server = tcp_through none (103 ∷ (115 ∷ [])) 25565

abbrev world : World
world = record {
  to_lower = λ s. s;
  motd = [];
  kick_message = λ s. none;
  limit_message = λ s. none;
  client_writes = true;
  server_writes = true;
  over_tcp = false;
  dials = λ t. true;
  opening_writes = true;
  header = λ m. none;
}

abbrev logged : Minecraft
logged = logged_in 765 host 25565 name uuid [] 0

abbrev metadata : Option Minecraft → Metadata
metadata mc = record {
  service_name = [];
  source_addr = 1;
  source_is4 = true;
  source_port = 1;
  destination_hostname = [];
  destination_port = 0;
  minecraft = mc;
}

reaches : (mc : Option Minecraft) → connect_server world outbound (metadata mc) ≡ opened server []
unfolding connect_server connect dial_tunnel current_transport tunnel_hop resolved_transport
    send_secret send_header
reaches mc = refl

-- No host is on the list of those that are allowed.
abbrev closed_outbound : McOutbound
closed_outbound = record outbound {
  settings = record outbound.settings {
    hostname_access = record { mode = allow; lower_case = false };
  };
}

nobody :
    passes world.to_lower
      (record { mode = allow; lower_case = false })
      []
      (clean_origin_destination logged)
    ≡ some false
unfolding check
nobody = refl

host_some : 0 < length (forward_host outbound logged)
unfolding forward_host
host_some = omega arith

host_short : length (forward_host outbound logged) ≤ 8000
unfolding forward_host
host_short = omega arith

sniff-inject_example :
    (d : CachedConn) × (written : List ℕ) × (e : CachedConn) × (sniff_client_handshake
        (λ n. 9)
        none
        client
      ≡ done (logged, d))
    × (inject_connection (λ n. 9) world outbound (metadata (some logged)) d
        ≡ joined server written e)
    × (written ++ e.conn.incoming
        ≡ []
          ++ (packet (
                handshake_body 765
                  (forward_host outbound logged)
                  (forward_port logged)
                  intent_login)
              ++ (login_packet ++ (1 ∷ (2 ∷ [])))))
sniff-inject_example =
    sniff-inject (λ n. 9) 765 host 25565 name uuid (1 ∷ (2 ∷ [])) client world outbound
      (metadata (some logged)) [] 0 server [] valid (omega arith) (omega arith) (omega arith) refl
      greeting_fits packets_fit client-At refl (refl, refl, refl) (reaches (some logged)) refl
      host_some host_short

handle_legacy-panics_example :
    handle_legacy (λ n. 9) world outbound (metadata none) client ≡ injected Inject.panics
handle_legacy-panics_example =
    handle_legacy-panics (λ n. 9) 765 host 25565 name uuid (1 ∷ (2 ∷ [])) client world outbound
      (metadata none) server [] valid (omega arith) (omega arith) (omega arith) refl greeting_fits
      packets_fit client-At refl (refl, refl, refl) (reaches (some logged)) host_some host_short

sniff_client_handshake-packet_example :
    (d : CachedConn) × (sniff_client_handshake (λ n. 0) none client ≡ done (logged, d))
    × At greeting (login_packet ++ (1 ∷ (2 ∷ []))) (rewind_conn (length greeting) d)
sniff_client_handshake-packet_example =
    sniff_client_handshake-packet (λ n. 0) 765 host 25565 intent_login name uuid (1 ∷ (2 ∷ []))
      client valid refl (omega arith) (omega arith) (omega arith) refl greeting_fits packets_fit
      client-At

abbrev short_stream : Conn
short_stream = record { incoming = 5 ∷ (6 ∷ (7 ∷ [])); ending = closes; deadline = none }

one_joined : Run 1 2 (record { max_online = 1; online_count = 1; waiting = 0; playing = 1 })
unfolding none_online
one_joined =
    stepped _ _ (stepped _ _ started (compared (none_online 1) refl) (omega arith))
      (added (record { max_online = 1; online_count = 0; waiting = 1; playing = 0 }) 0
        (omega arith))
      (omega arith)

Run-IsCounted_example :
    IsCounted 1 2 (record { max_online = 1; online_count = 1; waiting = 0; playing = 1 })
Run-IsCounted_example =
    Run-IsCounted 1 2 (record { max_online = 1; online_count = 1; waiting = 0; playing = 1 })
      one_joined
