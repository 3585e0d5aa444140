-- ===== src/Tests/Updates.antt =====
-- An instance with one service, which is updated to a configuration with one outbound and no service.
use zbproxy_a.Base.{
  ℕ, List, [], ◌∷◌, true, false, get_elem?, Option, none, some, ◌==◌, if◌then◌else◌, ◌≡◌, ◌≢◌, refl,
  arith,
}
use zbproxy_a.Base.Assoc.{bytes_eq, bytes_beq_iff, lookup, insert}
use zbproxy_a.Route.Values.{String}
use zbproxy_a.Auth.{stored_secret}
use zbproxy_a.Outbound as Outbound
use zbproxy_a.Outbound.{as_tcp, absent, no_proxy}
use zbproxy_a.Access as Access
use zbproxy_a.Service.{Service, Socket, Surroundings, tcp_socket}
use zbproxy_a.Instance.{
  Instance, Config, update_config, outbound_failed, router_failed, service_failed,
}
use zbproxy_a.Instance.Routing.{built_in, update_router}
use zbproxy_a.Instance.Outbounds.{plain, update_outbounds}
use zbproxy_a.Instance.Services.{update_services}
use zbproxy_a.Instance.Places.{mentioned, PlaceOf, Below}
use zbproxy_a.Instance.Kept.{
  update_config-PlaceOf, update_config-leaks, update_config-failed, update_config-undialed,
}

abbrev lobby : String
lobby = b'l' ∷ []

abbrev entry : String
entry = b'e' ∷ []

abbrev lobby_config : Outbound.Config
lobby_config = record {
  name = lobby;
  dialer = [];
  target_address = 103 ∷ [];
  target_port = 25565;
  udp_target_port = 0;
  transport = as_tcp;
  legacy_udp = false;
  interval = absent;
  socket_options = false;
  proxy_protocol_version = 0;
  proxy = no_proxy;
  send_auth_secret = false;
}

abbrev entry_service : Service
entry_service = record {
  config = record {
    name = entry;
    target_address = [];
    target_port = 0;
    listen = 25565;
    listen_udp = 0;
    enable_tcp = true;
    enable_udp = false;
    enable_proxy_protocol = false;
    require_auth_secret = false;
    ip_mode = Access.unset;
    ip_tags = [];
    minecraft = false;
    tls_sniffing = false;
  };
  tcp_listener = some 25565;
  udp_listener = none;
  legacy_outbound = false;
  ip_access_lists = none;
  auth_secret = [];
  started = true;
  sockets = tcp_socket 25565 ∷ [];
}

-- Rules are numbers, and a rule is refused if it is 9; there are no lists.
abbrev new_rule : ℕ → Option ℕ → Option ℕ
new_rule s lists = if s == 9 then none else some s

abbrev around : List Socket → Surroundings
around sockets = record {
  legacy_ready = λ c. true;
  list_map = none;
  tcp_free = λ p. true;
  udp_free = λ p. true;
}

abbrev with_rules : List ℕ → Config Outbound.Config ℕ ℕ
with_rules rules = record {
  auth_secret = [];
  outbounds = lobby_config ∷ [];
  rules = rules;
  default_name = [];
  lists = none;
  services = [];
}

abbrev before : Instance Outbound.Outbound ℕ ℕ
before = record {
  objects = [];
  outbound_map = [];
  router = record {
    outbound_map = some [];
    list_map = none;
    rules = [];
    default_outbound = built_in;
    started = true;
  };
  services = entry_service ∷ [];
  service_map = (entry, 0) ∷ [];
  sockets = tcp_socket 25565 ∷ [];
}

abbrev after : Instance Outbound.Outbound ℕ ℕ
after = record before {
  objects = Outbound.new_outbound lobby_config ∷ [];
  outbound_map = (lobby, 0) ∷ [];
  router = record before.router { rules = 1 ∷ []; outbound_map = some ((lobby, 0) ∷ []) };
  service_map = [];
}

updated : update_config plain new_rule around (with_rules (1 ∷ [])) before ≡ (none, after)
unfolding update_config update_outbounds update_router update_services insert lookup
    Outbound.new_outbound Outbound.set_auth_secret stored_secret
updated = refl

update_config-PlaceOf_example :
    PlaceOf
      (lookup lobby before.outbound_map)
      (mentioned lobby (lobby ∷ []))
      0
      1
      (lookup lobby after.outbound_map)
    × PlaceOf
        (lookup lobby before.service_map)
        (mentioned lobby [])
        1
        1
        (lookup lobby after.service_map)
update_config-PlaceOf_example =
    update_config-PlaceOf plain new_rule around (with_rules (1 ∷ [])) before after updated lobby

entry_place : lookup entry before.service_map ≡ some 0
unfolding lookup
entry_place = refl

entry_places : (m : String) (k : ℕ) → lookup m before.service_map ≡ some k → (k ≡ 0) × (m ≡ entry)
unfolding lookup
entry_places m k e = ground (arith, bytes_beq_iff entry m)

update_config-leaks_example :
    (get_elem? after.services 0 ≡ some entry_service)
    × ((m : String) → lookup m after.service_map ≢ some 0)
update_config-leaks_example =
    update_config-leaks plain new_rule around (with_rules (1 ∷ [])) before after entry 0 updated
      (λ m k e. omega (arith, (entry_places m k e).0)) entry_place (λ m e. (entry_places m 0 e).1)
      refl

no_place : Below 0 before.outbound_map
unfolding lookup
no_place n k e = cc

lobby_new : lookup lobby before.outbound_map ≡ none
unfolding lookup
lobby_new = refl

update_config-undialed_example :
    (k : ℕ) × (o : Outbound.Outbound) × (lookup lobby after.outbound_map ≡ some k)
    × (get_elem? after.objects k ≡ some o)
    × (o.dialer ≡ none)
    × (o.selector ≡ none)
    × (o.auth_secret ≡ stored_secret [])
update_config-undialed_example =
    update_config-undialed new_rule around (with_rules (1 ∷ [])) before after lobby updated no_place
      lobby_new refl

abbrev half_way : Instance Outbound.Outbound ℕ ℕ
half_way = record before {
  objects = Outbound.new_outbound lobby_config ∷ [];
  router = record before.router { started = false };
}

refused :
    update_config plain new_rule around (with_rules (9 ∷ [])) before
    ≡ (some router_failed, half_way)
unfolding update_config update_outbounds update_router insert lookup Outbound.new_outbound
    Outbound.set_auth_secret stored_secret
refused = refl

update_config-failed_example :
    (half_way.outbound_map ≡ before.outbound_map)
    × (half_way.service_map ≡ before.service_map)
    × (router_failed ≢ service_failed
        → (half_way.services ≡ before.services) × (half_way.sockets ≡ before.sockets))
    × (router_failed ≡ outbound_failed → half_way.router ≡ before.router)
update_config-failed_example =
    update_config-failed plain new_rule around (with_rules (9 ∷ [])) before half_way router_failed
      refused
