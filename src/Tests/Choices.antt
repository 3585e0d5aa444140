-- ===== src/Tests/Choices.antt =====
-- The selector and the router on small inputs.
use zbproxy_a.Base.{ℕ, ◌≡◌, refl, List, [], ◌∷◌, arith, Option, some, none, true, false}
use zbproxy_a.Selector.{Config, auto, prefer}
use zbproxy_a.Selector.Paths.{run}
use zbproxy_a.Selector.Choice.{expected, prefer-expected}
use zbproxy_a.Route.{Rule, always}
use zbproxy_a.Route.Values.{Metadata, RuleConfig, String}
use zbproxy_a.Route.Handle.{route, reject_name}
use zbproxy_a.Route.Fired.{KeepsDestination, Follows, fired, route-Follows}
use zbproxy_a.Wire.{Conn, closes}
use zbproxy_a.Cached.{CachedConn, new_cached_conn}

abbrev both : Config
both = record { tcp_port = 25565; udp_port = 25566; mode = auto; interval = 1000000000 }

-- UDP answered faster, then TCP failed.
abbrev history : List (Option ℕ × Option ℕ)
history = (none, some 3000000) ∷ ((some 20000000, some 4000000) ∷ [])

prefer-expected_example : prefer (run both history) ≡ expected history
prefer-expected_example = prefer-expected both history (omega arith) (omega arith) refl

abbrev plain : RuleConfig
plain = record {
  rewrite = record { target_address = 104 ∷ []; target_port = 80; rewrite_minecraft = none };
  sniff = [];
  outbound = [];
  invert = false;
}

abbrev refusing : RuleConfig
refusing = record plain { outbound = reject_name }

abbrev client : Metadata
client = record {
  service_name = [];
  source_addr = 1;
  source_is4 = true;
  source_port = 1;
  destination_hostname = [];
  destination_port = 0;
  minecraft = none;
}

abbrev same_string : String → String
same_string s = s

abbrev nothing : Conn
nothing = record { incoming = []; ending = closes; deadline = none }

abbrev no_sniff : List String → CachedConn → Metadata → CachedConn × Metadata
no_sniff names c m = (c, m)

no_sniff-KeepsDestination : KeepsDestination no_sniff
no_sniff-KeepsDestination = record {
  same_hostname = λ names c m. refl;
  same_port = λ names c m. refl;
}

-- A rule that sets the port, and one that rejects.
abbrev rules : List Rule
rules =
    always (record plain { rewrite = record (plain.rewrite) { target_port = 7 } })
    ∷ (always refusing ∷ [])

route-Follows_example :
    Follows none
      (fired same_string no_sniff none rules (new_cached_conn nothing) client)
      client
      (route same_string no_sniff none rules (new_cached_conn nothing) client)
route-Follows_example =
    route-Follows same_string no_sniff none no_sniff-KeepsDestination rules
      (new_cached_conn nothing) client
