-- ===== src/Service/Inbound.antt =====
-- service/service.go: `handleInbound`, from an accepted connection to the router or the legacy
-- outbound. What reading a PROXY protocol header makes of the connection and the metadata is a
-- parameter, as is an address's string.
use zbproxy_a.Base.{ℕ, Bool, true, false, ◌==◌, if◌then◌else◌, Option, none, some, length}
use zbproxy_a.Route.Values.{String, Metadata}
use zbproxy_a.Access.{check}
use zbproxy_a.Auth.{Verdict, returns, waits, verify, default_timeout}
use zbproxy_a.Auth as Auth
use zbproxy_a.Wire.{Conn}
use zbproxy_a.Service.{Service, Config}

pub data Kind : Type 0 where
  over_tcp over_udp : Kind

-- The remote address: a TCP or UDP address, or another kind with its string.
pub data Remote : Type 0 where
  ip_remote : ℕ → Bool → ℕ → Remote
  other_remote : String → Remote

pub data Reason : Type 0 where
  secret_empty : Reason
  secret_refused : Auth.Error → Reason
  not_allowed : Reason
  bad_header : Reason

-- What becomes of the connection; a refused one is closed, and reset first when the flag is set. A
-- bad access mode panics, and a check that never returns keeps the connection.
pub data Fate : Type 0 where
  refused : Bool → Reason → Fate
  to_router : Metadata → Conn → Fate
  to_legacy : Metadata → Conn → Fate
  kept : Fate
  panics : Fate

-- What `proxyprotocol.HandleConnection` gives: an error, or the metadata and the rest of the stream.
pub data Headed : Type 0 where
  header_error : Headed
  header_read : Metadata → Conn → Headed

abbrev pub is_tcp : Kind → Bool
is_tcp over_tcp = true
is_tcp over_udp = false

-- The source address of the metadata, the unspecified IPv4 address for an unknown kind.
unfoldable pub new_metadata : Config → Remote → Metadata
new_metadata c r =
    let source : ℕ × Bool × ℕ = elim r [
      | ip_remote addr is4 port ↦ (addr, is4, port)
      | other_remote name ↦ (0, true, 0)
    ] in
    record {
      service_name = c.name;
      source_addr = source.0;
      source_is4 = source.1;
      source_port = source.2;
      destination_hostname = c.target_address;
      destination_port = c.target_port;
      minecraft = none;
    }

abbrev pub on_verdict : Kind → Verdict → (Conn → Fate) → Fate
on_verdict k (returns none c) next = next c
on_verdict k (returns (some e) c) next = refused (is_tcp k) (secret_refused e)
on_verdict k waits next = kept

-- The check of the secret.
unfoldable pub with_secret : ℕ → Service → Kind → Conn → (Conn → Fate) → Fate
with_secret now s k c next =
    if s.config.require_auth_secret
    then (if length s.auth_secret == 0
        then refused (is_tcp k) secret_empty
        else on_verdict k (verify now s.auth_secret default_timeout c) next)
    else next c

abbrev pub on_check : Kind → Option Bool → Fate → Fate
on_check k none next = panics
on_check k (some false) next = refused (is_tcp k) not_allowed
on_check k (some true) next = next

-- The check of the remote address, made only where the lists are loaded.
unfoldable pub with_access : Service → Kind → String → Fate → Fate
with_access s k ip next = elim s.ip_access_lists [
  | none ↦ next
  | some lists ↦ on_check k (check lists s.config.ip_mode ip) next
]

abbrev pub on_headed : Headed → (Metadata → Conn → Fate) → Fate
on_headed header_error next = refused false bad_header
on_headed (header_read m c) next = next m c

module _ (ip_string : ℕ → Bool → String) (handle_proxy : Conn → Metadata → Headed) where
  abbrev pub remote_ip : Remote → String
  remote_ip (ip_remote addr is4 port) = ip_string addr is4
  remote_ip (other_remote name) = name

  -- The PROXY protocol header, then the legacy outbound or the router.
  unfoldable pub hand_on : Service → Remote → Conn → Fate
  hand_on s r c =
      let m = new_metadata s.config r in
      let deliver : Metadata → Conn → Fate =
        (λ n d. if s.legacy_outbound then to_legacy n d else to_router n d) in
      if s.config.enable_proxy_protocol then on_headed (handle_proxy c m) deliver else deliver m c

  unfoldable pub handle_inbound : ℕ → Service → Kind → Remote → Conn → Fate
  handle_inbound now s k r c =
      with_secret now s k c (λ d. with_access s k (remote_ip r) (hand_on s r d))
