-- ===== src/Socks.antt =====
-- common/network/socks: the client of SOCKS 4, 4a and 5. Splitting an address, parsing a port and an IP
-- address, looking a name up, parsing the URL and dialling the server are given from outside.
pub mod Calls
pub mod Reads
pub mod Granted5
pub mod Granted4
use zbproxy_a.Base.{
  ℕ, ◌%◌, List, [], ◌∷◌, ◌++◌, Bool, true, false, ◌==◌, ◌&&◌, ◌||◌, not, if◌then◌else◌, length,
  get_or, Option, none, some, ◌⊎◌, inl, inr,
}
use zbproxy_a.Base.Assoc.{◌===◌, bytes_eq}
use zbproxy_a.Base.Bytes.{put_be}
use zbproxy_a.Route.Values.{String}
use zbproxy_a.Socks.Calls.{
  Error, bad_address, bad_port, ipv6_unsupported, unknown_ip, lookup_failed, unresolved,
  bad_version, no_auth_yet, gssapi, no_methods, unknown_method, rejected, no_identd, other_user,
  unknown_reply, not_connected, unknown_client_version, dial_failed, Link, Result, ok, err, waits,
  M, ◌>>=◌, ◌>>◌, fail, done, write, read, read_bytes,
}

-- A `net.IP` as the code looks at it: nil, with four bytes, with sixteen, or of no known form.
pub data Ip : Type 0 where
  not_ip unknown_form : Ip
  ipv4 ipv6 : List ℕ → Ip

pub record Net : Type 0 where
  pub split_host_port : String → Option (String × String)
  pub parse_port : String → Option ℕ
  pub parse_ip : String → Ip
  pub lookup_ip : String → Option (List Ip)

pub record Client : Type 0 where
  pub version : String
  pub address : String
  pub username : String
  pub password : String
  pub methods : List ℕ

pub data Version : Type 0 where
  version5 version4a version4 unknown : Version

abbrev pub socks_name : String
socks_name = b's' ∷ b'o' ∷ b'c' ∷ b'k' ∷ b's' ∷ []

unfoldable pub version_of : String → Version
version_of v =
    if v === (b'5' ∷ [])
    then version5
    else if v === (b'4' ∷ b'a' ∷ [])
    then version4a
    else if v === (b'4' ∷ [])
    then version4
    else if (v === []) || ((v === socks_name) || (v === (socks_name ++ (b'5' ∷ []))))
    then version5
    else if v === (socks_name ++ (b'4' ∷ b'a' ∷ []))
    then version4a
    else if v === (socks_name ++ (b'4' ∷ []))
    then version4
    else unknown

-- `GetVersion`, which keeps the name in lower case.
unfoldable pub get_version : (String → String) → Client → Version × Client
get_version to_lower c = let v = to_lower c.version in (version_of v, record c { version = v })

pub record Url : Type 0 where
  pub scheme : String
  pub username : String
  pub password : String
  pub host : String

-- `NewClientFromURL`, from what `url.Parse` gave.
unfoldable pub new_client_from_url : Option Url → Option Client
new_client_from_url none = none
new_client_from_url (some u) =
    if (u.scheme === socks_name)
      || ((u.scheme === (socks_name ++ (b'5' ∷ []))) || (u.scheme === []))
    then some (record {
      version = b'5' ∷ [];
      address = u.host;
      username = u.username;
      password = u.password;
      methods = [];
    })
    else if u.scheme === (socks_name ++ (b'4' ∷ b'a' ∷ []))
    then some (record {
      version = b'4' ∷ b'a' ∷ [];
      address = u.host;
      username = u.username;
      password = [];
      methods = [];
    })
    else if u.scheme === (socks_name ++ (b'4' ∷ []))
    then some (record {
      version = b'4' ∷ [];
      address = u.host;
      username = u.username;
      password = [];
      methods = [];
    })
    else none

-- The host and the port, with which each handshake begins.
unfoldable pub destination : Net → String → Error ⊎ (String × ℕ)
destination net address = elim (net.split_host_port address) [
  | none ↦ inl bad_address
  | some (host, port) ↦ elim (net.parse_port port) [
    | none ↦ inl bad_port
    | some p ↦ inr (host, p % 65536)
  ]
]

abbrev pub with_destination : Net → String → (String → ℕ → M (Unit {0})) → M (Unit {0})
with_destination net address f = elim (destination net address) [
  | inl e ↦ fail e
  | inr (host, port) ↦ f host port
]

unfoldable pub check_reply4 : List ℕ → M (Unit {0})
check_reply4 resp =
    let version = get_or resp 0 0 in
    let code = get_or resp 1 0 in
    if not (version == 0) && not (version == 4)
    then fail bad_version
    else if code == 0x5a
    then done
    else if code == 0x5b
    then fail rejected
    else if code == 0x5c
    then fail no_identd
    else if code == 0x5d
    then fail other_user
    else fail unknown_reply

unfoldable pub handle_response4 : M (Unit {0})
unfolding check_reply4
handle_response4 = do resp ← read_bytes 2; check_reply4 resp; _ ← read_bytes 6; done

unfoldable pub request4 : Client → ℕ → List ℕ → M (Unit {0})
unfolding handle_response4
request4 c port addr = do
  write (4 ∷ 1 ∷ [])
  write (put_be 2 port)
  write addr
  write c.username
  write (0 ∷ [])
  handle_response4

-- The first IPv4 address of those that a name has.
unfoldable pub first_ipv4 : List Ip → Option (List ℕ)
first_ipv4 [] = none
first_ipv4 (ipv4 a ∷ rest) = some a
first_ipv4 (ipv6 a ∷ rest) = first_ipv4 rest
first_ipv4 (not_ip ∷ rest) = first_ipv4 rest
first_ipv4 (unknown_form ∷ rest) = first_ipv4 rest

unfoldable pub resolve4 : Net → Client → String → ℕ → M (Unit {0})
unfolding first_ipv4 request4
resolve4 net c host port = elim (net.lookup_ip host) [
  | none ↦ fail lookup_failed
  | some list ↦ elim (first_ipv4 list) [ none ↦ fail unresolved | some a ↦ request4 c port a ]
]

unfoldable pub connect4 : Net → Client → String → ℕ → M (Unit {0})
unfolding resolve4 request4
connect4 net c host port = elim (net.parse_ip host) [
  | ipv4 a ↦ request4 c port a
  | ipv6 a ↦ fail ipv6_unsupported
  | not_ip ↦ resolve4 net c host port
  | unknown_form ↦ resolve4 net c host port
]

unfoldable pub handshake4 : Net → Client → String → M (Unit {0})
unfolding destination connect4
handshake4 net c address = with_destination net address (connect4 net c)

-- The name goes to the server behind an address that no host has.
unfoldable pub request_domain4 : Client → String → ℕ → M (Unit {0})
unfolding handle_response4
request_domain4 c host port = do
  write (4 ∷ 1 ∷ [])
  write (put_be 2 port)
  write (0 ∷ 0 ∷ 0 ∷ 233 ∷ [])
  write c.username
  write (0 ∷ [])
  write host
  write (0 ∷ [])
  handle_response4

unfoldable pub connect4a : Net → Client → String → ℕ → M (Unit {0})
unfolding request_domain4 request4
connect4a net c host port = elim (net.parse_ip host) [
  | ipv4 a ↦ request4 c port a
  | ipv6 a ↦ fail ipv6_unsupported
  | not_ip ↦ request_domain4 c host port
  | unknown_form ↦ fail unknown_ip
]

unfoldable pub handshake4a : Net → Client → String → M (Unit {0})
unfolding destination connect4a
handshake4a net c address = with_destination net address (connect4a net c)

-- `Methods` is filled in where it is empty, and kept.
unfoldable pub with_methods : Client → Client
with_methods c = if length c.methods == 0 then record c { methods = 0 ∷ [] } else c

unfoldable pub check_method : List ℕ → M (Unit {0})
check_method resp =
    let method = get_or resp 1 0 in
    if not (get_or resp 0 0 == 5)
    then fail bad_version
    else if method == 0
    then done
    else if method == 2
    then fail no_auth_yet
    else if method == 1
    then fail gssapi
    else if method == 0xff
    then fail no_methods
    else fail unknown_method

unfoldable pub write_address : Ip → String → M (Unit {0})
write_address (ipv4 a) host = do write (1 ∷ []); write a
write_address (ipv6 a) host = do write (4 ∷ []); write a
write_address unknown_form host = fail unknown_ip
write_address not_ip host = do write (3 ∷ (length host % 256) ∷ []); write host

abbrev pub ignored : M (List ℕ) → M (Unit {0})
ignored m = m >>= λ _. done

-- The address that the server bound is read and dropped; of another type, nothing is read.
unfoldable pub skip_address : ℕ → M (Unit {0})
skip_address kind =
    if kind == 1
    then ignored (read 4)
    else if kind == 3
    then (do l ← read_bytes 1; ignored (read (get_or l 0 0)))
    else if kind == 4
    then ignored (read 16)
    else done

unfoldable pub check_reply5 : List ℕ → M (Unit {0})
unfolding skip_address
check_reply5 reply =
    if not (get_or reply 0 0 == 5)
    then fail bad_version
    else if get_or reply 1 0 == 0
    then (do skip_address (get_or reply 3 0); ignored (read_bytes 2))
    else fail not_connected

unfoldable pub handle_reply5 : M (Unit {0})
unfolding check_reply5
handle_reply5 = do reply ← read 4; check_reply5 reply

unfoldable pub request5 : Net → String → ℕ → M (Unit {0})
unfolding write_address handle_reply5
request5 net host port = do
  write (5 ∷ 1 ∷ 0 ∷ [])
  write_address (net.parse_ip host) host
  write (put_be 2 port)
  handle_reply5

unfoldable pub greet5 : Client → M (Unit {0})
unfolding with_methods check_method
greet5 c = do
  write (5 ∷ (length (with_methods c).methods % 256) ∷ [])
  write (with_methods c).methods
  resp ← read 2
  check_method resp

unfoldable pub handshake5 : Net → Client → String → M (Unit {0})
unfolding destination greet5 request5
handshake5 net c address =
    with_destination net address (λ host port. do greet5 c; request5 net host port)

unfoldable pub handshake : Net → (String → String) → Client → String → M (Unit {0})
unfolding get_version handshake5 handshake4a handshake4
handshake net to_lower c address =
    let found = get_version to_lower c in
    elim found.0 [
      | version5 ↦ handshake5 net found.1 address
      | version4a ↦ handshake4a net found.1 address
      | version4 ↦ handshake4 net found.1 address
      | unknown ↦ fail unknown_client_version
    ]

-- A connection that is opened and handed out, or an error, behind which a connection is closed.
pub data Dialed : Type 0 where
  opened : Link → Dialed
  closed : Error → Dialed
  stuck : Dialed

-- `DialContext`, where the server may answer with a connection.
unfoldable pub dial_context : Net → (String → String) → Client → Option Link → String → Dialed
unfolding handshake
dial_context net to_lower c none address = closed dial_failed
dial_context net to_lower c (some l) address = elim (handshake net to_lower c address l) [
  | ok _ l' ↦ opened l'
  | err e l' ↦ closed e
  | waits ↦ stuck
]
