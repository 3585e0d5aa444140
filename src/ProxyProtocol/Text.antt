-- ===== src/ProxyProtocol/Text.antt =====
-- common/proxyprotocol: the header of version 1, which is text, as client_v1.go writes it and
-- server_v1.go reads it off the cached connection, the choice between the versions and
-- `HandleConnection`. Printing and parsing addresses and ports (net/netip, strconv) are given; so is the
-- reader of version 2 on the connection. Each read has a deadline of ten seconds, which is cleared in the end.
use zbproxy_a.Base.{
  ℕ, ◌+◌, ◌%◌, List, [], ◌∷◌, ◌++◌, Bool, ◌==◌, ◌||◌, if◌then◌else◌, take, drop, Option, none, some,
}
use zbproxy_a.Base.Assoc.{◌===◌, bytes_eq}
use zbproxy_a.Buf.{ok, err, panic, is_hang}
use zbproxy_a.Buf as Buf
use zbproxy_a.Cached.{CachedConn, peek, timed, untimed}
use zbproxy_a.Cached.Until.{Found, peek_until}
use zbproxy_a.ProxyProtocol as ProxyProtocol
use zbproxy_a.ProxyProtocol.{
  AddrPort, Header, Result, unknown_family, unknown_version, high_bits, family_ipv4, family_ipv6,
  transport_protocol_stream, command_local, command_proxy, header_identity_v2, unmap, write_header2,
}

abbrev pub space : List ℕ
space = 32 ∷ []

abbrev pub crlf : List ℕ
crlf = 13 ∷ 10 ∷ []

-- `headerIdentityV1`
abbrev pub header_identity_v1 : List ℕ
header_identity_v1 = b'P' ∷ b'R' ∷ b'O' ∷ b'X' ∷ b'Y' ∷ 32 ∷ []

abbrev pub tcp4 : List ℕ
tcp4 = b'T' ∷ b'C' ∷ b'P' ∷ b'4' ∷ []

abbrev pub tcp6 : List ℕ
tcp6 = b'T' ∷ b'C' ∷ b'P' ∷ b'6' ∷ []

abbrev pub unknown : List ℕ
unknown = b'U' ∷ b'N' ∷ b'K' ∷ b'N' ∷ b'O' ∷ b'W' ∷ b'N' ∷ []

-- net/netip and strconv: an address is whether it is an IPv4 address, and its bytes; none is not valid.
pub record Texts : Type 0 where
  pub format_addr : Option (Bool × List ℕ) → List ℕ
  pub parse_addr : List ℕ → Option (Bool × List ℕ)
  pub format_port : ℕ → List ℕ
  pub parse_port : List ℕ → Option ℕ

abbrev pub address_of : Option AddrPort → Option (Bool × List ℕ)
address_of none = none
address_of (some a) = some ((unmap a).is4, (unmap a).addr)

abbrev pub port_of : Option AddrPort → ℕ
port_of none = 0
port_of (some a) = a.port

pub data Reason : Type 0 where
  read_failed unknown_type bad_address bad_port not_proxy_protocol : Reason

-- A header and the connection behind it, an error, a panic, or a `PeekUntil` without an end; `hangs` is
-- a read that does not return.
pub data Read : Type 0 where
  header : Header → CachedConn → Read
  refused : Reason → Read
  panics endless hangs : Read

abbrev pub on_error : Buf.Error → Read
on_error e = if is_hang e then hangs else refused read_failed

abbrev pub then_until : Found → (List ℕ → List ℕ → CachedConn → Read) → Read
then_until none f = endless
then_until (some (ok (bytes, end, c))) f = f bytes end c
then_until (some (err e)) f = on_error e
then_until (some panic) f = panics

abbrev pub header1 : ℕ → Option AddrPort → Header
header1 transport source = record {
  version = 1;
  command = command_proxy;
  transport_protocol = transport;
  source_address = source;
}

-- The deadline is cleared in the end.
abbrev pub cleared : Read → Read
cleared (header h c) = header h (untimed c)
cleared (refused e) = refused e
cleared panics = panics
cleared endless = endless
cleared hangs = hangs

module _ (texts : Texts) where
  unfoldable pub text_of : Header → Option AddrPort → List ℕ → List ℕ
  text_of h destination kind =
      header_identity_v1
      ++ (kind
          ++ (32
              ∷ (texts.format_addr (address_of h.source_address)
                  ++ (32
                      ∷ (texts.format_addr (address_of destination)
                          ++ (32
                              ∷ (texts.format_port (port_of h.source_address)
                                  ++ (32 ∷ (texts.format_port (port_of destination) ++ crlf)))))))))

  unfoldable pub write_header1 : Header → Option AddrPort → Result (List ℕ)
  unfolding text_of
  write_header1 h destination =
      let family = high_bits h.transport_protocol in
      if family == family_ipv4
      then ProxyProtocol.ok (text_of h destination tcp4)
      else if family == family_ipv6
      then ProxyProtocol.ok (text_of h destination tcp6)
      else if family == 0
      then ProxyProtocol.ok (header_identity_v1 ++ (unknown ++ crlf))
      else ProxyProtocol.err unknown_family

  -- `WriteHeader`
  unfoldable pub write_header : Header → Option AddrPort → Result (List ℕ)
  unfolding write_header1
  write_header h destination =
      if h.version == 1
      then write_header1 h destination
      else if h.version == 2
      then write_header2 h destination
      else ProxyProtocol.err unknown_version

  -- From the source address on.
  unfoldable pub read_addresses : (ℕ → ℕ) → ℕ → CachedConn → Read
  read_addresses burst transport c = then_until (peek_until burst (space ∷ []) c) (λ raw _ c1.
      elim (texts.parse_addr raw) [
        | none ↦ refused bad_address
        | some (is4, addr) ↦ then_until (peek_until burst (space ∷ []) c1) (λ _ _ c2.
            then_until (peek_until burst (space ∷ []) c2) (λ digits _ c3.
              elim (texts.parse_port digits) [
                | none ↦ refused bad_port
                | some port ↦ then_until (peek_until burst (crlf ∷ []) c3) (λ _ _ c4.
                    header
                      (header1 transport
                        (some (unmap (record { is4 = is4; addr = addr; port = port % 65536 }))))
                      c4)
              ]))
      ])

  unfoldable pub read_header1 : (ℕ → ℕ) → CachedConn → Read
  unfolding read_addresses
  read_header1 burst c = then_until (peek_until burst (space ∷ (crlf ∷ [])) c) (λ kind end c1.
      if kind === tcp4
      then read_addresses burst (transport_protocol_stream + family_ipv4) c1
      else if kind === tcp6
      then read_addresses burst (transport_protocol_stream + family_ipv6) c1
      else if kind === unknown
      then (if end === crlf then header (header1 0 none) c1 else read_addresses burst 0 c1)
      else refused unknown_type)

  -- `ReadHeader`
  unfoldable pub read_header : (CachedConn → Read) → (ℕ → ℕ) → CachedConn → Read
  unfolding read_header1
  read_header read2 burst c = cleared (elim (peek burst 6 (timed c)) [
    | err e ↦ on_error e
    | panic ↦ panics
    | ok (identity, c1) ↦
        if identity === header_identity_v1
        then read_header1 burst c1
        else if identity === take 6 header_identity_v2
        then elim (peek burst 6 c1) [
          | err e ↦ on_error e
          | panic ↦ panics
          | ok (rest, c2) ↦
              if rest === drop 6 header_identity_v2 then read2 c2 else refused not_proxy_protocol
        ]
        else refused not_proxy_protocol
  ])

-- `HandleConnection`, with the source address of the metadata: whether it changed, and what it is.
pub data Handled : Type 0 where
  kept : CachedConn → Handled
  set_source : Option AddrPort → CachedConn → Handled
  failed : Reason → Handled
  crashed stuck : Handled

unfoldable pub handle_connection : Read → Option AddrPort → Handled
handle_connection (refused e) source = failed e
handle_connection panics source = crashed
handle_connection endless source = crashed
handle_connection hangs source = stuck
handle_connection (header h c) source =
    if (h.command == command_local) || (h.transport_protocol == 0)
    then kept c
    else set_source (elim h.source_address [ none ↦ source | some a ↦ some a ]) c
