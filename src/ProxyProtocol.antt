-- ===== src/ProxyProtocol.antt =====
-- common/proxyprotocol: the header of version 2, as client_v2.go writes it and server_v2.go reads it
-- behind the 12 bytes of the signature, which the caller has read. An address is given by whether
-- it is an IPv4 address and its bytes; reading takes the header's bytes off the connection.
pub mod RoundTrip
pub mod Text
pub mod Fields
pub mod Recognised
use zbproxy_a.Base.{
  ℕ, ◌+◌, ◌*◌, ◌/◌, ◌%◌, ◌^◌, List, [], ◌∷◌, ◌++◌, Bool, true, false, ltb, ◌==◌, ◌||◌, ◌&&◌, not,
  if◌then◌else◌, Option, none, some, length, take, drop, replicate,
}
use Prim.Native.Nat.{bit_and, bit_or}
use zbproxy_a.Base.Assoc.{◌===◌, bytes_eq}
use zbproxy_a.Base.Bytes.{put_be, uint_be}

pub record AddrPort : Type 0 where
  pub is4 : Bool
  pub addr : List ℕ
  pub port : ℕ

pub record Header : Type 0 where
  pub version : ℕ
  pub command : ℕ
  pub transport_protocol : ℕ
  pub source_address : Option AddrPort

abbrev pub command_local : ℕ
command_local = 0

abbrev pub command_proxy : ℕ
command_proxy = 1

abbrev pub version2 : ℕ
version2 = 2

abbrev pub family_ipv4 : ℕ
family_ipv4 = 16

abbrev pub family_ipv6 : ℕ
family_ipv6 = 32

abbrev pub transport_protocol_stream : ℕ
transport_protocol_stream = 1

-- `x & 0xF0` and `x & 0x0F` of a byte.
abbrev pub high_bits : ℕ → ℕ
high_bits x = bit_and x 240

abbrev pub low_bits : ℕ → ℕ
low_bits x = bit_and x 15

pub data HeaderError : Type 0 where
  unknown_version unknown_command invalid_source invalid_destination unix_socket unknown_family :
      HeaderError
  version_mismatch bad_command short_read : HeaderError

pub data Result {ℓ} (A : Type ℓ) : Type ℓ where
  ok : A → Result A
  err : HeaderError → Result A

-- `headerIdentityV2`
abbrev pub header_identity_v2 : List ℕ
header_identity_v2 =
    13 ∷ (10 ∷ (13 ∷ (10 ∷ (0 ∷ (13 ∷ (10 ∷ (81 ∷ (85 ∷ (73 ∷ (84 ∷ (10 ∷ [])))))))))))

-- The unspecified address of the source's family, for a destination that is not valid.
abbrev pub or_unspecified : ℕ → Bool → Option AddrPort → AddrPort
or_unspecified n is4 none = record { is4 = is4; addr = replicate n 0; port = 0 }
or_unspecified n is4 (some d) = d

abbrev pub same : Bool → Bool → Bool
same true b = b
same false b = not b

-- The address block of a family whose addresses have `n` bytes. An address that is not IPv4 is IPv6.
unfoldable pub write_block : ℕ → Bool → AddrPort → Option AddrPort → Result (List ℕ)
write_block n is4 source destination =
    let to = or_unspecified n is4 destination in
    if not (same source.is4 is4)
    then err invalid_source
    else if not (same to.is4 is4)
    then err invalid_destination
    else ok (
        put_be 2 (2 * n + 4)
        ++ (source.addr ++ (to.addr ++ (put_be 2 source.port ++ put_be 2 to.port))))

unfoldable pub write_addresses : Header → AddrPort → Option AddrPort → Result (List ℕ)
unfolding write_block
write_addresses h source destination =
    if high_bits h.transport_protocol == family_ipv4
    then write_block 4 true source destination
    else if high_bits h.transport_protocol == family_ipv6
    then write_block 16 false source destination
    else if high_bits h.transport_protocol == 48
    then err unix_socket
    else err unknown_family

abbrev pub prefixed : List ℕ → Result (List ℕ) → Result (List ℕ)
prefixed xs (ok ys) = ok (xs ++ ys)
prefixed xs (err e) = err e

-- `h.Version<<4 | h.Command`
abbrev pub version_and_command : Header → ℕ
version_and_command h = bit_or (h.version * 16 % 256) h.command

-- The bytes handed to the writer. The zero value of a header's source address is neither of the
-- families.
unfoldable pub write_header2 : Header → Option AddrPort → Result (List ℕ)
unfolding write_addresses
write_header2 h destination =
    let start = header_identity_v2 ++ (version_and_command h ∷ (h.transport_protocol ∷ [])) in
    if not ((h.command == command_local) || (h.command == command_proxy))
    then err unknown_command
    else if low_bits h.command == command_local
    then ok (start ++ (0 ∷ (0 ∷ [])))
    else elim h.source_address [
      | none ↦ prefixed start (
          if (high_bits h.transport_protocol == family_ipv4)
            || (high_bits h.transport_protocol == family_ipv6)
          then err invalid_source
          else if high_bits h.transport_protocol == 48
          then err unix_socket
          else err unknown_family)
      | some source ↦ prefixed start (write_addresses h source destination)
    ]

-- `conn.Peek(n)` and `buffer.Peek(n)`: the next `n` bytes, and what is behind them.
unfoldable pub peek : ℕ → List ℕ → Result (List ℕ × List ℕ)
peek n bs = if ltb (length bs) n then err short_read else ok (take n bs, drop n bs)

abbrev pub then_do {ℓ κ} : {A : Type ℓ} {B : Type κ} → Result A → (A → Result B) → Result B
then_do (ok a) f = f a
then_do (err e) f = err e

-- The address and port of the source, from a block whose addresses have `n` bytes.
unfoldable pub read_block : ℕ → Bool → List ℕ → Result AddrPort
unfolding peek
read_block n is4 bs = then_do (peek n bs) (λ source. then_do (peek n source.1) (λ destination.
    then_do (peek 2 destination.1) (λ port.
      then_do (peek 2 port.1)
        (λ _. ok (record { is4 = is4; addr = source.0; port = uint_be port.0 })))))

-- `Unmap`: an IPv4 address mapped into IPv6 becomes the IPv4 address.
abbrev pub mapped_prefix : List ℕ
mapped_prefix = replicate 10 0 ++ (255 ∷ (255 ∷ []))

unfoldable pub unmap : AddrPort → AddrPort
unmap a =
    if not a.is4 && (take 12 a.addr === mapped_prefix)
    then record a { is4 = true; addr = drop 12 a.addr }
    else a

abbrev pub map_result {ℓ κ} : {A : Type ℓ} {B : Type κ} → (A → B) → Result A → Result B
map_result f (ok a) = ok (f a)
map_result f (err e) = err e

-- What the command and the family say of the source, from the rest of the header.
unfoldable pub read_source : ℕ → ℕ → List ℕ → Result (Option AddrPort)
unfolding read_block
read_source command tp bs =
    if not (command == command_proxy)
    then ok none
    else if high_bits tp == family_ipv4
    then map_result some (read_block 4 true bs)
    else if high_bits tp == family_ipv6
    then map_result (λ a. some (unmap a)) (read_block 16 false bs)
    else if high_bits tp == 48
    then err unix_socket
    else err unknown_family

abbrev pub known_command : ℕ → Bool
known_command c = (c == command_local) || (c == command_proxy)

-- The fields after the version and command byte `vc`.
unfoldable pub read_fields : ℕ → List ℕ → Result (Header × List ℕ)
unfolding peek read_source
read_fields vc bs = then_do (peek 1 bs) (λ family. then_do (peek 2 family.1) (λ rest_len.
    then_do (peek (uint_be rest_len.0) rest_len.1) (λ rest.
      then_do (read_source (low_bits vc) (uint_be family.0) rest.0) (λ source. ok (
        record {
          version = version2;
          command = low_bits vc;
          transport_protocol = uint_be family.0;
          source_address = source;
        },
        rest.1,
      )))))

-- The bytes after the signature, and those behind the header. The code peeks them off the cached
-- connection, under deadlines; here they are a list.
unfoldable pub read_header2 : List ℕ → Result (Header × List ℕ)
unfolding peek read_fields
read_header2 bs = then_do (peek 1 bs) (λ vc.
    if not (high_bits (uint_be vc.0) == 32)
    then err version_mismatch
    else if not (known_command (low_bits (uint_be vc.0)))
    then err bad_command
    else read_fields (uint_be vc.0) vc.1)
