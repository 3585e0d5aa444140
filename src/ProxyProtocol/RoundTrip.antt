-- ===== src/ProxyProtocol/RoundTrip.antt =====
-- common/proxyprotocol: the reader on what the writer wrote.
use zbproxy_a.Base.{
  ℕ, ◌+◌, ◌*◌, ◌^◌, ◌≤◌, ◌<◌, ◌≡◌, refl, ap, ap₂, sym, ◌∙◌, List, [], ◌∷◌, ◌++◌, Bool, true, false,
  Option, some, arith, length, length-append, take-append, drop-append, le→ltb,
}
use zbproxy_a.Base.Bytes.{put_be, length-put_be, uint_be-put_be}
use zbproxy_a.ProxyProtocol.{
  AddrPort, Header, Result, ok, peek, then_do, read_block, read_source, read_fields, read_header2,
  write_block, write_addresses, write_header2, unmap, high_bits, family_ipv4, family_ipv6, version2,
  command_proxy, header_identity_v2, map_result, prefixed,
}

peek-append : (xs ys : List ℕ) (n : ℕ) → n ≡ length xs → peek n (xs ++ ys) ≡ ok (xs, ys)
unfolding peek
peek-append xs ys n e =
    rw
      (
        le→ltb (length (xs ++ ys)) n (omega (arith, length-append xs ys)),
        take-append n xs ys e,
        drop-append n xs ys e,
      )
      refl

-- The block of a source and a destination.
abbrev block : ℕ → AddrPort → AddrPort → List ℕ
block n s d = s.addr ++ (d.addr ++ (put_be 2 s.port ++ put_be 2 d.port))

length-block :
    (n : ℕ) (s d : AddrPort)
    → length s.addr ≡ n
    → length d.addr ≡ n
    → length (block n s d) ≡ 2 * n + 4
length-block n s d e f = omega (
  arith,
  length-append s.addr (d.addr ++ (put_be 2 s.port ++ put_be 2 d.port)),
  length-append d.addr (put_be 2 s.port ++ put_be 2 d.port),
  length-append (put_be 2 s.port) (put_be 2 d.port),
  length-put_be 2 s.port,
  length-put_be 2 d.port,
)

read_block-block :
    (n : ℕ) (is4 : Bool) (s d : AddrPort)
    → length s.addr ≡ n
    → length d.addr ≡ n
    → s.is4 ≡ is4
    → s.port < 2 ^ 16
    → read_block n is4 (block n s d) ≡ ok s
unfolding read_block
read_block-block n is4 s d e f g h =
    rw
      (
        peek-append s.addr (d.addr ++ (put_be 2 s.port ++ put_be 2 d.port)) n (sym e),
        peek-append d.addr (put_be 2 s.port ++ put_be 2 d.port) n (sym f),
      )
      (ap₂ (λ i p. ok (record { is4 = i; addr = s.addr; port = p })) (sym g)
        (uint_be-put_be 2 s.port (omega arith)))

-- The header of a proxied connection.
abbrev pub proxied : ℕ → AddrPort → Header
proxied tp s = record {
  version = version2;
  command = command_proxy;
  transport_protocol = tp;
  source_address = some s;
}

-- The bytes of the fields behind the version and command.
abbrev fields : ℕ → ℕ → AddrPort → AddrPort → List ℕ
fields tp n s d = tp ∷ (put_be 2 (2 * n + 4) ++ block n s d)

-- The header, when its source is known.
abbrev finish : ℕ → List ℕ → Result (Option AddrPort) → Result (Header × List ℕ)
finish tp rest r = then_do r (λ source. ok (
  record {
    version = version2;
    command = command_proxy;
    transport_protocol = tp;
    source_address = source;
  },
  rest,
))

read_fields-fields :
    (tp n : ℕ) (s d : AddrPort) (rest : List ℕ)
    → length s.addr ≡ n
    → length d.addr ≡ n
    → n ≤ 16
    → read_source 1 tp (block n s d) ≡ ok (some s)
    → read_fields 33 (fields tp n s d ++ rest) ≡ ok (proxied tp s, rest)
unfolding read_fields
read_fields-fields tp n s d rest e f small h =
    rw
      (
        peek-append (tp ∷ []) (put_be 2 (2 * n + 4) ++ (block n s d ++ rest)) 1 refl,
        peek-append (put_be 2 (2 * n + 4)) (block n s d ++ rest) 2 refl,
        uint_be-put_be 2 (2 * n + 4) (omega arith),
        peek-append (block n s d) rest (2 * n + 4) (sym (length-block n s d e f)),
      )
      (ap (λ t. finish t rest (read_source 1 t (block n s d))) {x = 0 + tp} {y = tp} (omega arith)
        ∙ ap (finish tp rest) h)

-- What the round trip asks of a family whose addresses have `n` bytes.
pub record Fits (tp n : ℕ) (is4 : Bool) (s d : AddrPort) : Type 0 where
  pub source_is4 : s.is4 ≡ is4
  pub destination_is4 : d.is4 ≡ is4
  pub source_size : length s.addr ≡ n
  pub destination_size : length d.addr ≡ n
  pub port_lt : s.port < 2 ^ 16

written :
    (tp n : ℕ) (is4 : Bool) (s d : AddrPort)
    → Fits tp n is4 s d
    → write_block n is4 s (some d) ≡ ok (put_be 2 (2 * n + 4) ++ block n s d)
unfolding write_block
written tp n true s d w = rw (w.source_is4, w.destination_is4) refl
written tp n false s d w = rw (w.source_is4, w.destination_is4) refl

-- A proxied header of version 2 for IPv4 is written to the signature and bytes that are read back,
-- whatever follows them, as this header, and those that follow are left.
read_header2-write_header2_ipv4 :
    (tp : ℕ) (s d : AddrPort) (rest : List ℕ)
    → high_bits tp ≡ family_ipv4
    → Fits tp 4 true s d
    → (out : List ℕ) × (write_header2 (proxied tp s) (some d) ≡ ok (header_identity_v2 ++ out))
      × (read_header2 (out ++ rest) ≡ ok (proxied tp s, rest))
unfolding write_header2 write_addresses read_header2 read_source
read_header2-write_header2_ipv4 tp s d rest f w =
    let e : read_source 1 tp (block 4 s d) ≡ ok (some s) = rw f (
      ap (map_result some)
        (read_block-block 4 true s d w.source_size w.destination_size w.source_is4 w.port_lt)) in
    (
      33 ∷ fields tp 4 s d,
      rw f (ap (prefixed (header_identity_v2 ++ (33 ∷ (tp ∷ [])))) (written tp 4 true s d w)),
      rw (peek-append (33 ∷ []) (fields tp 4 s d ++ rest) 1 refl)
          (read_fields-fields tp 4 s d rest w.source_size w.destination_size (omega arith) e),
    )

-- A proxied header of version 2 for IPv6, with a source that is not an IPv4 address mapped into IPv6,
-- is written to the signature and bytes that are read back, whatever follows them, as this header,
-- and those that follow are left.
pub read_header2-write_header2_ipv6 :
    (tp : ℕ) (s d : AddrPort) (rest : List ℕ)
    → high_bits tp ≡ family_ipv6
    → Fits tp 16 false s d
    → unmap s ≡ s
    → (out : List ℕ) × (write_header2 (proxied tp s) (some d) ≡ ok (header_identity_v2 ++ out))
      × (read_header2 (out ++ rest) ≡ ok (proxied tp s, rest))
unfolding write_header2 write_addresses read_header2 read_source
read_header2-write_header2_ipv6 tp s d rest f w u =
    let e : read_source 1 tp (block 16 s d) ≡ ok (some s) = rw f (
      ap (map_result (λ a. some (unmap a)))
        (read_block-block 16 false s d w.source_size w.destination_size w.source_is4 w.port_lt)
      ∙ ap (λ a. ok (some a)) u) in
    (
      33 ∷ fields tp 16 s d,
      rw f (ap (prefixed (header_identity_v2 ++ (33 ∷ (tp ∷ [])))) (written tp 16 false s d w)),
      rw (peek-append (33 ∷ []) (fields tp 16 s d ++ rest) 1 refl)
          (read_fields-fields tp 16 s d rest w.source_size w.destination_size (omega arith) e),
    )
