-- ===== src/Inject/Packets.antt =====
-- protocol/minecraft/outbound.go: the handshake packet as it is built in a buffer.
use zbproxy_a.Base.{
  ℕ, ◌+◌, ◌%◌, ◌^◌, ◌≤◌, ◌<◌, List, [], ◌∷◌, ◌++◌, length, ◌≡◌, refl, ap, ap₂, ◌∙◌, arith,
  length-append, append_assoc,
}
use zbproxy_a.Base.Bytes.{put_be, length-put_be}
use zbproxy_a.Buf.{
  Buffer, Result, ok, err, IsValid, unread, bytes, write, put, write_byte, extend, extend_header,
  reset, then_do,
}
use zbproxy_a.Buf as Buf
use zbproxy_a.Mc.{write_var_int, append_packet_length, var_int_bytes, var_int_len}
use zbproxy_a.Mc.RoundTrip.{length-var_int_bytes}
use zbproxy_a.Sniff.Login.{handshake_body}
use zbproxy_a.Sniff.Recovered.{packet}
use zbproxy_a.Inject.Building.{
  ignored, ignored_count, new_buffer, put_uint16, construct_handshake, buffer_size,
}
use zbproxy_a.Inject.Writes.{
  Wrote, write_byte-Wrote, write_var_int-Wrote, write-Wrote, put_uint16-Wrote,
  append_packet_length-unread,
}

-- The longest VarInt has five bytes.
var_int_short : (a : ℕ) → a < 2 ^ 32 → length (var_int_bytes a) ≤ 5
unfolding var_int_len
var_int_short a h = rw (length-var_int_bytes a h) ground arith

abbrev IsBegun : Buffer → List ℕ → Type 0
IsBegun b xs =
    IsValid b × (unread b ≡ xs) × (b.start ≡ 5) × (b.end ≡ 5 + length xs) × (b.size ≡ buffer_size)

IsBegun-Wrote : (b c : Buffer) (xs ys : List ℕ) → IsBegun b xs → Wrote b ys c → IsBegun c (xs ++ ys)
IsBegun-Wrote b c xs ys (v, e, f, g, h) (w, k, l, m, n) =
    (w, k ∙ ap (λ zs. zs ++ ys) e, l ∙ f, omega (arith, m, g, length-append xs ys), n ∙ h)

new_buffer-IsBegun : IsBegun new_buffer []
unfolding new_buffer reset
new_buffer-IsBegun = ((omega arith, omega arith, omega arith), refl, refl, refl, refl)

-- The writes that have begun, with a bound on their length.
abbrev Begun : ℕ → Buffer → List ℕ → Type 0
Begun n b xs = IsBegun b xs × (length xs ≤ n)

Begun-Wrote :
    (n k : ℕ) (b c : Buffer) (xs ys : List ℕ)
    → Begun n b xs
    → length ys ≤ k
    → Wrote b ys c
    → Begun (n + k) c (xs ++ ys)
Begun-Wrote n k b c xs ys (s, h) l w =
    (IsBegun-Wrote b c xs ys s w, omega (arith, length-append xs ys, h, l))

room_for : (n k : ℕ) (b : Buffer) (xs : List ℕ) → Begun n b xs → n + k ≤ 8180 → b.end + k ≤ b.size
room_for n k b xs ((v, e, f, g, z), h) l = omega (arith, g, z, h, l)

write_byte-Begun :
    (n x : ℕ) (b : Buffer) (xs : List ℕ)
    → Begun n b xs
    → n + 1 ≤ 8180
    → (c : Buffer) × (ignored b (write_byte x b) ≡ ok c) × Begun (n + 1) c (xs ++ (x ∷ []))
write_byte-Begun n x b xs s l =
    let (c, r, w) = write_byte-Wrote x b (s.0.0) (room_for n 1 b xs s l) in
    (c, r, Begun-Wrote n 1 b c xs (x ∷ []) s (omega arith) w)

write_var_int-Begun :
    (n a : ℕ) (b : Buffer) (xs : List ℕ)
    → Begun n b xs
    → n + 5 ≤ 8180
    → a < 2 ^ 32
    → (c : Buffer) × (write_var_int (a % 2 ^ 32) b ≡ ok c) × Begun (n + 5) c (xs ++ var_int_bytes a)
write_var_int-Begun n a b xs s l small =
    let short = var_int_short a small in
    let (c, r, w) =
      write_var_int-Wrote a b small (s.0.0) (omega (arith, short, room_for n 5 b xs s l)) in
    (c, r, Begun-Wrote n 5 b c xs (var_int_bytes a) s short w)

write-Begun :
    (n k : ℕ) (ys : List ℕ) (b : Buffer) (xs : List ℕ)
    → Begun n b xs
    → n + k ≤ 8180
    → 0 < length ys
    → length ys ≤ k
    → (c : Buffer) × (ignored_count b (write ys b) ≡ ok c) × Begun (n + k) c (xs ++ ys)
write-Begun n k ys b xs s l pos fits =
    let (c, r, w) = write-Wrote ys b pos (s.0.0) (omega (arith, fits, room_for n k b xs s l)) in
    (c, r, Begun-Wrote n k b c xs ys s fits w)

put_uint16-Begun :
    (n m : ℕ) (b : Buffer) (xs : List ℕ)
    → Begun n b xs
    → n + 2 ≤ 8180
    → (c : Buffer) × (put_uint16 m b ≡ ok c) × Begun (n + 2) c (xs ++ put_be 2 m)
put_uint16-Begun n m b xs s l =
    let (c, r, w) = put_uint16-Wrote m b (s.0.0) (room_for n 2 b xs s l) in
    (c, r, Begun-Wrote n 2 b c xs (put_be 2 m) s (omega (arith, length-put_be 2 m)) w)

-- The length is put before what was written.
append_packet_length-packet :
    (n : ℕ) (b : Buffer) (xs : List ℕ)
    → Begun n b xs
    → n ≤ 8180
    → (c : Buffer) × (append_packet_length (Buf.len b) b ≡ ok c)
      × IsValid c
      × (unread c ≡ packet xs)
append_packet_length-packet n b xs ((v, e, f, g, z), h) l =
    let len : Buf.len b ≡ length xs = omega (arith, f, g) in
    let (c, r, w, u) =
      append_packet_length-unread (Buf.len b) b v (omega (arith, len, h, l))
        (omega (arith, f, var_int_short (Buf.len b) (omega (arith, len, h, l)))) in
    (c, r, w, u ∙ ap₂ (λ m ys. var_int_bytes m ++ ys) len e)

body_append :
    (version host port : List ℕ) (len : List ℕ) (intent : ℕ)
    → ((((((0 ∷ []) ++ version) ++ len) ++ host) ++ port) ++ (intent ∷ []))
      ≡ 0 ∷ (version ++ ((len ++ host) ++ (port ++ (intent ∷ []))))
body_append version host port len intent = simp (append_assoc) refl

-- The handshake packet for a server is built whole in the buffer: the unread bytes are the packet of
-- the protocol, its length included, for any version, any host of up to 8000 bytes, port and intent.
pub construct_handshake-packet :
    (version : ℕ) (host : List ℕ) (port intent : ℕ)
    → version < 2 ^ 32
    → 0 < length host
    → length host ≤ 8000
    → (b : Buffer) × (construct_handshake version host port intent ≡ ok b)
      × IsValid b
      × (unread b ≡ packet (handshake_body version host port intent))
unfolding construct_handshake
construct_handshake-packet version host port intent small pos fits =
    let len = var_int_bytes (length host) in
    let x2 = (0 ∷ []) ++ var_int_bytes version in
    let (c, r1, s1) =
      write_byte-Begun 0 0 new_buffer [] (new_buffer-IsBegun, omega arith) (omega arith) in
    let (d, r2, s2) = write_var_int-Begun 1 version c (0 ∷ []) s1 (omega arith) small in
    let (e, r3, s3) =
      write_var_int-Begun 6 (length host) d x2 s2 (omega arith) (omega (arith, fits)) in
    let (f, r4, s4) = write-Begun 11 8000 host e (x2 ++ len) s3 (omega arith) pos fits in
    let (g, r5, s5) = put_uint16-Begun 8011 port f ((x2 ++ len) ++ host) s4 (omega arith) in
    let (h, r6, s6) =
      write_byte-Begun 8013 intent g (((x2 ++ len) ++ host) ++ put_be 2 port) s5 (omega arith) in
    let (k, r7, v, u) =
      append_packet_length-packet 8014 h ((((x2 ++ len) ++ host) ++ put_be 2 port) ++ (intent ∷ []))
        s6 (omega arith) in
    (
      k,
      rw (r1, r2, r3, r4, r5, r6) r7,
      v,
      u ∙ ap packet (body_append (var_int_bytes version) host (put_be 2 port) len intent),
    )
