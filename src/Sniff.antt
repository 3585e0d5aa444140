-- ===== src/Sniff.antt =====
-- protocol/minecraft/sniff.go: `SniffClientHandshake`, which reads the handshake and the login packet
-- off a connection without taking them. A length is an int32 by its 32-bit pattern; an index below 0
-- or behind the slice is a panic.
pub mod Steps
pub mod Login
pub mod Recovered
use zbproxy_a.Base.{
  ℕ, ◌+◌, ◌-◌, ◌^◌, List, [], ◌∷◌, ◌++◌, Bool, true, false, ltb, leb, ◌==◌, ◌&&◌, ◌||◌, not,
  if◌then◌else◌, length, copy_at, replicate, Option, none, some,
}
use zbproxy_a.Base.Bytes.{uint_be}
use zbproxy_a.Buf.{Buffer, Result, ok, err, panic, read_byte, advance, as_data, eof, bytes}
use zbproxy_a.Buf as Buf
use zbproxy_a.Mc.{read_var_int, read_var_int_from, read_limited_string, is_negative}
use zbproxy_a.Cached.{CachedConn, current_position}
use zbproxy_a.Cached as Cached
use zbproxy_a.Route.{intent_status, intent_transfer}
use zbproxy_a.Route.Values.{Minecraft}

pub data Error : Type 0 where
  bad_packet : Error
  reading : Buf.Error → Error

-- What a step gives, or the error and the metadata filled in so far.
pub data Sniffed {ℓ} (A : Type ℓ) : Type ℓ where
  done : A → Sniffed A
  refused : Error → Minecraft → Sniffed A
  panics : Sniffed A

abbrev pub attempt {ℓ κ} :
    {A : Type ℓ} {B : Type κ} → Minecraft → Result A → (A → Sniffed B) → Sniffed B
attempt m (ok a) f = f a
attempt m (err e) f = refused (reading e) m
attempt m panic f = panics

abbrev pub followed_by {ℓ κ} : {A : Type ℓ} {B : Type κ} → Sniffed A → (A → Sniffed B) → Sniffed B
followed_by (done a) f = f a
followed_by (refused e m) f = refused e m
followed_by panics f = panics

abbrev pub intent_login : ℕ
intent_login = 2

abbrev pub max_packet_size : ℕ
max_packet_size = 264

abbrev pub boolean_true : ℕ
boolean_true = 1

-- The next state -1, as an int8.
unfoldable pub new_minecraft : Minecraft
new_minecraft = record {
  protocol_version = 0;
  player_name = [];
  origin_destination = [];
  origin_port = 0;
  uuid = replicate 16 0;
  rewritten_destination = [];
  rewritten_port = 0;
  next_state = 255;
  sniff_position = some 0;
}

-- `ReadUint16`
unfoldable pub read_uint16 : Buffer → Result (ℕ × Buffer)
read_uint16 b = Buf.then_do (Buf.peek 2 b) (λ r. ok (uint_be r.0, r.1))

abbrev pub max_int32 : ℕ
max_int32 = 2 ^ 31 - 1

abbrev pub is_intent : ℕ → Bool
is_intent i = (i == intent_login) || ((i == intent_status) || (i == intent_transfer))

-- The port and the intent of the handshake packet.
unfoldable pub sniff_intent : Minecraft → Buffer → Sniffed Minecraft
unfolding read_uint16
sniff_intent m b =
    attempt (record m { origin_port = 0 }) (read_uint16 b)
      (λ p.
        let n : Minecraft = record m { origin_port = p.0 } in
        if p.0 == 0
        then refused bad_packet n
        else attempt n (read_byte p.1) (λ i.
          if is_intent i.0 then done (record n { next_state = i.0 }) else refused bad_packet n))

-- The handshake packet: its identifier, the version, the destination, the port and the intent.
unfoldable pub sniff_handshake : Minecraft → Buffer → Sniffed Minecraft
unfolding sniff_intent
sniff_handshake m b = attempt m (read_byte b) (λ packet.
    if not (packet.0 == 0)
    then refused bad_packet m
    else attempt m (read_var_int packet.1) (λ v.
      if is_negative v.0 || (v.0 == 0)
      then refused bad_packet m
      else let n : Minecraft = record m { protocol_version = v.0 } in
        attempt (record n { origin_destination = [] }) (read_limited_string max_int32 v.2)
          (λ s.
            let o : Minecraft = record n { origin_destination = s.0 } in
            if length s.0 == 0 then refused bad_packet o else sniff_intent o s.1)))

-- `buffer.Advance(int(length))`: a negative length moves back, and behind the start of the slice the
-- next access panics.
unfoldable pub advance_signed : ℕ → Buffer → Result Buffer
advance_signed n b =
    if is_negative n
    then (if ltb b.start (2 ^ 32 - n)
        then panic
        else ok (record b { start = b.start - (2 ^ 32 - n) }))
    else ok (advance n b)

-- `copy(metadata.Minecraft.UUID[:], buffer.Bytes())`
unfoldable pub copy_uuid : Minecraft → Buffer → Sniffed Minecraft
unfolding bytes
copy_uuid m b = attempt m (bytes b) (λ xs. done (record m { uuid = copy_at 0 xs m.uuid }))

abbrev pub is_eof : Buf.Error → Bool
is_eof e = elim e [
  | Buf.eof ↦ true
  | Buf.short_buffer ↦ false
  | Buf.negative_read ↦ false
  | Buf.limit_exceeded ↦ false
  | Buf.bad_length ↦ false
  | Buf.too_big ↦ false
  | Buf.unexpected_eof ↦ false
  | Buf.network ↦ false
  | Buf.no_return ↦ false
]

-- The flag before an optional UUID, which may be missing where `lenient`.
unfoldable pub sniff_uuid : Bool → Minecraft → Buffer → Sniffed Minecraft
unfolding copy_uuid
sniff_uuid lenient m b = elim (read_byte b) [
  | panic ↦ panics
  | err e ↦ if lenient && is_eof e then done m else refused (reading e) m
  | ok r ↦ if r.0 == boolean_true then copy_uuid m r.1 else done m
]

-- The signature data of version 1.19: a timestamp, a key and a signature, each behind its length.
unfoldable pub skip_signature : Minecraft → Buffer → Sniffed Buffer
unfolding advance_signed
skip_signature m b = attempt m (read_var_int (advance 8 b)) (λ k.
    attempt m (advance_signed k.0 k.2)
      (λ c. attempt m (read_var_int c) (λ s. attempt m (advance_signed s.0 s.2) (λ d. done d))))

unfoldable pub sniff_signed : Minecraft → Buffer → Sniffed Minecraft
unfolding skip_signature sniff_uuid
sniff_signed m b = attempt m (read_byte b) (λ r.
    if r.0 == boolean_true
    then followed_by (skip_signature m r.1) (λ c. sniff_uuid true m c)
    else sniff_uuid true m r.1)

-- What follows the name in a login packet, by the protocol version.
unfoldable pub sniff_profile : Minecraft → Buffer → Sniffed Minecraft
unfolding copy_uuid sniff_uuid sniff_signed
sniff_profile m b =
    if leb 764 m.protocol_version
    then (if Buf.len b == 16 then copy_uuid m b else done m)
    else if leb 761 m.protocol_version
    then sniff_uuid false m b
    else if leb 759 m.protocol_version
    then sniff_signed m b
    else done m

-- The login packet.
unfoldable pub sniff_login : Minecraft → Buffer → Sniffed Minecraft
unfolding sniff_profile
sniff_login m b = attempt m (read_byte b) (λ packet.
    if not (packet.0 == 0)
    then refused bad_packet m
    else attempt (record m { player_name = [] }) (read_limited_string 16 packet.1)
        (λ s. sniff_profile (record m { player_name = s.0 }) s.1))

-- `conn.Peek` of an int32 length, which refuses a negative one.
abbrev pub peek_signed : (ℕ → ℕ) → ℕ → CachedConn → Result (List ℕ × CachedConn)
peek_signed burst n c = if is_negative n then err Buf.negative_read else Cached.peek burst n c

-- One packet: its length, and its content.
unfoldable pub read_packet :
    (ℕ → ℕ) → (ℕ → Bool) → Minecraft → CachedConn → Sniffed (List ℕ × CachedConn)
read_packet burst too_large m c = attempt m (read_var_int_from Cached.read_byte c) (λ n.
    if too_large n.0
    then refused bad_packet m
    else attempt m (peek_signed burst n.0 n.2) (λ p. done p))

-- The second packet: a status request of two bytes, or the login.
unfoldable pub sniff_second : (ℕ → ℕ) → Minecraft → CachedConn → Sniffed (Minecraft × CachedConn)
unfolding read_packet sniff_login
sniff_second burst m c =
    if m.next_state == intent_status
    then attempt m (Cached.peek burst 2 c) (λ p. done (m, p.1))
    else followed_by (read_packet burst (λ n. false) m c)
        (λ p. followed_by (sniff_login m (as_data p.0)) (λ n. done (n, p.1)))

-- The deadline is cleared in the end.
abbrev pub cleared : Sniffed (Minecraft × CachedConn) → Sniffed (Minecraft × CachedConn)
cleared (done r) = done (r.0, Cached.untimed r.1)
cleared (refused e m) = refused e m
cleared panics = panics

unfoldable pub sniff_client_handshake :
    (ℕ → ℕ) → Option Minecraft → CachedConn → Sniffed (Minecraft × CachedConn)
unfolding read_packet sniff_handshake sniff_second new_minecraft
sniff_client_handshake burst before c =
    let m : Minecraft = elim before [ none ↦ new_minecraft | some n ↦ n ] in
    let limit : ℕ → Bool = (λ n. not (is_negative n) && ltb max_packet_size n) in
    cleared (
      followed_by (read_packet burst limit m (Cached.timed c)) (λ p.
        followed_by (sniff_handshake m (as_data p.0))
          (λ n. sniff_second burst (record n { sniff_position = current_position p.1 }) p.1)))
