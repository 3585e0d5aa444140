-- ===== src/Tunnel/Frame/RoundTrip.antt =====
-- `decode` against `encode`.
use zbproxy_a.Base.{ℕ, ◌≤◌, ◌<◌, ◌^◌, ◌≡◌, refl, List, [], ◌∷◌, ◌++◌, arith, length, take_all}
use zbproxy_a.Base.Bytes.{uint_le-put_le}
use zbproxy_a.Tunnel.Limits.{max_payload}
use zbproxy_a.Tunnel.Frame.{Frame, ok, encode, decode}
use zbproxy_a.Tunnel.Frame.Layout.{header, encode-header}

-- The header's fields have their Go widths, and the payload fits a datagram.
pub record IsWire (f : Frame) : Type 0 where
  pub typ_lt : f.typ < 256
  pub session_id_lt : f.session_id < 2 ^ 64
  pub seq_lt : f.seq < 2 ^ 32
  pub ack_lt : f.ack < 2 ^ 32
  pub payload_le : length f.payload ≤ max_payload

length_zero : (xs : List ℕ) → length xs ≡ 0 → [] ≡ xs
length_zero [] e = refl
length_zero (x ∷ xs) e = absurd (omega arith)

pub decode-header : (f : Frame) → IsWire f → decode (header f ++ f.payload) ≡ ok f
unfolding decode header
decode-header f w = ground (
  arith,
  uint_le-put_le 2 (length f.payload),
  uint_le-put_le 8 f.session_id,
  uint_le-put_le 4 f.seq,
  uint_le-put_le 4 f.ack,
  take_all (length f.payload) f.payload,
  length_zero f.payload,
)

-- A frame that fits the wire survives the trip, into any buffer: `decode` returns each field and the
-- payload of the frame that was encoded.
pub decode-encode :
    (dst : List ℕ) (f : Frame) → IsWire f → (b : List ℕ) × (encode dst f ≡ ok b) × (decode b ≡ ok f)
decode-encode dst f w = (header f ++ f.payload, encode-header dst f w.payload_le, decode-header f w)
