-- ===== src/Tunnel/Stream/Kept.antt =====
-- What each method of session.go keeps of the chunks sent and received.
use zbproxy_a.Base.{
  ℕ, ◌^◌, ◌≤◌, ◌<◌, ◌≡◌, ◌∙◌, List, [], ◌++◌, Bool, some, arith, length, All, All-map, get_elem?,
  get_elem?-append,
}
use zbproxy_a.Tunnel.Limits.{max_payload, max_in_flight, type_data}
use zbproxy_a.Tunnel.Frame.{Frame}
use zbproxy_a.Tunnel.Frame.Layout.{header}
use zbproxy_a.Tunnel.Frame.RoundTrip.{IsWire}
use zbproxy_a.Tunnel.Session.{Session, Effect, session_frame, write_packet}
use zbproxy_a.Tunnel.Session.Packets.{
  datagrams, SameSend, SameReceive, SameStream, write_packet-SameStream, datagrams-write_packet,
}
use zbproxy_a.Tunnel.Session.Window.{Receives}
use zbproxy_a.Tunnel.Session.Slots.{IsSent}

-- A datagram is the encoding of a frame that fits the wire, carries the chunk of its number if it is
-- DATA, and acknowledges no more than was received.
abbrev pub IsGood : List (List ℕ) → ℕ → List ℕ → Type 0
IsGood written next d =
    (f : Frame) × IsWire f
    × (d ≡ header f ++ f.payload)
    × (f.typ ≡ type_data → get_elem? written f.seq ≡ some f.payload)
    × (f.ack ≤ next)

-- The sending half of a session, of the chunks `written` so far.
pub record Holds (written : List (List ℕ)) (s : Session) : Type 0 where
  pub numbered : s.send_next ≡ length written
  pub slots : All (IsSent written) s.send_slots
  pub id_lt : s.id < 2 ^ 64
  pub window_le : length s.send_slots ≤ max_in_flight

pub Holds-same : (w : List (List ℕ)) {s t : Session} → SameSend s t → Holds w s → Holds w t
Holds-same w e h = record {
  numbered = e.send_next_eq ∙ h.numbered;
  slots = rw e.send_slots_eq h.slots;
  id_lt = rw e.id_eq h.id_lt;
  window_le = rw e.send_slots_eq h.window_le;
}

pub Receives-same :
    (c : List (List ℕ)) (d : List ℕ) {s t : Session}
    → SameReceive s t
    → Receives c d s
    → Receives c d t
Receives-same c d e r = record {
  next_le = rw e.recv_next_eq r.next_le;
  stream = rw (e.recv_next_eq, e.read_buf_eq) r.stream;
  buf_size = rw e.recv_buf_eq r.buf_size;
  valid_size = rw e.recv_valid_eq r.valid_size;
  window = rw (e.recv_next_eq, e.recv_buf_eq, e.recv_valid_eq) r.window;
}

pub IsGood-mono :
    (w more : List (List ℕ)) (n m : ℕ) (d : List ℕ) → n ≤ m → IsGood w n d → IsGood (w ++ more) m d
IsGood-mono w more n m d le (f, wire, e, sent, ack) =
    (f, wire, e, λ t. get_elem?-append w more f.seq (sent t), omega arith)

pub IsGood-later : (w : List (List ℕ)) (n m : ℕ) (d : List ℕ) → n ≤ m → IsGood w n d → IsGood w m d
IsGood-later w n m d le (f, wire, e, sent, ack) = (f, wire, e, sent, omega arith)

-- What a method keeps: `written` was sent, `c` is what the peer wrote, `d` was delivered.
pub record Keeps (w c : List (List ℕ)) (d : List ℕ) (s : Session) (r : Session × List Effect)
    : Type 0 where
  pub holds : Holds w r.0
  pub receives : Receives c d r.0
  pub forward : s.recv_next ≤ r.0.recv_next
  pub slots_eq : r.0.send_slots ≡ s.send_slots
  pub good : All (IsGood w r.0.recv_next) (datagrams r.1)

module _ (w c : List (List ℕ)) (d : List ℕ) (s : Session) (few : length c < 2 ^ 32) (h : Holds w s)
    (r : Receives c d s) where
  -- One packet that acknowledges `recv_next`.
  pub write_packet-Keeps :
      (typ seq : ℕ) (payload : List ℕ) (io : Bool)
      → typ < 256
      → seq < 2 ^ 32
      → length payload ≤ max_payload
      → (typ ≡ type_data → get_elem? w seq ≡ some payload)
      → Keeps w c d s (
        (write_packet s typ seq s.recv_next payload io).0,
        (write_packet s typ seq s.recv_next payload io).2,
      )
  write_packet-Keeps typ seq payload io ht hs hp sent =
      let (snd, rcv) = write_packet-SameStream s typ seq s.recv_next payload io in
      record {
        holds = Holds-same w snd h;
        receives = Receives-same c d rcv r;
        forward = omega (arith, rcv.recv_next_eq);
        slots_eq = snd.send_slots_eq;
        good =
            All-map _ _ _
              (λ x e. (
                session_frame s typ seq s.recv_next payload,
                record {
                  typ_lt = ht;
                  session_id_lt = h.id_lt;
                  seq_lt = hs;
                  ack_lt = omega (arith, r.next_le);
                  payload_le = hp;
                },
                e,
                sent,
                omega (arith, rcv.recv_next_eq),
              ))
              (datagrams-write_packet s typ seq s.recv_next payload io hp);
      }

  pub Keeps-same : {t : Session} → SameStream s t → Keeps w c d s (t, [])
  Keeps-same {t} (snd, rcv) = record {
    holds = Holds-same w snd h;
    receives = Receives-same c d rcv r;
    forward = omega (arith, rcv.recv_next_eq);
    slots_eq = snd.send_slots_eq;
    good = tt;
  }
