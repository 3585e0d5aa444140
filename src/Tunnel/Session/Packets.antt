-- ===== src/Tunnel/Session/Packets.antt =====
-- What `write_packet` of session.go changes, and what it sends.
use zbproxy_a.Base.{
  ℕ, ◌≤◌, ◌≡◌, refl, ap, List, [], ◌∷◌, ◌++◌, Bool, true, false, some, arith, length, All, inl, inr,
  Bool-cases,
}
use zbproxy_a.Tunnel.Limits.{max_payload}
use zbproxy_a.Tunnel.Frame.Layout.{header, encode-header}
use zbproxy_a.Tunnel.Session.{
  Session, Effect, send, on_closed, session_frame, transmit, refuses, write_packet, invoke_closed,
}

-- The bytes of the datagrams among the effects.
abbrev pub datagrams : List Effect → List (List ℕ)
datagrams [] = []
datagrams (send a b ∷ es) = b ∷ datagrams es
datagrams (on_closed id ∷ es) = datagrams es

pub datagrams-append : (xs ys : List Effect) → datagrams (xs ++ ys) ≡ datagrams xs ++ datagrams ys
datagrams-append [] ys = refl
datagrams-append (send a b ∷ xs) ys = ap (λ t. b ∷ t) (datagrams-append xs ys)
datagrams-append (on_closed id ∷ xs) ys = datagrams-append xs ys

-- Two sessions agree on what they send, and on what they receive.
pub record SameSend (s t : Session) : Type 0 where
  pub id_eq : t.id ≡ s.id
  pub send_next_eq : t.send_next ≡ s.send_next
  pub send_slots_eq : t.send_slots ≡ s.send_slots

pub record SameReceive (s t : Session) : Type 0 where
  pub recv_next_eq : t.recv_next ≡ s.recv_next
  pub recv_buf_eq : t.recv_buf ≡ s.recv_buf
  pub recv_valid_eq : t.recv_valid ≡ s.recv_valid
  pub read_buf_eq : t.read_buf ≡ s.read_buf

abbrev pub SameStream : Session → Session → Type 0
SameStream s t = SameSend s t × SameReceive s t

pub write_packet-SameStream :
    (s : Session) (typ seq ack : ℕ) (payload : List ℕ) (io : Bool)
    → SameStream s (write_packet s typ seq ack payload io).0
unfolding write_packet
write_packet-SameStream s typ seq ack payload io = ground arith

pub invoke_closed-SameStream : (s : Session) → SameStream s (invoke_closed s).0
unfolding invoke_closed
invoke_closed-SameStream s = ground arith

pub datagrams-invoke_closed : (s : Session) → datagrams (invoke_closed s).1 ≡ []
unfolding invoke_closed
datagrams-invoke_closed s = ground arith

datagrams-transmit :
    (io : Bool) (b : List ℕ) (s : Session) → All (λ d. d ≡ b) (datagrams (transmit io b s).2)
unfolding transmit
datagrams-transmit io b s = ground arith

-- Whatever it sends is the one frame that it was given.
pub datagrams-write_packet :
    (s : Session) (typ seq ack : ℕ) (payload : List ℕ) (io : Bool)
    → length payload ≤ max_payload
    → All
        (λ d. d ≡ header (session_frame s typ seq ack payload) ++ payload)
        (datagrams (write_packet s typ seq ack payload io).2)
unfolding write_packet
datagrams-write_packet s typ seq ack payload io h = elim (Bool-cases (refuses s typ)) [
  | inl closed ↦ rw closed tt
  | inr open_ ↦
      rw (open_, encode-header s.encode_buf (session_frame s typ seq ack payload) h)
        (datagrams-transmit io _ _)
]

-- An open session with an address and a connection sends the frame.
pub datagrams-write_packet_open :
    (s : Session) (typ seq ack : ℕ) (payload : List ℕ) {a : ℕ}
    → length payload ≤ max_payload
    → s.closed ≡ false
    → s.peer ≡ some a
    → s.has_pc ≡ true
    → datagrams (write_packet s typ seq ack payload true).2
      ≡ (header (session_frame s typ seq ack payload) ++ payload) ∷ []
unfolding write_packet
datagrams-write_packet_open s typ seq ack payload h open_ to pc =
    ground (arith, encode-header s.encode_buf (session_frame s typ seq ack payload) h)
