-- ===== src/Tunnel/Session.antt =====
-- common/udptunnel/session.go: one reliable stream. A method takes the session and returns it with
-- what it sends. The mutex makes each critical section one step; channels of capacity one are the
-- token that `notify` leaves in them, and a blocked call is an outcome of its own.
pub mod Receive
pub mod Send
pub mod Handler
pub mod Window
pub mod Drain
pub mod Packets
pub mod Slots
use zbproxy_a.Base.{
  ℕ, zero, suc, ◌+◌, ◌-◌, ◌*◌, ◌%◌, ◌^◌, List, [], ◌∷◌, ◌++◌, Bool, true, false, not, ◌&&◌, ◌||◌,
  Option, none, some, ltb, leb, ◌==◌, if◌then◌else◌, length, take, drop, get_or, set, copy_at,
  replicate, min,
}
use zbproxy_a.Tunnel.Limits.{
  header_size, max_payload, max_in_flight, default_rto, max_rto, type_synack, type_data, type_ack,
  type_fin, type_rst,
}
use zbproxy_a.Tunnel.Frame.{Frame, FrameError, ok, err, encode}

pub record SendSlot : Type 0 where
  pub content : List ℕ
  pub seq : ℕ
  pub last_send : ℕ

-- A network address is a number. `recv_valid[i]` says whether `recv_buf[i]` holds a payload.
pub record Session : Type 0 where
  pub id : ℕ
  pub has_pc : Bool
  pub peer : Option ℕ
  pub closed : Bool
  pub send_next : ℕ
  pub send_slots : List SendSlot
  pub write_wait : Bool
  pub recv_next : ℕ
  pub recv_buf : List (List ℕ)
  pub recv_valid : List Bool
  pub read_buf : List ℕ
  pub read_wait : Bool
  pub read_eof : Bool
  pub write_fin : Bool
  pub last_active : ℕ
  pub rto : ℕ
  pub encode_buf : List ℕ
  pub handshake : Bool
  pub has_on_closed : Bool
  pub close_cb : Bool

-- A datagram handed to the packet connection, or a call of `onClosed`.
pub data Effect : Type 0 where
  send : ℕ → List ℕ → Effect
  on_closed : ℕ → Effect

pub data NetError : Type 0 where
  net_closed closed_pipe write_failed : NetError
  bad_frame : FrameError → NetError

unfoldable pub new_session : ℕ → ℕ → ℕ → Session
new_session id peer now = record {
  id = id;
  has_pc = true;
  peer = some peer;
  closed = false;
  send_next = 0;
  send_slots = [];
  write_wait = false;
  recv_next = 0;
  recv_buf = replicate max_in_flight [];
  recv_valid = replicate max_in_flight false;
  read_buf = [];
  read_wait = false;
  read_eof = false;
  write_fin = false;
  last_active = now;
  rto = default_rto;
  encode_buf = replicate (header_size + max_payload) 0;
  handshake = false;
  has_on_closed = false;
  close_cb = false;
}

-- `closeCb` runs the callback at most once.
unfoldable pub invoke_closed : Session → Session × List Effect
invoke_closed s =
    if s.close_cb
    then (s, [])
    else (record s { close_cb = true }, if s.has_on_closed then on_closed s.id ∷ [] else [])

-- `pc.WriteTo`, whose success is the argument `io`.
unfoldable pub transmit : Bool → List ℕ → Session → Session × Option NetError × List Effect
transmit io b s = elim s.peer [
  | none ↦ (s, some closed_pipe, [])
  | some a ↦
      if s.has_pc
      then (s, if io then none else some write_failed, send a b ∷ [])
      else (s, some closed_pipe, [])
]

abbrev pub session_frame : Session → ℕ → ℕ → ℕ → List ℕ → Frame
session_frame s typ seq ack payload = record {
  typ = typ;
  session_id = s.id;
  seq = seq;
  ack = ack;
  payload = payload;
}

-- Only control frames leave a closed session.
abbrev pub refuses : Session → ℕ → Bool
refuses s typ =
    s.closed
    && not (typ == type_rst)
    && not (typ == type_fin)
    && not (typ == type_ack)
    && not (typ == type_synack)

-- `Encode` writes into `encode_buf`, which keeps what lies behind the frame.
unfoldable pub write_packet :
    Session → ℕ → ℕ → ℕ → List ℕ → Bool → Session × Option NetError × List Effect
unfolding transmit
write_packet s typ seq ack payload io =
    if refuses s typ
    then (s, some net_closed, [])
    else elim (encode s.encode_buf (session_frame s typ seq ack payload)) [
      | err e ↦ (s, some (bad_frame e), [])
      | ok b ↦ transmit io b (record s { encode_buf = b ++ drop (length b) s.encode_buf })
    ]
