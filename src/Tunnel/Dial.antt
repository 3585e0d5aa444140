-- ===== src/Tunnel/Dial.antt =====
-- common/udptunnel/dial.go: the client's end of a tunnel. The reader's goroutine and the loop of
-- `DialTimeout` share the session: each round of either is one step, and what wakes it an argument.
-- Resolving the address and opening the UDP socket come before.
pub mod Life
pub mod Quiet
pub mod Invariant
pub mod Answered
use zbproxy_a.Base.{
  ℕ, ◌+◌, List, [], ◌∷◌, ◌++◌, Bool, true, false, not, ◌==◌, ltb, ◌&&◌, if◌then◌else◌, take, Option,
  none, some,
}
use zbproxy_a.Tunnel.Limits.{header_size, max_payload, type_syn, type_rst, type_ping, type_pong}
use zbproxy_a.Tunnel.Frame.{Frame, ok, err, encode, decode}
use zbproxy_a.Tunnel.Session.{Session, Effect, NetError, new_session, write_packet}
use zbproxy_a.Tunnel.Session.Send.{retransmit_tick}
use zbproxy_a.Tunnel.Session.Handler.{on_packet, force_close, close}

-- `reading` is whether the reader's goroutine runs, `close_once` the once of `clientConn`.
pub record Client : Type 0 where
  pub session : Session
  pub socket_open : Bool
  pub stopped : Bool
  pub reading : Bool
  pub close_once : Bool

-- A random 64-bit number, and never 0.
unfoldable pub session_id : ℕ → ℕ
session_id random = if random == 0 then 1 else random

unfoldable pub new_client : ℕ → ℕ → ℕ → Client
unfolding new_session session_id
new_client random peer now = record {
  session = new_session (session_id random) peer now;
  socket_open = true;
  stopped = false;
  reading = true;
  close_once = false;
}

unfoldable pub shutdown : Client → Client
unfolding force_close
shutdown c =
    if c.stopped
    then c
    else record c { stopped = true; session = force_close c.session; socket_open = false }

-- What `ReadFrom` gives the reader: a datagram and where it comes from, the end of half a second, or an
-- error.
pub data Arrival : Type 0 where
  datagram : List ℕ → ℕ → Arrival
  read_timeout read_error : Arrival

-- The frame of a datagram, of which the reader's buffer takes so many bytes.
unfoldable pub frame_of : List ℕ → Option Frame
frame_of b = elim (decode (take (header_size + max_payload + 64) b)) [
  | ok f ↦ some f
  | err e ↦ none
]

unfoldable pub on_frame : ℕ → ℕ → Frame → Client → Client × List Effect
unfolding shutdown
on_frame now source f c =
    let r = on_packet f (some source) now c.session in
    let after = record c { session = r.0 } in
    if not (f.session_id == c.session.id)
    then (c, [])
    else if f.typ == type_rst
    then (record (shutdown after) { reading = false }, r.1)
    else (after, r.1)

-- A round of the reader.
unfoldable pub reader_step : ℕ → Arrival → Client → Client × List Effect
unfolding frame_of on_frame
reader_step now a c =
    if not c.reading
    then (c, [])
    else if c.stopped
    then (record c { reading = false }, [])
    else elim a [
      | read_error ↦ (record (shutdown c) { reading = false }, [])
      | read_timeout ↦
          let r = retransmit_tick now c.session in
          if c.session.closed
          then (record c { reading = false }, [])
          else (record c { session = r.0 }, r.1)
      | datagram b source ↦ elim (frame_of b) [ none ↦ (c, []) | some f ↦ on_frame now source f c ]
    ]

pub data Outcome : Type 0 where
  dialing connected cancelled timed_out : Outcome
  failed : NetError → Outcome

-- The SYN with which `DialTimeout` begins.
unfoldable pub begin_dial : Bool → Client → Client × Outcome × List Effect
begin_dial io c =
    let sent = write_packet c.session type_syn 0 0 [] io in
    let after = record c { session = sent.0 } in
    elim sent.1 [ none ↦ (after, dialing, sent.2) | some e ↦ (shutdown after, failed e, sent.2) ]

-- What the select of the loop takes: the channel of the handshake, if it is closed, the context's end,
-- or a tick of the clock, at which the SYN is sent again.
pub data Selected : Type 0 where
  on_handshake on_done : Selected
  on_tick : ℕ → Bool → Selected

unfoldable pub dial_step : ℕ → Selected → Client → Client × Outcome × List Effect
dial_step deadline on_handshake c = (c, if c.session.handshake then connected else dialing, [])
dial_step deadline on_done c = (shutdown c, cancelled, [])
dial_step deadline (on_tick now io) c =
    let sent = write_packet c.session type_syn 0 0 [] io in
    if ltb deadline now
    then (shutdown c, timed_out, [])
    else (record c { session = sent.0 }, dialing, sent.2)

-- A step of `DialTimeout` itself: it begins, or its loop goes round.
pub data DialStep : Type 0 where
  begins : Bool → DialStep
  rounds : ℕ → Selected → DialStep

unfoldable pub dial : DialStep → Client → Client × Outcome × List Effect
unfolding begin_dial dial_step
dial (begins io) c = begin_dial io c
dial (rounds deadline e) c = dial_step deadline e c

-- `Close` of the client's connection.
unfoldable pub close_client : Client → Client × List Effect
close_client c =
    let r = close c.session in
    if c.close_once
    then (c, [])
    else (shutdown (record c { session = r.0; close_once = true }), r.1)

-- `ProbeRTT`: the PING, and the place of the answer among the datagrams that come before the deadline.
unfoldable pub ping : ℕ → Frame
ping id = record { typ = type_ping; session_id = id; seq = 1; ack = 0; payload = [] }

unfoldable pub is_pong : ℕ → List ℕ → Bool
is_pong id b = elim (decode (take (header_size + 64) b)) [
  | err e ↦ false
  | ok f ↦ (f.typ == type_pong) && (f.session_id == id)
]

unfoldable pub probe_rtt : ℕ → List (List ℕ) → Option ℕ
unfolding is_pong
probe_rtt id [] = none
probe_rtt id (b ∷ rest) = elim (is_pong id b) [
  | true ↦ some 0
  | false ↦ elim (probe_rtt id rest) [ none ↦ none | some n ↦ some (n + 1) ]
]
