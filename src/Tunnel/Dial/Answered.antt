-- ===== src/Tunnel/Dial/Answered.antt =====
-- common/udptunnel/dial.go: when `DialTimeout` hands out a connection, and what is closed when it
-- does not.
use zbproxy_a.Base.{
  ℕ, List, [], ◌∙◌, Bool, true, false, eq→==, some, ◌≡◌, inl, inr, arith, Bool-cases,
}
use zbproxy_a.Tunnel.Limits.{type_rst, type_syn}
use zbproxy_a.Tunnel.Frame.{Frame}
use zbproxy_a.Tunnel.Session.{write_packet}
use zbproxy_a.Tunnel.Session.Handler.{on_packet, force_close}
use zbproxy_a.Tunnel.Dial.{
  Client, shutdown, Arrival, datagram, frame_of, on_frame, reader_step, DialStep, begins, rounds,
  dial, begin_dial, on_handshake, on_done, on_tick, dial_step, Outcome, dialing, connected,
  cancelled, timed_out, failed, close_client, session_id,
}
use zbproxy_a.Tunnel.Dial.Life.{on_packet_reset, close-closed, write_packet-SameLife}
use zbproxy_a.Tunnel.Dial.Quiet.{Released, closing, shutdown-Released}
use zbproxy_a.Tunnel.Dial.Invariant.{Dialing, Answered, Dialing-Holds}

connected-handshake :
    (deadline : ℕ) (c : Client)
    → (dial_step deadline on_handshake c).1 ≡ connected
    → c.session.handshake ≡ true
unfolding dial_step
connected-handshake deadline c e = ground (arith, e)

-- When the loop of `DialTimeout` hands out a connection and its session is not closed, a frame of type
-- SYNACK that carries the id of the session is among the datagrams that have come to the socket.
pub dial_step-Answered :
    {random : ℕ} {got : List Arrival} {c : Client} (deadline : ℕ)
    → Dialing random got c
    → (dial_step deadline on_handshake c).1 ≡ connected
    → c.session.closed ≡ false
    → Answered (session_id random) got
unfolding dial_step
dial_step-Answered {random} {got} {c} deadline d e live =
    (Dialing-Holds d).answered (ground (arith, e, live, connected-handshake deadline c e))

-- The outcomes with which `DialTimeout` returns an error.
abbrev pub abandons : Outcome → Bool
abandons o = elim o [
  | dialing ↦ false
  | connected ↦ false
  | cancelled ↦ true
  | timed_out ↦ true
  | failed e ↦ true
]

begin_dial-Released :
    (io : Bool) (c : Client)
    → (c.stopped ≡ true → Released c)
    → abandons (begin_dial io c).1 ≡ true
    → Released (begin_dial io c).0
unfolding begin_dial
begin_dial-Released io c r h =
    let sent = write_packet c.session type_syn 0 0 [] io in
    let same = write_packet-SameLife c.session type_syn 0 0 [] io in
    let after = record c { session = sent.0 } in
    ground (arith, h, shutdown-Released after (λ s. ((r s).0, same.closed_eq ∙ (r s).1)))

-- When `DialTimeout` returns an error, of the first SYN or of its loop, the UDP socket and the session
-- are closed.
pub dial-Released :
    {random : ℕ} {got : List Arrival} {c : Client} (e : DialStep)
    → Dialing random got c
    → abandons (dial e c).1 ≡ true
    → Released (dial e c).0
unfolding dial dial_step
dial-Released {random} {got} {c} (begins io) d h =
    begin_dial-Released io c (Dialing-Holds d).stopped_Released h
dial-Released {random} {got} {c} (rounds deadline on_handshake) d h = ground (arith, h)
dial-Released {random} {got} {c} (rounds deadline on_done) d h =
    shutdown-Released c (Dialing-Holds d).stopped_Released
dial-Released {random} {got} {c} (rounds deadline (on_tick now io)) d h =
    ground (arith, h, shutdown-Released c (Dialing-Holds d).stopped_Released)

-- `Close` of the client's connection leaves the UDP socket and the session closed, whatever came before.
pub close_client-Released :
    {random : ℕ} {got : List Arrival} {c : Client}
    → Dialing random got c
    → Released (close_client c).0
unfolding close_client
close_client-Released {random} {got} {c} d =
    let h = Dialing-Holds d in
    elim (Bool-cases c.close_once) [
      | inl e ↦ ground (arith, e, h.stopped_Released (h.closed_stopped e))
      | inr e ↦ ground (
        arith,
        e,
        shutdown-Released (closing c) (λ s. ((h.stopped_Released s).0, close-closed c.session)),
      )
    ]

on_frame_refused :
    (deadline now source : ℕ) (f : Frame) (c : Client)
    → c.stopped ≡ false
    → (let s = (on_packet f (some source) now c.session).0 in
        (s.closed ≡ true) × (s.handshake ≡ true))
    → f.session_id ≡ c.session.id
    → f.typ ≡ type_rst
    → Released (on_frame now source f c).0
      × ((dial_step deadline on_handshake (on_frame now source f c).0).1 ≡ connected)
unfolding on_frame shutdown force_close dial_step
on_frame_refused deadline now source f c n taken same rst =
    let mine = eq→== f.session_id c.session.id same in
    let is_rst = eq→== f.typ type_rst rst in ground (arith, n, taken, mine, is_rst)

-- When a frame of type RST with the id of the session comes while the reader runs and the session is
-- open, the UDP socket and the session are closed, and the loop of `DialTimeout` that next finds the
-- handshake's channel closed hands the connection out with no error.
pub reader_step_refused :
    (deadline now source : ℕ) (b : List ℕ) (f : Frame) (c : Client)
    → c.reading ≡ true
    → c.stopped ≡ false
    → c.session.closed ≡ false
    → frame_of b ≡ some f
    → f.session_id ≡ c.session.id
    → f.typ ≡ type_rst
    → Released (reader_step now (datagram b source) c).0
      × ((dial_step deadline on_handshake (reader_step now (datagram b source) c).0).1 ≡ connected)
unfolding reader_step dial_step
reader_step_refused deadline now source b f c r n o e same rst =
    let taken = on_packet_reset f (some source) now c.session o rst in
    rw (r, n, e) (on_frame_refused deadline now source f c n taken same rst)
