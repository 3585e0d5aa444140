-- ===== src/Tests/Dials.antt =====
-- A dial on small inputs: a SYNACK answers it, a SYN that cannot be written ends it, an RST refuses it;
-- and a read with a deadline.
use zbproxy_a.Base.{ℕ, ◌≡◌, ◌≢◌, arith, refl, [], ◌∷◌, false, true, some}
use zbproxy_a.Tunnel.Limits.{type_synack, type_rst}
use zbproxy_a.Tunnel.Frame.{Frame, decode, encode, fill}
use zbproxy_a.Tunnel.Frame.Layout.{header}
use zbproxy_a.Tunnel.Session.{new_session, write_packet, transmit}
use zbproxy_a.Tunnel.Session.Receive.{read, waiting}
use zbproxy_a.Tunnel.Session.Send.{consume_ack, retransmit_tick}
use zbproxy_a.Tunnel.Session.Handler.{on_packet, dispatch_type, heard_from}
use zbproxy_a.Tunnel.Conn.{Conn, read_round, goes_on}
use zbproxy_a.Tunnel.Conn.Ready.{read_round_unblocked, ticks, nothing}
use zbproxy_a.Tunnel.Dial.{
  Client, new_client, datagram, frame_of, on_frame, reader_step, begin_dial, dial, begins,
  on_handshake, dial_step, connected, session_id,
}
use zbproxy_a.Tunnel.Dial.Quiet.{Released}
use zbproxy_a.Tunnel.Dial.Invariant.{Dialing, fresh, arrived, Answered}
use zbproxy_a.Tunnel.Dial.Answered.{
  dial_step-Answered, dial-Released, abandons, reader_step_refused,
}

abbrev dialer : Client
dialer = new_client 5 1 0

-- What the far end sends.
abbrev answer : ℕ → Frame
answer typ = record { typ = typ; session_id = 5; seq = 0; ack = 0; payload = [] }

abbrev answered : Client
answered = (reader_step 1 (datagram (header (answer type_synack)) 1) dialer).0

answered-frame : frame_of (header (answer type_synack)) ≡ some (answer type_synack)
unfolding frame_of decode header
answered-frame = refl

answered_connected : (dial_step 9 on_handshake answered).1 ≡ connected
unfolding dial_step reader_step frame_of decode on_frame on_packet dispatch_type heard_from
    new_client new_session session_id header
answered_connected = refl

answered_open : answered.session.closed ≡ false
unfolding dial_step reader_step frame_of decode on_frame on_packet dispatch_type heard_from
    new_client new_session session_id header consume_ack
answered_open = refl

answered-Dialing : Dialing 5 (datagram (header (answer type_synack)) 1 ∷ []) answered
answered-Dialing = arrived 1 (datagram (header (answer type_synack)) 1) (fresh 1 0)

dial_step-Answered_example : Answered (session_id 5) (datagram (header (answer type_synack)) 1 ∷ [])
dial_step-Answered_example = dial_step-Answered 9 answered-Dialing answered_connected answered_open

-- The first SYN cannot be written.
unsent_fails : abandons (dial (begins false) dialer).1 ≡ true
unfolding dial begin_dial write_packet transmit encode fill new_client new_session session_id
unsent_fails = refl

dial-Released_example : Released (dial (begins false) dialer).0
dial-Released_example = dial-Released (begins false) (fresh 1 0) unsent_fails

refused_frame : frame_of (header (answer type_rst)) ≡ some (answer type_rst)
unfolding frame_of decode header
refused_frame = refl

dialer_reads : dialer.reading ≡ true
unfolding new_client
dialer_reads = refl

dialer_runs : dialer.stopped ≡ false
unfolding new_client
dialer_runs = refl

dialer_open : dialer.session.closed ≡ false
unfolding new_client new_session
dialer_open = refl

dialer_id : 5 ≡ dialer.session.id
unfolding new_client new_session session_id
dialer_id = refl

reader_step_refused_example :
    Released (reader_step 1 (datagram (header (answer type_rst)) 1) dialer).0
    × ((dial_step 9 on_handshake (reader_step 1 (datagram (header (answer type_rst)) 1) dialer).0).1
        ≡ connected)
reader_step_refused_example =
    reader_step_refused 9 1 1 (header (answer type_rst)) (answer type_rst) dialer dialer_reads
      dialer_runs dialer_open refused_frame dialer_id refl

-- A connection with a byte for its reader and a deadline, and a tick of the clock before the read.
abbrev waiting_conn : Conn
waiting_conn = record {
  session = record (new_session 5 1 0) { read_buf = 9 ∷ [] };
  read_deadline = 5;
  write_deadline = 0;
}

waiting_conn-goes_on : read_round 3 waiting_conn ≡ goes_on
unfolding read_round new_session
waiting_conn-goes_on = refl

read_round_unblocked_example : (read 4 (retransmit_tick 4 waiting_conn.session).0).1 ≢ waiting
read_round_unblocked_example =
    read_round_unblocked waiting_conn 3 4 (ground arith) waiting_conn-goes_on (ticks 4 nothing)
