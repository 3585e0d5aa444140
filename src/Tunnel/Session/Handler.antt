-- ===== src/Tunnel/Session/Handler.antt =====
-- session.go, the handlers: `onPacket`, `forceCloseLocked`, `close`, `idle`.
use zbproxy_a.Base.{
  ℕ, ◌-◌, List, [], ◌++◌, Bool, true, ◌||◌, Option, none, some, ltb, ◌==◌, if◌then◌else◌,
}
use zbproxy_a.Tunnel.Limits.{type_synack, type_data, type_ack, type_fin, type_rst}
use zbproxy_a.Tunnel.Frame.{Frame}
use zbproxy_a.Tunnel.Session.{Session, Effect, write_packet, invoke_closed}
use zbproxy_a.Tunnel.Session.Receive.{store_data}
use zbproxy_a.Tunnel.Session.Send.{consume_ack}

unfoldable pub force_close : Session → Session
force_close s = if s.closed then s else record s {
  closed = true;
  read_eof = true;
  write_fin = true;
  handshake = true;
  read_wait = true;
  write_wait = true;
}

-- `s.peer = from` unless `from` is nil, and `touch`.
unfoldable pub heard_from : Option ℕ → ℕ → Session → Session
heard_from source now s = record s {
  peer = elim source [ none ↦ s.peer | some a ↦ some a ];
  last_active = now;
}

abbrev pub carries_ack : ℕ → Bool
carries_ack typ = typ == type_ack || typ == type_data || typ == type_synack || typ == type_fin

-- An acknowledgement of everything delivered; its error is ignored.
unfoldable pub acknowledge : Session → Session × List Effect
acknowledge s = let sent = write_packet s type_ack 0 s.recv_next [] true in (sent.0, sent.2)

-- What `onPacket` does by the frame's type, after the acknowledgement is consumed.
unfoldable pub dispatch_type : Frame → Session → Session × List Effect
unfolding acknowledge force_close
dispatch_type f s =
    if f.typ == type_data
    then acknowledge (store_data f s)
    else if f.typ == type_fin
    then acknowledge (record s { read_eof = true; read_wait = true })
    else if f.typ == type_rst
    then invoke_closed (force_close s)
    else if f.typ == type_synack
    then (record s { handshake = true; write_wait = true }, [])
    else if f.typ == type_ack
    then (record s { write_wait = true }, [])
    else (s, [])

unfoldable pub on_packet : Frame → Option ℕ → ℕ → Session → Session × List Effect
unfolding dispatch_type heard_from
on_packet f source now s =
    let heard = heard_from source now s in
    if s.closed
    then (s, [])
    else dispatch_type f (if carries_ack f.typ then consume_ack f.ack heard else heard)

-- One FIN, sent once, and then the session is closed for good. The code lets go of the lock while it
-- sends the FIN; here the call is one step.
unfoldable pub shut_down : Session → Session × List Effect
unfolding force_close
shut_down s =
    let fin = write_packet (record s { write_fin = true }) type_fin 0 s.recv_next [] true in
    let done = invoke_closed (force_close fin.0) in (done.0, fin.2 ++ done.1)

unfoldable pub close : Session → Session × List Effect
unfolding shut_down
close s = if s.closed then (s, []) else shut_down s

unfoldable pub idle : ℕ → ℕ → Session → Bool
idle timeout now s = ltb timeout (now - s.last_active)
