-- ===== src/Tunnel/Listener.antt =====
-- common/udptunnel/listener.go: the sessions of one UDP socket. The map of sessions is an association
-- list, `none` once the listener is closed, and a connection that waits to be accepted is the id of
-- its session. What the network returns is ignored by the code here, as are the encoder's errors.
pub mod Bounds
pub mod Closing
use zbproxy_a.Base.{
  ℕ, ◌≤◌, List, [], ◌∷◌, ◌++◌, Bool, true, false, Option, none, some, leb, ltb, ◌==◌, if◌then◌else◌,
  length, not, ◌&&◌,
}
use zbproxy_a.Base.Assoc.{lookup, insert, remove, nat_eq}
use zbproxy_a.Tunnel.Limits.{
  max_sessions, default_idle_timeout, type_syn, type_synack, type_rst, type_ping, type_pong,
}
use zbproxy_a.Tunnel.Frame.{Frame, Result, ok, err, encode, decode}
use zbproxy_a.Tunnel.Session.{
  Session, Effect, send, on_closed, new_session, write_packet, invoke_closed,
}
use zbproxy_a.Tunnel.Session.Send.{retransmit_tick}
use zbproxy_a.Tunnel.Session.Handler.{on_packet, force_close, idle}

abbrev pub accept_capacity : ℕ
accept_capacity = 32

-- `stuck` says that a call holds `l.mu` and waits for it, so that every later call that takes the
-- lock waits as well.
pub record Listener : Type 0 where
  pub sessions : Option (List (ℕ × Session))
  pub accept_ch : List ℕ
  pub closed : Bool
  pub idle_after : ℕ
  pub stuck : Bool

unfoldable pub listen_packet : Listener
listen_packet = record {
  sessions = some [];
  accept_ch = [];
  closed = false;
  idle_after = default_idle_timeout;
  stuck = false;
}

-- A frame of `typ` for `id`, encoded into a fresh buffer and sent to `addr`.
unfoldable pub send_control : ℕ → ℕ → ℕ → ℕ → List Effect
send_control addr typ id seq =
    elim (encode [] (record { typ = typ; session_id = id; seq = seq; ack = 0; payload = [] })) [
      | ok b ↦ send addr b ∷ []
      | err e ↦ []
    ]

abbrev put_session : ℕ → Session → List (ℕ × Session) → Listener → Listener
put_session id s m l = record l { sessions = some (insert id s m) }

unfoldable pub remove_session : ℕ → Listener → Listener
remove_session id l =
    if l.stuck
    then l
    else elim l.sessions [ none ↦ l | some m ↦ record l { sessions = some (remove id m) } ]

-- The callbacks among the effects of a session, which remove it from the map.
unfoldable pub run_callbacks : List Effect → Listener → Listener
unfolding remove_session
run_callbacks [] l = l
run_callbacks (send a b ∷ es) l = run_callbacks es l
run_callbacks (on_closed id ∷ es) l = run_callbacks es (remove_session id l)

-- `newSession` with `onClosed` set to `removeSession`.
unfoldable pub fresh_session : ℕ → ℕ → ℕ → Session
fresh_session id addr now = record (new_session id addr now) { has_on_closed = true }

-- TypeSYN with no session yet: refused when the table is full or nobody accepts.
unfoldable pub open_session : ℕ → ℕ → ℕ → List (ℕ × Session) → Listener → Listener × List Effect
unfolding send_control
open_session id addr now m l =
    let fresh = fresh_session id addr now in
    let reply = write_packet fresh type_synack 0 0 [] true in
    if leb max_sessions (length m)
    then (l, send_control addr type_rst id 0)
    else if leb accept_capacity (length l.accept_ch)
    then (
      record l { sessions = some (remove id (insert id fresh m)) },
      send_control addr type_rst id 0,
    )
    else (record (put_session id reply.0 m l) { accept_ch = l.accept_ch ++ (id ∷ []) }, reply.2)

-- TypeSYN for a session that is there: the peer may have moved.
unfoldable pub reopen_session :
    ℕ → Session → ℕ → List (ℕ × Session) → Listener → Listener × List Effect
reopen_session id s addr m l =
    let reply = write_packet (record s { peer = some addr }) type_synack 0 0 [] true in
    (put_session id reply.0 m l, reply.2)

unfoldable pub handle_packet :
    Frame → ℕ → ℕ → Session → List (ℕ × Session) → Listener → Listener × List Effect
unfolding run_callbacks
handle_packet f addr now s m l =
    let r = on_packet f (some addr) now s in
    (run_callbacks r.1 (put_session f.session_id r.0 m l), r.1)

unfoldable pub dispatch_session :
    Frame → ℕ → ℕ → List (ℕ × Session) → Listener → Listener × List Effect
unfolding open_session reopen_session handle_packet
dispatch_session f addr now m l = elim (lookup f.session_id m) [
  | none ↦ if f.typ == type_syn then open_session f.session_id addr now m l else (l, [])
  | some s ↦
      if f.typ == type_syn
      then reopen_session f.session_id s addr m l
      else handle_packet f addr now s m l
]

unfoldable pub dispatch : Frame → ℕ → ℕ → Listener → Listener × List Effect
unfolding dispatch_session send_control
dispatch f addr now l =
    if f.typ == type_ping
    then (l, send_control addr type_pong f.session_id f.seq)
    else if l.stuck
    then (l, [])
    else elim l.sessions [ none ↦ (l, []) | some m ↦ dispatch_session f addr now m l ]

-- One round of `readLoop`: a datagram that does not decode is dropped.
unfoldable pub on_decoded : Result Frame → ℕ → ℕ → Listener → Listener × List Effect
on_decoded (ok f) addr now l = dispatch f addr now l
on_decoded (err e) addr now l = (l, [])

unfoldable pub read_datagram : List ℕ → ℕ → ℕ → Listener → Listener × List Effect
unfolding on_decoded
read_datagram d addr now l = on_decoded (decode d) addr now l

-- `timerLoop`, the retransmission tick and the idle tick, over the sessions of the map.
unfoldable pub tick_all : ℕ → List (ℕ × Session) → List (ℕ × Session) × List Effect
tick_all now [] = ([], [])
tick_all now ((id, s) ∷ m) =
    let r = retransmit_tick now s in
    let rest = tick_all now m in ((id, r.0) ∷ rest.0, r.1 ++ rest.1)

unfoldable pub retransmit_all : ℕ → Listener → Listener × List Effect
unfolding tick_all
retransmit_all now l = if l.stuck then (l, []) else elim l.sessions [
  | none ↦ (l, [])
  | some m ↦ let r = tick_all now m in (record l { sessions = some r.0 }, r.1)
]

unfoldable pub drop_idle : ℕ → ℕ → List (ℕ × Session) → List (ℕ × Session)
drop_idle timeout now [] = []
drop_idle timeout now ((id, s) ∷ m) =
    if idle timeout now s then drop_idle timeout now m else (id, s) ∷ drop_idle timeout now m

unfoldable pub recycle : ℕ → Listener → Listener
unfolding drop_idle
recycle now l = if l.stuck then l else elim l.sessions [
  | none ↦ l
  | some m ↦ record l { sessions = some (drop_idle l.idle_after now m) }
]

-- `Accept`: a waiting connection, or none (it waits, or the listener is closed).
unfoldable pub accept : Listener → Listener × Option ℕ
accept l = elim l.accept_ch [ [] ↦ (l, none) | id ∷ ids ↦ (record l { accept_ch = ids }, some id) ]

-- Whether `invokeClosed` of a session calls `removeSession`.
abbrev pub calls_back : Session → Bool
calls_back s = not s.close_cb && s.has_on_closed

-- The loop of `Close` over the map, here in the list's order: the sessions as it leaves them, and
-- whether it came to a callback, which takes `l.mu` while the loop holds it.
unfoldable pub close_all : List (ℕ × Session) → List (ℕ × Session) × Bool
close_all [] = ([], false)
close_all ((id, s) ∷ m) =
    let rest = close_all m in
    let forced = (invoke_closed (force_close s)).0 in
    if calls_back s then ((id, forced) ∷ m, true) else ((id, forced) ∷ rest.0, rest.1)

abbrev pub end_close : List (ℕ × Session) × Bool → Listener → Listener
end_close (m, true) l = record l { closed = true; sessions = some m; stuck = true }
end_close (m, false) l = record l { closed = true; sessions = none }

-- A closed listener or, with a stuck lock, the call that waits for it.
unfoldable pub close : Listener → Listener
unfolding close_all
close l =
    if l.closed
    then l
    else if l.stuck
    then record l { closed = true }
    else elim l.sessions [ none ↦ record l { closed = true } | some m ↦ end_close (close_all m) l ]
