-- ===== src/Tunnel/Conn/Ready.antt =====
-- common/udptunnel/conn.go: a `Read` with a deadline does not block in `session.read`.
use zbproxy_a.Base.{
  ℕ, zero, suc, ◌-◌, length-append, List, [], ◌∷◌, Bool, true, ltb, length, get_or, take, min,
  if◌then◌else◌, Option, ◌≡◌, ◌≢◌, refl, ◌∙◌, arith,
}
use zbproxy_a.Tunnel.Limits.{type_ack, type_data, type_fin, max_in_flight, max_payload}
use zbproxy_a.Tunnel.Frame.{Frame}
use zbproxy_a.Tunnel.Session.{Session, SendSlot, write_packet, transmit, invoke_closed}
use zbproxy_a.Tunnel.Session.Receive.{read, waiting, store_data, place, deliver, deliver_all}
use zbproxy_a.Tunnel.Session.Send.{
  Writer, consume_ack, write_step, enqueue, retransmit_tick, resend, due, renew, backoff,
}
use zbproxy_a.Tunnel.Session.Handler.{
  on_packet, heard_from, acknowledge, dispatch_type, force_close, close, shut_down,
}
use zbproxy_a.Tunnel.Conn.{Conn, ready, read_round, goes_on}

-- Whatever had something for a reader still has.
abbrev StaysReady : Session → Session → Type 0
StaysReady s t = ready s ≡ true → ready t ≡ true

write_packet-ready :
    (s : Session) (typ seq ack : ℕ) (payload : List ℕ) (io : Bool)
    → ready (write_packet s typ seq ack payload io).0 ≡ ready s
unfolding write_packet transmit
write_packet-ready s typ seq ack payload io = ground arith

deliver-ready : (s : Session) → StaysReady s (deliver s)
unfolding deliver
deliver-ready s h = ground (arith, h, length-append s.read_buf (get_or s.recv_buf 0 []))

deliver_all-ready : (n : ℕ) (s : Session) → StaysReady s (deliver_all n s)
unfolding deliver_all
deliver_all-ready zero s h = h
deliver_all-ready (suc n) s h =
    ground (arith, h, deliver_all-ready n (deliver s) (deliver-ready s h))

place-ready : (off : ℕ) (payload : List ℕ) (s : Session) → ready (place off payload s) ≡ ready s
unfolding place
place-ready off payload s = ground arith

consume_ack-ready : (ack : ℕ) (s : Session) → ready (consume_ack ack s) ≡ ready s
unfolding consume_ack
consume_ack-ready ack s = ground arith

resend-ready :
    (ack : ℕ) (slots : List SendSlot) (s : Session) → ready (resend ack slots s).0 ≡ ready s
unfolding resend
resend-ready ack [] s = refl
resend-ready ack (x ∷ xs) s =
    let sent = write_packet s type_data x.seq ack x.content true in
    resend-ready ack xs sent.0 ∙ write_packet-ready s type_data x.seq ack x.content true

retransmit_tick-ready : (now : ℕ) (s : Session) → ready (retransmit_tick now s).0 ≡ ready s
unfolding retransmit_tick
retransmit_tick-ready now s =
    let renewed = record s {
      send_slots = renew now s.rto s.send_slots;
      rto = if ltb 0 (length (due now s.rto s.send_slots)) then backoff s.rto else s.rto;
    } in
    ground (arith, resend-ready s.recv_next (due now s.rto s.send_slots) renewed)

force_close-ready : (s : Session) → ready (force_close s) ≡ true
unfolding force_close
force_close-ready s = ground arith

invoke_closed-ready : (s : Session) → ready (invoke_closed s).0 ≡ ready s
unfolding invoke_closed
invoke_closed-ready s = ground arith

close-ready : (s : Session) → ready (close s).0 ≡ true
unfolding close shut_down
close-ready s =
    let fin = write_packet (record s { write_fin = true }) type_fin 0 s.recv_next [] true in
    ground (arith, invoke_closed-ready (force_close fin.0), force_close-ready fin.0)

acknowledge-ready : (s : Session) → ready (acknowledge s).0 ≡ ready s
unfolding acknowledge
acknowledge-ready s = write_packet-ready s type_ack 0 s.recv_next [] true

store_data-ready : (f : Frame) (s : Session) → StaysReady s (store_data f s)
unfolding store_data
store_data-ready f s h =
    let off = f.seq - s.recv_next in
    ground (
      arith,
      h,
      deliver_all-ready max_in_flight (place off f.payload s) (place-ready off f.payload s ∙ h),
    )

dispatch_type-ready : (f : Frame) (s : Session) → StaysReady s (dispatch_type f s).0
unfolding dispatch_type
dispatch_type-ready f s h = ground (
  arith,
  h,
  acknowledge-ready (store_data f s) ∙ store_data-ready f s h,
  acknowledge-ready (record s { read_eof = true; read_wait = true }),
  invoke_closed-ready (force_close s) ∙ force_close-ready s,
)

on_packet-ready :
    (f : Frame) (source : Option ℕ) (now : ℕ) (s : Session)
    → StaysReady s (on_packet f source now s).0
unfolding on_packet heard_from
on_packet-ready f source now s h =
    let heard = heard_from source now s in
    ground (
      arith,
      h,
      dispatch_type-ready f heard h,
      dispatch_type-ready f (consume_ack f.ack heard) (consume_ack-ready f.ack heard ∙ h),
    )

write_step-ready :
    (w : Writer) (now : ℕ) (io : Bool) (s : Session) → ready (write_step w now io s).0 ≡ ready s
unfolding write_step enqueue
write_step-ready w now io s =
    let payload = take (min (length w.rest) max_payload) w.rest in
    ground (
      arith,
      write_packet-ready (enqueue payload now s) type_data s.send_next s.recv_next payload io,
    )

-- What other calls do to the session before `Read` gets the lock again, no other `Read` among them.
pub data Meanwhile : Session → Session → Type 0 where
  nothing : {s : Session} → Meanwhile s s
  packets :
      {s t : Session} (f : Frame) (source : Option ℕ) (now : ℕ)
      → Meanwhile s t
      → Meanwhile s (on_packet f source now t).0
  ticks : {s t : Session} (now : ℕ) → Meanwhile s t → Meanwhile s (retransmit_tick now t).0
  writes :
      {s t : Session} (w : Writer) (now : ℕ) (io : Bool)
      → Meanwhile s t
      → Meanwhile s (write_step w now io t).0
  closes : {s t : Session} → Meanwhile s t → Meanwhile s (close t).0
  forces : {s t : Session} → Meanwhile s t → Meanwhile s (force_close t)

Meanwhile-ready : {s t : Session} → Meanwhile s t → StaysReady s t
Meanwhile-ready nothing h = h
Meanwhile-ready (packets {s} {t} f source now m) h =
    on_packet-ready f source now t (Meanwhile-ready m h)
Meanwhile-ready (ticks {s} {t} now m) h = retransmit_tick-ready now t ∙ Meanwhile-ready m h
Meanwhile-ready (writes {s} {t} w now io m) h = write_step-ready w now io t ∙ Meanwhile-ready m h
Meanwhile-ready (closes {s} {t} m) h = close-ready t
Meanwhile-ready (forces {s} {t} m) h = force_close-ready t

going_on-ready :
    (now : ℕ) (c : Conn) → c.read_deadline ≢ 0 → read_round now c ≡ goes_on → ready c.session ≡ true
unfolding read_round
going_on-ready now c d e = ground (arith, d, e)

read-ready : (n : ℕ) (s : Session) → ready s ≡ true → (read n s).1 ≢ waiting
unfolding read
read-ready n s h w = ground (arith, h, w)

-- When a `Read` with a deadline goes on to read the session, and no other `Read` comes between, then
-- it does not wait there, whatever packets, ticks, writes and closes come between.
pub read_round_unblocked :
    {t : Session} (c : Conn) (now n : ℕ)
    → c.read_deadline ≢ 0
    → read_round now c ≡ goes_on
    → Meanwhile c.session t
    → (read n t).1 ≢ waiting
unfolding read_round
read_round_unblocked {t} c now n d e m =
    read-ready n t (Meanwhile-ready m (going_on-ready now c d e))
