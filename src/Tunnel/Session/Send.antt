-- ===== src/Tunnel/Session/Send.antt =====
-- session.go, the sending side: `consumeAckLocked`, `write`, `retransmitTick`.
use zbproxy_a.Base.{
  ℕ, ◌+◌, ◌-◌, ◌*◌, ◌%◌, ◌^◌, List, [], ◌∷◌, ◌++◌, Bool, true, false, not, ◌&&◌, ◌||◌, Option, none,
  some, ltb, leb, ◌==◌, if◌then◌else◌, length, take, drop, min,
}
use zbproxy_a.Tunnel.Limits.{max_payload, max_in_flight, default_rto, max_rto, type_data}
use zbproxy_a.Tunnel.Session.{Session, SendSlot, Effect, NetError, net_closed, write_packet}

-- The slots that an acknowledgement of everything below `ack` leaves, in their order.
unfoldable pub unacked : ℕ → List SendSlot → List SendSlot
unacked ack [] = []
unacked ack (slot ∷ slots) =
    if ltb slot.seq ack then unacked ack slots else slot ∷ unacked ack slots

unfoldable pub consume_ack : ℕ → Session → Session
unfolding unacked
consume_ack ack s =
    let kept = unacked ack s.send_slots in
    if length s.send_slots == 0
    then s
    else if ltb (length kept) (length s.send_slots)
    then record s { send_slots = kept; rto = default_rto; write_wait = true }
    else s

-- A `write` call in progress: the bytes left and the count written.
pub record Writer : Type 0 where
  pub rest : List ℕ
  pub total : ℕ

pub data WriteOutcome : Type 0 where
  returned : ℕ → Option NetError → WriteOutcome
  waiting : WriteOutcome
  again : Writer → WriteOutcome

-- The session after a chunk has been numbered and kept for retransmission.
unfoldable pub enqueue : List ℕ → ℕ → Session → Session
enqueue payload now s = record s {
  send_next = (s.send_next + 1) % 2 ^ 32;
  send_slots =
      s.send_slots ++ (record { content = payload; seq = s.send_next; last_send = now } ∷ []);
}

-- One round of the loop of `write`. A full window waits for the token of `writeWait`.
-- The code numbers the chunk under the lock and sends it after; here the two are one step.
unfoldable pub write_step : Writer → ℕ → Bool → Session → Session × WriteOutcome × List Effect
unfolding enqueue
write_step w now io s =
    let payload = take (min (length w.rest) max_payload) w.rest in
    let sent = write_packet (enqueue payload now s) type_data s.send_next s.recv_next payload io in
    if length w.rest == 0
    then (s, returned w.total none, [])
    else if not s.closed && not s.write_fin && leb max_in_flight (length s.send_slots)
    then (record s { write_wait = false }, waiting, [])
    else if s.closed || s.write_fin
    then (s, (if ltb 0 w.total then returned w.total none else returned 0 (some net_closed)), [])
    else (
      sent.0,
      (elim sent.1 [
        | some e ↦ returned w.total (some e)
        | none ↦
            again (record { rest = drop (length payload) w.rest; total = w.total + length payload })
      ]),
      sent.2,
    )

-- The slots that are due at `now`, and all slots with the due ones' times renewed.
unfoldable pub due : ℕ → ℕ → List SendSlot → List SendSlot
due now rto [] = []
due now rto (slot ∷ slots) =
    if leb rto (now - slot.last_send)
    then record slot { last_send = now } ∷ due now rto slots
    else due now rto slots

unfoldable pub renew : ℕ → ℕ → List SendSlot → List SendSlot
renew now rto [] = []
renew now rto (slot ∷ slots) =
    (if leb rto (now - slot.last_send) then record slot { last_send = now } else slot)
    ∷ renew now rto slots

-- `rto *= 2`, capped.
unfoldable pub backoff : ℕ → ℕ
backoff rto = if ltb rto max_rto then min (rto * 2) max_rto else rto

-- The retransmissions, one packet for each due slot; their errors are ignored.
unfoldable pub resend : ℕ → List SendSlot → Session → Session × List Effect
resend ack [] s = (s, [])
resend ack (slot ∷ slots) s =
    let sent = write_packet s type_data slot.seq ack slot.content true in
    let later = resend ack slots sent.0 in (later.0, sent.2 ++ later.1)

unfoldable pub retransmit_tick : ℕ → Session → Session × List Effect
unfolding due renew backoff resend
retransmit_tick now s =
    let ready = due now s.rto s.send_slots in
    if s.closed || length s.send_slots == 0
    then (s, [])
    else resend s.recv_next ready (record s {
      send_slots = renew now s.rto s.send_slots;
      rto = if ltb 0 (length ready) then backoff s.rto else s.rto;
    })
