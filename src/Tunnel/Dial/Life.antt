-- ===== src/Tunnel/Dial/Life.antt =====
-- common/udptunnel/dial.go: what the methods of the session that the dialer calls do to its id, to
-- `closed` and to the channel of the handshake.
use zbproxy_a.Base.{
  ℕ, zero, suc, List, [], ◌∷◌, Bool, true, false, Option, ◌≡◌, ◌⊎◌, inl, inr, refl, arith, ◌∙◌, ◌-◌,
  ◌||◌, ◌&&◌, not, ◌==◌, ltb, length, if◌then◌else◌, Bool-cases,
}
use zbproxy_a.Tunnel.Limits.{type_rst, type_synack, type_data, type_ack, type_fin, max_in_flight}
use zbproxy_a.Tunnel.Frame.{Frame}
use zbproxy_a.Tunnel.Session.{Session, SendSlot, write_packet, transmit, invoke_closed}
use zbproxy_a.Tunnel.Session.Receive.{store_data, place, deliver_all, deliver}
use zbproxy_a.Tunnel.Session.Send.{consume_ack, retransmit_tick, resend, due, renew, backoff}
use zbproxy_a.Tunnel.Session.Handler.{
  on_packet, heard_from, acknowledge, dispatch_type, force_close, close, shut_down,
}

-- What is left alone by a method that only sends or receives.
pub record SameLife (s t : Session) : Type 0 where
  pub id_eq : t.id ≡ s.id
  pub handshake_eq : t.handshake ≡ s.handshake
  pub closed_eq : t.closed ≡ s.closed

pub write_packet-SameLife :
    (s : Session) (typ seq ack : ℕ) (payload : List ℕ) (io : Bool)
    → SameLife s (write_packet s typ seq ack payload io).0
unfolding write_packet transmit
write_packet-SameLife s typ seq ack payload io = ground arith

deliver_all-SameLife : (n : ℕ) (s : Session) → SameLife s (deliver_all n s)
unfolding deliver_all deliver
deliver_all-SameLife zero s = ground arith
deliver_all-SameLife (suc n) s = ground (arith, deliver_all-SameLife n (deliver s))

place-SameLife : (off : ℕ) (payload : List ℕ) (s : Session) → SameLife s (place off payload s)
unfolding place
place-SameLife off payload s = ground arith

pub trans-SameLife : {s t u : Session} → SameLife s t → SameLife t u → SameLife s u
trans-SameLife h k = record {
  id_eq = k.id_eq ∙ h.id_eq;
  handshake_eq = k.handshake_eq ∙ h.handshake_eq;
  closed_eq = k.closed_eq ∙ h.closed_eq;
}

store_data-SameLife : (f : Frame) (s : Session) → SameLife s (store_data f s)
unfolding store_data
store_data-SameLife f s =
    let off = f.seq - s.recv_next in
    ground (
      arith,
      trans-SameLife (place-SameLife off f.payload s)
          (deliver_all-SameLife max_in_flight (place off f.payload s)),
    )

consume_ack-SameLife : (ack : ℕ) (s : Session) → SameLife s (consume_ack ack s)
unfolding consume_ack
consume_ack-SameLife ack s = ground arith

resend-SameLife :
    (ack : ℕ) (slots : List SendSlot) (s : Session) → SameLife s (resend ack slots s).0
unfolding resend
resend-SameLife ack [] s = ground arith
resend-SameLife ack (x ∷ xs) s =
    let sent = write_packet s type_data x.seq ack x.content true in
    trans-SameLife (write_packet-SameLife s type_data x.seq ack x.content true)
      (resend-SameLife ack xs sent.0)

pub retransmit_tick-SameLife : (now : ℕ) (s : Session) → SameLife s (retransmit_tick now s).0
unfolding retransmit_tick
retransmit_tick-SameLife now s =
    let ready = due now s.rto s.send_slots in
    let renewed = record s {
      send_slots = renew now s.rto s.send_slots;
      rto = if ltb 0 (length ready) then backoff s.rto else s.rto;
    } in
    elim (Bool-cases (s.closed || length s.send_slots == 0)) [
      | inl e ↦ ground (arith, e)
      | inr e ↦ ground (arith, e, resend-SameLife s.recv_next ready renewed)
    ]

-- A session that is open and whose handshake is done.
abbrev pub opened : Session → Bool
opened s = s.handshake && not s.closed

pub SameLife-opened : {s t : Session} → SameLife s t → opened t ≡ opened s
SameLife-opened h = rw (h.handshake_eq, h.closed_eq) refl

acknowledge-SameLife : (s : Session) → SameLife s (acknowledge s).0
unfolding acknowledge
acknowledge-SameLife s = write_packet-SameLife s type_ack 0 s.recv_next [] true

heard_from-SameLife :
    (source : Option ℕ) (now : ℕ) (s : Session) → SameLife s (heard_from source now s)
unfolding heard_from
heard_from-SameLife source now s = ground arith

ended-SameLife : (s : Session) → SameLife s (record s { read_eof = true; read_wait = true })
ended-SameLife s = record { id_eq = refl; handshake_eq = refl; closed_eq = refl }

pub force_close-opened : (s : Session) → opened (force_close s) ≡ false
unfolding force_close
force_close-opened s = ground arith

pub force_close-id : (s : Session) → (force_close s).id ≡ s.id
unfolding force_close
force_close-id s = ground arith

invoke_closed-SameLife : (s : Session) → SameLife s (invoke_closed s).0
unfolding invoke_closed
invoke_closed-SameLife s = ground arith

reset-opened : (s : Session) → opened (invoke_closed (force_close s)).0 ≡ false
reset-opened s = SameLife-opened (invoke_closed-SameLife (force_close s)) ∙ force_close-opened s

dispatch_type-opened :
    (f : Frame) (s : Session)
    → opened (dispatch_type f s).0 ≡ true
    → (opened s ≡ true) ⊎ (f.typ ≡ type_synack)
unfolding dispatch_type
dispatch_type-opened f s h =
    let ended = record s { read_eof = true; read_wait = true } in
    ground (
      arith,
      SameLife-opened
          (trans-SameLife (store_data-SameLife f s) (acknowledge-SameLife (store_data f s))),
      SameLife-opened (trans-SameLife (ended-SameLife s) (acknowledge-SameLife ended)),
      reset-opened s,
    )

pub on_packet-opened :
    (f : Frame) (source : Option ℕ) (now : ℕ) (s : Session)
    → opened (on_packet f source now s).0 ≡ true
    → (opened s ≡ true) ⊎ (f.typ ≡ type_synack)
unfolding on_packet
on_packet-opened f source now s h =
    let heard = heard_from source now s in
    ground (
      arith,
      dispatch_type-opened f heard,
      dispatch_type-opened f (consume_ack f.ack heard),
      SameLife-opened (heard_from-SameLife source now s),
      SameLife-opened
          (trans-SameLife (heard_from-SameLife source now s) (consume_ack-SameLife f.ack heard)),
    )

dispatch_type-id : (f : Frame) (s : Session) → (dispatch_type f s).0.id ≡ s.id
unfolding dispatch_type
dispatch_type-id f s =
    let ended = record s { read_eof = true; read_wait = true } in
    ground (
      arith,
      SameLife.id_eq
          (trans-SameLife (store_data-SameLife f s) (acknowledge-SameLife (store_data f s))),
      SameLife.id_eq (trans-SameLife (ended-SameLife s) (acknowledge-SameLife ended)),
      SameLife.id_eq (invoke_closed-SameLife (force_close s)),
      force_close-id s,
    )

pub on_packet-id :
    (f : Frame) (source : Option ℕ) (now : ℕ) (s : Session) → (on_packet f source now s).0.id ≡ s.id
unfolding on_packet
on_packet-id f source now s =
    let heard = heard_from source now s in
    ground (
      arith,
      dispatch_type-id f heard,
      dispatch_type-id f (consume_ack f.ack heard),
      SameLife.id_eq (heard_from-SameLife source now s),
      SameLife.id_eq
          (trans-SameLife (heard_from-SameLife source now s) (consume_ack-SameLife f.ack heard)),
    )

shut_down-closed : (s : Session) → (shut_down s).0.closed ≡ true
unfolding shut_down force_close
shut_down-closed s =
    let fin = write_packet (record s { write_fin = true }) type_fin 0 s.recv_next [] true in
    ground (arith, SameLife.closed_eq (invoke_closed-SameLife (force_close fin.0)))

pub close-closed : (s : Session) → (close s).0.closed ≡ true
unfolding close
close-closed s = ground (arith, shut_down-closed s)

shut_down-id : (s : Session) → (shut_down s).0.id ≡ s.id
unfolding shut_down
shut_down-id s =
    let writing = record s { write_fin = true } in
    let fin = write_packet writing type_fin 0 s.recv_next [] true in
    SameLife.id_eq (invoke_closed-SameLife (force_close fin.0))
    ∙ force_close-id fin.0
    ∙ SameLife.id_eq (write_packet-SameLife writing type_fin 0 s.recv_next [] true)

pub close-id : (s : Session) → (close s).0.id ≡ s.id
unfolding close
close-id s = ground (arith, shut_down-id s)

pub on_packet-closed :
    (f : Frame) (source : Option ℕ) (now : ℕ) (s : Session)
    → s.closed ≡ true
    → (on_packet f source now s).0 ≡ s
unfolding on_packet
on_packet-closed f source now s e = ground (arith, e)

-- What an RST leaves of an open session.
pub on_packet_reset :
    (f : Frame) (source : Option ℕ) (now : ℕ) (s : Session)
    → s.closed ≡ false
    → f.typ ≡ type_rst
    → ((on_packet f source now s).0.closed ≡ true) × ((on_packet f source now s).0.handshake ≡ true)
unfolding on_packet dispatch_type force_close heard_from
on_packet_reset f source now s e rst =
    let heard = heard_from source now s in
    let gone = invoke_closed-SameLife (force_close heard) in ground (arith, e, rst, gone)
