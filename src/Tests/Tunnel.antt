-- ===== src/Tests/Tunnel.antt =====
-- The tunnel on small inputs: two ends, of which the first writes a chunk that the second takes and
-- reads, and a listener that gets a SYN.
use zbproxy_a.Base.{
  ℕ, ◌≡◌, ◌<◌, ◌≤◌, ◌^◌, refl, List, [], ◌∷◌, ◌++◌, arith, length, false, true, get_or, get_elem?,
  concat, none, some, inl,
}
use zbproxy_a.Tunnel.Limits.{max_in_flight, type_data, type_syn}
use zbproxy_a.Tunnel.Frame.{Frame, ok, encode, decode, fill}
use zbproxy_a.Tunnel.Frame.Layout.{header}
use zbproxy_a.Tunnel.Frame.RoundTrip.{IsWire, decode-encode, decode-header}
use zbproxy_a.Tunnel.Session.{Session, new_session, write_packet, transmit}
use zbproxy_a.Tunnel.Session.Receive.{store_data}
use zbproxy_a.Tunnel.Session.Send.{Writer, write_step, enqueue}
use zbproxy_a.Tunnel.Session.Handler.{on_packet}
use zbproxy_a.Tunnel.Session.Window.{Receives, store_data_advances}
use zbproxy_a.Tunnel.Session.Drain.{store_data_drains}
use zbproxy_a.Tunnel.Session.Slots.{HasSlot}
use zbproxy_a.Tunnel.Stream.{
  Occurs, End, fresh_end, Run, start, left, right, write_round, read_call, packet, after_write,
  after_read, with_result,
}
use zbproxy_a.Tunnel.Stream.Delivery.{delivered-IsPrefix, awaited-HasSlot, get_or-replicate}
use zbproxy_a.Tunnel.Listener.{Listener, listen_packet, fresh_session, close}
use zbproxy_a.Tunnel.Listener.Closing.{close-stuck}
use zbproxy_a.Tunnel.Listener.Bounds.{run, IsBounded, run-IsBounded, datagram, accept_call}

abbrev chunk : List ℕ
chunk = 1 ∷ (2 ∷ [])

-- The first chunk of session 7.
abbrev first : Frame
first = record { typ = type_data; session_id = 7; seq = 0; ack = 0; payload = chunk }

first-IsWire : IsWire first
first-IsWire = record {
  typ_lt = omega arith;
  session_id_lt = omega arith;
  seq_lt = omega arith;
  ack_lt = omega arith;
  payload_le = omega arith;
}

decode-encode_example : (b : List ℕ) × (encode [] first ≡ ok b) × (decode b ≡ ok first)
decode-encode_example = decode-encode [] first first-IsWire

abbrev fresh : Session
fresh = new_session 7 20 0

fresh-Receives : Receives (chunk ∷ []) [] fresh
unfolding new_session
fresh-Receives = record {
  next_le = omega arith;
  stream = refl;
  buf_size = refl;
  valid_size = refl;
  window = λ i e. cc (get_or-replicate 32 i);
}

one_few : length (chunk ∷ []) < 2 ^ 32
one_few = omega arith

first_sent : get_elem? (chunk ∷ []) first.seq ≡ some first.payload
first_sent = refl

first_awaited : first.seq ≡ fresh.recv_next
unfolding new_session
first_awaited = refl

store_data_advances_example : fresh.recv_next < (store_data first fresh).recv_next
store_data_advances_example =
    store_data_advances (chunk ∷ []) one_few [] first fresh fresh-Receives first_sent first_awaited

fresh_size : length fresh.recv_valid ≡ max_in_flight
unfolding new_session
fresh_size = refl

fresh_idle : get_or fresh.recv_valid 0 false ≡ false
unfolding new_session
fresh_idle = refl

store_data_drains_example : get_or (store_data first fresh).recv_valid 0 false ≡ false
store_data_drains_example = store_data_drains first fresh fresh_size fresh_idle

abbrev writer : Writer
writer = record { rest = chunk; total = 0 }

-- The second end's peer sent the first chunk.
abbrev sender : End
sender = after_write writer 5 true (fresh_end 7 20 0)

sender_out : sender.out ≡ (header first ++ chunk) ∷ []
unfolding fresh_end new_session after_write write_step enqueue write_packet transmit encode fill
    header
sender_out = refl

sender_few : length sender.written < 2 ^ 32
unfolding fresh_end new_session after_write
sender_few = omega arith

receiver_few : length (fresh_end 7 10 0).written < 2 ^ 32
unfolding fresh_end
receiver_few = omega arith

abbrev receiver : End
receiver = with_result (fresh_end 7 10 0) (on_packet first none 6 (fresh_end 7 10 0).session)

abbrev reader : End
reader = after_read 1 receiver

reader_few : length reader.written < 2 ^ 32
unfolding fresh_end after_read
reader_few = omega arith

first-Occurs : Occurs (header first ++ chunk) sender.out
first-Occurs = rw sender_out (inl refl)

reader-Run : Run 7 20 10 0 sender reader
reader-Run =
    right
      (right (left start (write_round writer 5 true)) (
        packet first none 6 (header first ++ chunk) first-Occurs
          (decode-header first first-IsWire)))
      (read_call 1)

delivered-IsPrefix_example : (rest : List ℕ) × (concat sender.written ≡ reader.delivered ++ rest)
delivered-IsPrefix_example = delivered-IsPrefix reader-Run (omega arith) sender_few reader_few

awaited-HasSlot_example :
    ((n : ℕ)
      → reader.session.recv_next ≤ n
      → n < length sender.written
      → HasSlot n sender.session.send_slots)
    × (length sender.session.send_slots ≤ max_in_flight)
awaited-HasSlot_example = awaited-HasSlot reader-Run (omega arith) sender_few reader_few

-- A SYN of session 7, and an accept.
abbrev syn : Frame
syn = record { typ = type_syn; session_id = 7; seq = 0; ack = 0; payload = [] }

listen_packet-IsBounded : IsBounded listen_packet
unfolding listen_packet
listen_packet-IsBounded = record { sessions_le = omega arith; accept_le = omega arith }

run-IsBounded_example :
    IsBounded (run (datagram (header syn) 20 1 ∷ (accept_call ∷ [])) listen_packet)
run-IsBounded_example =
    run-IsBounded (datagram (header syn) 20 1 ∷ (accept_call ∷ [])) listen_packet
      listen_packet-IsBounded

-- A listener with one session.
abbrev serving : Listener
serving = record listen_packet { sessions = some ((7, fresh_session 7 20 0) ∷ []) }

serving_open : serving.closed ≡ false
unfolding listen_packet
serving_open = refl

serving_pending : (fresh_session 7 20 0).close_cb ≡ false
unfolding fresh_session new_session
serving_pending = refl

serving_callback : (fresh_session 7 20 0).has_on_closed ≡ true
unfolding fresh_session
serving_callback = refl

close-stuck_example : (close serving).stuck ≡ true
close-stuck_example =
    close-stuck serving [] [] 7 (fresh_session 7 20 0) serving_open refl serving_pending
      serving_callback
