-- ===== src/Tunnel/Stream/Writes.antt =====
-- A round of `write` keeps the invariant: it sends a chunk under the next number, or nothing.
use zbproxy_a.Base.{
  ℕ, ◌^◌, ◌≤◌, ◌<◌, ◌≡◌, refl, List, [], ◌∷◌, ◌++◌, Bool, true, false, arith, length, All-map,
  All-append, get_elem?-append, get_elem?-snoc, length-append, inl, inr, Bool-cases, append-nil,
  ltb, ltb→lt, ltb→le, length-take, min,
}
use zbproxy_a.Tunnel.Limits.{max_payload, max_in_flight, type_data}
use zbproxy_a.Tunnel.Session.{Session, write_packet}
use zbproxy_a.Tunnel.Session.Packets.{datagrams, SameStream}
use zbproxy_a.Tunnel.Session.Send.{Writer, enqueue, write_step}
use zbproxy_a.Tunnel.Session.Slots.{HasSlot, HasSlot-append_left, HasSlot-snoc}
use zbproxy_a.Tunnel.Stream.{End, enqueues, next_chunk, after_write}
use zbproxy_a.Tunnel.Stream.Kept.{Holds, Receives-same, IsGood-mono, Keeps, write_packet-Keeps}
use zbproxy_a.Tunnel.Stream.Sound.{Sound, Advances, same-Advances}

module _ (b a : End) (few : length b.written < 2 ^ 32) (h : Sound a b) where
  write_step_idle :
      (w : Writer) (now : ℕ) (io : Bool) (s : Session)
      → enqueues w s ≡ false
      → SameStream s (write_step w now io s).0 × (datagrams (write_step w now io s).2 ≡ [])
  unfolding write_step
  write_step_idle w now io s e = ground arith

  write_step_sent :
      (w : Writer) (now : ℕ) (io : Bool) (s : Session)
      → enqueues w s ≡ true
      → let sent =
          write_packet
            (enqueue (next_chunk w) now s)
            type_data
            s.send_next
            s.recv_next
            (next_chunk w)
            io in
        ((write_step w now io s).0 ≡ sent.0) × ((write_step w now io s).2 ≡ sent.2)
  unfolding write_step
  write_step_sent w now io s e = ground arith

  idle-Advances :
      (w : Writer) (now : ℕ) (io : Bool)
      → enqueues w a.session ≡ false
      → Advances b a (after_write w now io a)
  unfolding after_write
  idle-Advances w now io e =
      let (same, none_sent) = write_step_idle w now io a.session e in
      rw (e, none_sent, append-nil) (same-Advances b a few h same)

  -- The new chunk takes the next number and a slot of its own.
  enqueue-Holds :
      (chunk : List ℕ) (now : ℕ)
      → length chunk ≤ max_payload
      → length a.session.send_slots < max_in_flight
      → length (a.written ++ (chunk ∷ [])) < 2 ^ 32
      → Holds (a.written ++ (chunk ∷ [])) (enqueue chunk now a.session)
  unfolding enqueue
  enqueue-Holds chunk now fits room few_w =
      let size = length-append a.written (chunk ∷ []) in
      record {
        numbered = omega (arith, size, h.holds.numbered);
        slots =
            All-append _ a.session.send_slots _
              (All-map _ _ a.session.send_slots
                (λ x p. (get_elem?-append a.written (chunk ∷ []) x.seq p.0, p.1)) h.holds.slots)
              ((rw h.holds.numbered (get_elem?-snoc a.written chunk), fits), tt);
        id_lt = h.holds.id_lt;
        window_le = omega (
          arith,
          room,
          length-append a.session.send_slots
              (record { content = chunk; seq = a.session.send_next; last_send = now } ∷ []),
        );
      }

  covers_grown :
      (chunk : List ℕ) (now n : ℕ)
      → b.session.recv_next ≤ n
      → n < length (a.written ++ (chunk ∷ []))
      → HasSlot n (enqueue chunk now a.session).send_slots
  unfolding enqueue
  covers_grown chunk now n lo hi = elim (Bool-cases (ltb n (length a.written))) [
    | inl old ↦ HasSlot-append_left n a.session.send_slots _ (h.covers n lo (ltb→lt _ _ old))
    | inr new ↦
        let is_last : a.session.send_next ≡ n =
          omega (arith, h.holds.numbered, length-append a.written (chunk ∷ []), ltb→le _ _ new) in
        rw (← is_last) (HasSlot-snoc a.session.send_slots _)
  ]

  module _ (w : Writer) (now : ℕ) (io : Bool) where
    abbrev grown : List (List ℕ)
    grown = a.written ++ (next_chunk w ∷ [])

    abbrev enqueued : Session
    enqueued = enqueue (next_chunk w) now a.session

    next_chunk_le : length (next_chunk w) ≤ max_payload
    next_chunk_le = omega (arith, length-take (min (length w.rest) max_payload) w.rest)

    room-enqueues : enqueues w a.session ≡ true → length a.session.send_slots < max_in_flight
    room-enqueues e = ground arith

    chunk-Keeps :
        length a.session.send_slots < max_in_flight
        → length grown < 2 ^ 32
        → Keeps grown b.written a.delivered enqueued (
            let r =
              write_packet enqueued type_data a.session.send_next a.session.recv_next
                (next_chunk w)
                io in
            (r.0, r.2))
    unfolding enqueue
    chunk-Keeps room few_w =
        write_packet-Keeps grown b.written a.delivered enqueued few
          (enqueue-Holds (next_chunk w) now next_chunk_le room few_w)
          (Receives-same b.written a.delivered {s = a.session} (ground arith) h.receives) type_data
          a.session.send_next (next_chunk w) io (omega arith)
          (omega (arith, h.holds.numbered, length-append a.written (next_chunk w ∷ [])))
          next_chunk_le (λ _. rw h.holds.numbered (get_elem?-snoc a.written (next_chunk w)))

    -- A round of `write` that sends a chunk.
    sent-Advances :
        enqueues w a.session ≡ true → length grown < 2 ^ 32 → Advances b a (after_write w now io a)
    unfolding after_write enqueue
    sent-Advances e few_w =
        let (session_eq, effects_eq) = write_step_sent w now io a.session e in
        let k = chunk-Keeps (room-enqueues e) few_w in
        let le = k.forward in
        rw (e, session_eq, effects_eq)
          (record {
            sound = record {
              holds = k.holds;
              receives = k.receives;
              good =
                  All-append _ a.out _
                    (All-map _ _ a.out
                      (λ x. IsGood-mono a.written (next_chunk w ∷ []) a.session.recv_next _ x le)
                      h.good)
                    k.good;
              covers = λ n lo hi. rw k.slots_eq (covers_grown (next_chunk w) now n lo hi);
            };
            forward = le;
            more = next_chunk w ∷ [];
            grows = refl;
          })

    pub write-Advances :
        length (after_write w now io a).written < 2 ^ 32 → Advances b a (after_write w now io a)
    unfolding after_write
    write-Advances few_w = elim (Bool-cases (enqueues w a.session)) [
      | inl e ↦ sent-Advances e (rw e at few_w)
      | inr e ↦ idle-Advances w now io e
    ]
