-- ===== src/Tunnel/Stream/Steps.antt =====
-- The remaining steps of an end keep the invariant: `read`, `retransmitTick`, `close`.
use zbproxy_a.Base.{
  ℕ, ◌^◌, ◌<◌, ◌≡◌, refl, sym, ◌∙◌, List, [], ◌∷◌, ◌++◌, true, false, arith, length, All,
  get_elem?-lt, inl, inr, Bool-cases, ◌==◌, if◌then◌else◌, append-nil, append_assoc, take, drop,
  ◌||◌, take-append-drop,
}
use zbproxy_a.Tunnel.Limits.{type_data, type_fin}
use zbproxy_a.Tunnel.Session.{Session, SendSlot, write_packet}
use zbproxy_a.Tunnel.Session.Packets.{SameSend, SameStream, write_packet-SameStream}
use zbproxy_a.Tunnel.Session.Receive.{read}
use zbproxy_a.Tunnel.Session.Send.{due, resend, retransmit_tick}
use zbproxy_a.Tunnel.Session.Window.{Receives}
use zbproxy_a.Tunnel.Session.Slots.{IsSent, due-IsSent, renew-IsSent, HasSlot-renew, length-renew}
use zbproxy_a.Tunnel.Session.Handler.{shut_down, close}
use zbproxy_a.Tunnel.Stream.{End, with_result, after_read, bytes_of}
use zbproxy_a.Tunnel.Stream.Kept.{
  Holds, Holds-same, Receives-same, Keeps, write_packet-Keeps, Keeps-same,
}
use zbproxy_a.Tunnel.Stream.Handlers.{Keeps-trans, closed-Keeps}
use zbproxy_a.Tunnel.Stream.Sound.{Sound, Advances, Advances-Keeps, same-Advances}

resend-Keeps :
    (w c : List (List ℕ)) (d : List ℕ) (few : length c < 2 ^ 32) (few_w : length w < 2 ^ 32)
    (ack : ℕ) (slots : List SendSlot) (s : Session)
    → All (IsSent w) slots
    → ack ≡ s.recv_next
    → Holds w s
    → Receives c d s
    → Keeps w c d s (resend ack slots s)
unfolding resend
resend-Keeps w c d few few_w ack [] s sent e h r = Keeps-same w c d s few h r (ground arith)
resend-Keeps w c d few few_w ack (slot ∷ slots) s sent e h r = Keeps-trans w c d few first (
    resend-Keeps w c d few few_w ack slots _ sent.1 (e ∙ sym (same.1).recv_next_eq) first.holds
      first.receives)
  where
    same : SameStream s (write_packet s type_data slot.seq ack slot.content true).0
    same = write_packet-SameStream s type_data slot.seq ack slot.content true

    first : Keeps w c d s (
      (write_packet s type_data slot.seq ack slot.content true).0,
      (write_packet s type_data slot.seq ack slot.content true).2,
    )
    first = rw e (
        write_packet-Keeps w c d s few h r type_data slot.seq slot.content true (omega arith)
          (omega (arith, get_elem?-lt w slot.seq sent.0.0)) sent.0.1 (λ _. sent.0.0))

read-Receives :
    (c : List (List ℕ)) (d : List ℕ) (n : ℕ) (s : Session)
    → Receives c d s
    → Receives c (d ++ bytes_of (read n s).1) (read n s).0
unfolding read
read-Receives c d n s r = ground (
  arith,
  append-nil d,
  append_assoc d (take n s.read_buf) (drop n s.read_buf),
  take-append-drop n s.read_buf,
)

read-same : (n : ℕ) (s : Session) → SameSend s (read n s).0 × ((read n s).0.recv_next ≡ s.recv_next)
unfolding read
read-same n s = ground arith

module _ (b a : End) (few : length b.written < 2 ^ 32) (h : Sound a b) where
  pub read-Advances : (n : ℕ) → Advances b a (after_read n a)
  unfolding after_read
  read-Advances n =
      let (snd, next) = read-same n a.session in
      record {
        sound = record {
          holds = Holds-same a.written snd h.holds;
          receives = read-Receives b.written a.delivered n a.session h.receives;
          good = rw next h.good;
          covers = λ n lo hi. rw snd.send_slots_eq (h.covers n lo hi);
        };
        forward = omega (arith, next);
        more = [];
        grows = sym (append-nil a.written);
      }

  pub tick-Advances :
      (now : ℕ)
      → length a.written < 2 ^ 32
      → Advances b a (with_result a (retransmit_tick now a.session))
  unfolding retransmit_tick
  tick-Advances now few_w = elim (Bool-cases (s.closed || length s.send_slots == 0)) [
    | inl stop ↦ rw stop (same-Advances b a few h (ground arith))
    | inr go ↦ rw go (
        Advances-Keeps b a _ _ h refl
          (λ n lo hi. HasSlot-renew n now s.rto s.send_slots (h.covers n lo hi))
          (resend-Keeps a.written b.written a.delivered few few_w s.recv_next
            (due now s.rto s.send_slots) _
            (due-IsSent a.written now s.rto s.send_slots h.holds.slots) refl
            (record {
              numbered = h.holds.numbered;
              slots = renew-IsSent a.written now s.rto s.send_slots h.holds.slots;
              id_lt = h.holds.id_lt;
              window_le = rw length-renew h.holds.window_le;
            })
            (Receives-same b.written a.delivered {s = s} (ground arith) h.receives)))
  ]
    where
      s : Session
      s = a.session

  close-Keeps :
      (s : Session)
      → Holds a.written s
      → Receives b.written a.delivered s
      → Keeps a.written b.written a.delivered s (close s)
  unfolding close
  close-Keeps s hs rs =
      elim s.closed
        as (λ x. Keeps a.written b.written a.delivered s (if x then (s, []) else shut_down s)) [
          | true ↦ Keeps-same a.written b.written a.delivered s few hs rs (ground arith)
          | false ↦
              let p =
                Keeps-same a.written b.written a.delivered s few hs rs
                  {t = record s { write_fin = true }} (ground arith) in
              let q =
                write_packet-Keeps a.written b.written a.delivered _ few p.holds p.receives type_fin
                  0 [] true (omega arith) (omega arith) (omega arith) (λ e. absurd (omega arith)) in
              Keeps-trans _ _ _ few (Keeps-trans _ _ _ few p q)
                (closed-Keeps a.written b.written a.delivered few _ q.holds q.receives)
        ]

  pub close-Advances : Advances b a (with_result a (close a.session))
  close-Advances =
      Advances-Keeps b a a.session (close a.session) h refl h.covers
        (close-Keeps a.session h.holds h.receives)
