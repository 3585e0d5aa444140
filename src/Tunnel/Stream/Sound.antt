-- ===== src/Tunnel/Stream/Sound.antt =====
-- The invariant of the two ends, and that every step of either end keeps it.
use zbproxy_a.Base.{
  ℕ, ◌^◌, ◌≤◌, ◌<◌, ◌≡◌, sym, ap, ◌∙◌, List, [], ◌∷◌, ◌++◌, true, false, some, Option, arith,
  length, All, All-map, All-append, get_elem?, inl, inr, Bool-cases, if◌then◌else◌, append-nil,
}
use zbproxy_a.Tunnel.Limits.{type_data}
use zbproxy_a.Tunnel.Frame.{Frame, ok, decode}
use zbproxy_a.Tunnel.Frame.RoundTrip.{decode-header}
use zbproxy_a.Tunnel.Session.{Session, Effect}
use zbproxy_a.Tunnel.Session.Packets.{datagrams, SameReceive, SameStream}
use zbproxy_a.Tunnel.Session.Send.{consume_ack}
use zbproxy_a.Tunnel.Session.Window.{Receives}
use zbproxy_a.Tunnel.Session.Slots.{
  HasSlot, unacked-IsSent, HasSlot-unacked, length-unacked, send_slots-consume_ack,
}
use zbproxy_a.Tunnel.Session.Handler.{heard_from, carries_ack, dispatch_type, on_packet}
use zbproxy_a.Tunnel.Stream.{End, with_result, Occurs}
use zbproxy_a.Tunnel.Stream.Kept.{
  IsGood, Holds, Holds-same, Receives-same, IsGood-later, Keeps, Keeps-same,
}
use zbproxy_a.Tunnel.Stream.Handlers.{dispatch_type-Keeps}

-- An end against its peer: what it holds of both streams, what it has sent, and that every chunk
-- which the peer still awaits is kept for retransmission.
pub record Sound (a b : End) : Type 0 where
  pub holds : Holds a.written a.session
  pub receives : Receives b.written a.delivered a.session
  pub good : All (IsGood a.written a.session.recv_next) a.out
  pub covers :
      (n : ℕ) → b.session.recv_next ≤ n → n < length a.written → HasSlot n a.session.send_slots

-- What one step of `a` to `a'` leads to.
pub record Advances (b a a' : End) : Type 0 where
  pub sound : Sound a' b
  pub forward : a.session.recv_next ≤ a'.session.recv_next
  pub more : List (List ℕ)
  pub grows : a'.written ≡ a.written ++ more

-- A method that keeps both streams, after the slots were changed to cover what is awaited.
pub Advances-Keeps :
    (b a : End) (t : Session) (r : Session × List Effect)
    → Sound a b
    → t.recv_next ≡ a.session.recv_next
    → ((n : ℕ) → b.session.recv_next ≤ n → n < length a.written → HasSlot n t.send_slots)
    → Keeps a.written b.written a.delivered t r
    → Advances b a (with_result a r)
Advances-Keeps b a t r h e cover k =
    let le : a.session.recv_next ≤ r.0.recv_next = omega (arith, k.forward) in
    record {
      sound = record {
        holds = k.holds;
        receives = k.receives;
        good =
            All-append _ a.out (datagrams r.1)
              (All-map _ _ a.out
                (λ x. IsGood-later a.written a.session.recv_next r.0.recv_next x le) h.good)
              k.good;
        covers = λ n lo hi. rw k.slots_eq (cover n lo hi);
      };
      forward = le;
      more = [];
      grows = sym (append-nil a.written);
    }

-- A datagram that decodes is the frame that was sent.
pub good_frame :
    (w : List (List ℕ)) (n : ℕ) (d : List ℕ) (f : Frame)
    → decode d ≡ ok f
    → IsGood w n d
    → (f.typ ≡ type_data → get_elem? w f.seq ≡ some f.payload) × (f.ack ≤ n)
good_frame w n d f e (g, wire, is, sent, ack) =
    let same : g ≡ f = cc (ap decode is, decode-header g wire, e) in rw (← same) (sent, ack)

pub Occurs-All {κ} :
    (P : List ℕ → Type κ) (d : List ℕ) (xs : List (List ℕ)) → Occurs d xs → All P xs → P d
Occurs-All P d [] o h = absurd o
Occurs-All P d (x ∷ xs) (inl e) h = rw (← e) (h.0)
Occurs-All P d (x ∷ xs) (inr o) h = Occurs-All P d xs o h.1

consume_ack-SameReceive : (ack : ℕ) (s : Session) → SameReceive s (consume_ack ack s)
unfolding consume_ack
consume_ack-SameReceive ack s = ground arith

send_part-consume_ack :
    (ack : ℕ) (s : Session)
    → ((consume_ack ack s).send_next ≡ s.send_next) × ((consume_ack ack s).id ≡ s.id)
unfolding consume_ack
send_part-consume_ack ack s = ground arith

Holds-consume_ack :
    (w : List (List ℕ)) (ack : ℕ) (s : Session) → Holds w s → Holds w (consume_ack ack s)
Holds-consume_ack w ack s h = record {
  numbered = (send_part-consume_ack ack s).0 ∙ h.numbered;
  slots = rw (send_slots-consume_ack ack s) (unacked-IsSent w ack s.send_slots h.slots);
  id_lt = rw ((send_part-consume_ack ack s).1) h.id_lt;
  window_le =
      rw (send_slots-consume_ack ack s)
        (omega (arith, h.window_le, length-unacked ack s.send_slots));
}

heard_from-SameStream :
    (source : Option ℕ) (now : ℕ) (s : Session) → SameStream s (heard_from source now s)
unfolding heard_from
heard_from-SameStream source now s = ground arith

abbrev heard_and_acked : Frame → Option ℕ → ℕ → Session → Session
heard_and_acked f source now s =
    if carries_ack f.typ
    then consume_ack f.ack (heard_from source now s)
    else heard_from source now s

on_packet_closed :
    (f : Frame) (source : Option ℕ) (now : ℕ) (s : Session)
    → s.closed ≡ true
    → on_packet f source now s ≡ (s, [])
unfolding on_packet
on_packet_closed f source now s e = rw e

on_packet_open :
    (f : Frame) (source : Option ℕ) (now : ℕ) (s : Session)
    → s.closed ≡ false
    → on_packet f source now s ≡ dispatch_type f (heard_and_acked f source now s)
unfolding on_packet
on_packet_open f source now s e = ground arith

module _ (b a : End) (few : length b.written < 2 ^ 32) (h : Sound a b) where
  pub same-Advances : {t : Session} → SameStream a.session t → Advances b a (with_result a (t, []))
  same-Advances {t} (snd, rcv) =
      Advances-Keeps b a t (t, []) h rcv.recv_next_eq
        (λ n lo hi. rw snd.send_slots_eq (h.covers n lo hi))
        (Keeps-same a.written b.written a.delivered t few (Holds-same a.written snd h.holds)
          (Receives-same b.written a.delivered rcv h.receives) (ground arith))

  -- The acknowledgement frees no slot that the peer still awaits.
  acked-Advances :
      (f : Frame) (t : Session)
      → SameStream a.session t
      → (f.typ ≡ type_data → get_elem? b.written f.seq ≡ some f.payload)
      → f.ack ≤ b.session.recv_next
      → Advances b a (with_result a (dispatch_type f (consume_ack f.ack t)))
  acked-Advances f t (snd, rcv) sent ack =
      let holds = Holds-consume_ack a.written f.ack t (Holds-same a.written snd h.holds) in
      let rcv2 = consume_ack-SameReceive f.ack t in
      let receives =
        Receives-same b.written a.delivered rcv2
          (Receives-same b.written a.delivered rcv h.receives) in
      Advances-Keeps b a (consume_ack f.ack t) _ h (rcv2.recv_next_eq ∙ rcv.recv_next_eq)
        (λ n lo hi.
          rw (send_slots-consume_ack f.ack t, snd.send_slots_eq)
            (HasSlot-unacked n f.ack a.session.send_slots (omega arith) (h.covers n lo hi)))
        (dispatch_type-Keeps a.written b.written a.delivered few f (consume_ack f.ack t) holds
          receives sent)

  unacked-Advances :
      (f : Frame) (t : Session)
      → SameStream a.session t
      → (f.typ ≡ type_data → get_elem? b.written f.seq ≡ some f.payload)
      → Advances b a (with_result a (dispatch_type f t))
  unacked-Advances f t (snd, rcv) sent =
      Advances-Keeps b a t _ h rcv.recv_next_eq (λ n lo hi. rw snd.send_slots_eq (h.covers n lo hi))
        (dispatch_type-Keeps a.written b.written a.delivered few f t
          (Holds-same a.written snd h.holds) (Receives-same b.written a.delivered rcv h.receives)
          sent)

  pub packet-Advances :
      (f : Frame) (source : Option ℕ) (now : ℕ)
      → (f.typ ≡ type_data → get_elem? b.written f.seq ≡ some f.payload)
      → f.ack ≤ b.session.recv_next
      → Advances b a (with_result a (on_packet f source now a.session))
  packet-Advances f source now sent ack =
      let same = heard_from-SameStream source now a.session in
      elim (Bool-cases a.session.closed) [
        | inl shut ↦
            rw (on_packet_closed f source now a.session shut) (same-Advances (ground arith))
        | inr live ↦ elim (Bool-cases (carries_ack f.typ)) [
          | inl with_ack ↦
              rw (on_packet_open f source now a.session live, with_ack)
                (acked-Advances f _ same sent ack)
          | inr without ↦
              rw (on_packet_open f source now a.session live, without)
                (unacked-Advances f _ same sent)
        ]
      ]
