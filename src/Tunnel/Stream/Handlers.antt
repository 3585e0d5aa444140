-- ===== src/Tunnel/Stream/Handlers.antt =====
-- `onPacket`, `close` and `retransmitTick` of session.go keep what was sent and received.
use zbproxy_a.Base.{
  ℕ, ◌-◌, ◌^◌, ◌<◌, ◌≡◌, ◌∙◌, List, [], ◌++◌, true, some, arith, length, All-map, All-append,
  get_elem?, inl, inr, Bool-cases, ◌==◌, ==→eq, if◌then◌else◌, zero, suc,
}
use zbproxy_a.Tunnel.Limits.{max_in_flight, type_data, type_fin, type_rst, type_synack, type_ack}
use zbproxy_a.Tunnel.Frame.{Frame}
use zbproxy_a.Tunnel.Session.{Session, Effect, invoke_closed}
use zbproxy_a.Tunnel.Session.Packets.{
  datagrams, datagrams-append, SameSend, SameStream, invoke_closed-SameStream,
  datagrams-invoke_closed,
}
use zbproxy_a.Tunnel.Session.Receive.{deliver, deliver_all, place, store_data}
use zbproxy_a.Tunnel.Session.Window.{Receives, store_data-Receives}
use zbproxy_a.Tunnel.Session.Handler.{acknowledge, dispatch_type, force_close}
use zbproxy_a.Tunnel.Stream.Kept.{
  Holds, Holds-same, IsGood-later, Keeps, write_packet-Keeps, Keeps-same,
}

pub force_close-SameStream : (s : Session) → SameStream s (force_close s)
unfolding force_close
force_close-SameStream s = ground arith

deliver_all-SameSend : (fuel : ℕ) (s : Session) → SameSend s (deliver_all fuel s)
unfolding deliver_all
deliver_all-SameSend zero s = ground arith
deliver_all-SameSend (suc fuel) s = ground (arith, deliver_all-SameSend fuel (deliver s))

store_data-SameSend : (f : Frame) (s : Session) → SameSend s (store_data f s)
unfolding store_data
store_data-SameSend f s =
    ground (arith, deliver_all-SameSend max_in_flight (place (f.seq - s.recv_next) f.payload s))

module _ (w c : List (List ℕ)) (d : List ℕ) (few : length c < 2 ^ 32) where
  pub Keeps-trans :
      {s t u : Session} {xs ys : List Effect}
      → Keeps w c d s (t, xs)
      → Keeps w c d t (u, ys)
      → Keeps w c d s (u, xs ++ ys)
  Keeps-trans {t = t} {u = u} {xs = xs} {ys = ys} p q = record {
    holds = q.holds;
    receives = q.receives;
    forward = omega (arith, p.forward, q.forward);
    slots_eq = q.slots_eq ∙ p.slots_eq;
    good = rw (datagrams-append xs ys) (
        All-append _ (datagrams xs) (datagrams ys)
          (All-map _ _ (datagrams xs) (λ x g. IsGood-later w t.recv_next u.recv_next x q.forward g)
            p.good)
          q.good);
  }

  acknowledge-Keeps : (s : Session) → Holds w s → Receives c d s → Keeps w c d s (acknowledge s)
  unfolding acknowledge
  acknowledge-Keeps s h r =
      write_packet-Keeps w c d s few h r type_ack 0 [] true (omega arith) (omega arith)
        (omega arith) (λ e. absurd (omega arith))

  store_data-Keeps :
      (f : Frame) (s : Session)
      → Holds w s
      → Receives c d s
      → get_elem? c f.seq ≡ some f.payload
      → Keeps w c d s (store_data f s, [])
  store_data-Keeps f s h r sent =
      let same = store_data-SameSend f s in
      let (r', le) = store_data-Receives c few d f s r sent in
      record {
        holds = Holds-same w same h;
        receives = r';
        forward = le;
        slots_eq = same.send_slots_eq;
        good = tt;
      }

  pub closed-Keeps :
      (s : Session) → Holds w s → Receives c d s → Keeps w c d s (invoke_closed (force_close s))
  closed-Keeps s h r =
      let p = Keeps-same w c d s few h r (force_close-SameStream s) in
      let q =
        Keeps-same w c d (force_close s) few p.holds p.receives
          (invoke_closed-SameStream (force_close s)) in
      record {
        holds = q.holds;
        receives = q.receives;
        forward = omega (arith, p.forward, q.forward);
        slots_eq = q.slots_eq ∙ p.slots_eq;
        good = rw (datagrams-invoke_closed (force_close s)) tt;
      }

  -- The frame types that only set flags.
  flags :
      (f : Frame) (s : Session)
      → Holds w s
      → Receives c d s
      → Keeps w c d s (
          if f.typ == type_synack
          then (record s { handshake = true; write_wait = true }, [])
          else if f.typ == type_ack
          then (record s { write_wait = true }, [])
          else (s, []))
  flags f s h r = elim (Bool-cases (f.typ == type_synack)) [
    | inl is_synack ↦ rw is_synack (Keeps-same w c d s few h r (ground arith))
    | inr not_synack ↦ elim (Bool-cases (f.typ == type_ack)) [
      | inl is_ack ↦ rw (not_synack, is_ack) (Keeps-same w c d s few h r (ground arith))
      | inr not_ack ↦ rw (not_synack, not_ack) (Keeps-same w c d s few h r (ground arith))
    ]
  ]

  pub dispatch_type-Keeps :
      (f : Frame) (s : Session)
      → Holds w s
      → Receives c d s
      → (f.typ ≡ type_data → get_elem? c f.seq ≡ some f.payload)
      → Keeps w c d s (dispatch_type f s)
  unfolding dispatch_type
  dispatch_type-Keeps f s h r sent = elim (Bool-cases (f.typ == type_data)) [
    | inl is_data ↦ rw is_data (
        let p = store_data-Keeps f s h r (sent (==→eq f.typ type_data is_data)) in
        Keeps-trans p (acknowledge-Keeps (store_data f s) p.holds p.receives))
    | inr not_data ↦ elim (Bool-cases (f.typ == type_fin)) [
      | inl is_fin ↦
          rw (not_data, is_fin)
            (let p =
                Keeps-same w c d s few h r {t = record s { read_eof = true; read_wait = true }}
                  (ground arith) in
              Keeps-trans p (acknowledge-Keeps _ p.holds p.receives))
      | inr not_fin ↦ elim (Bool-cases (f.typ == type_rst)) [
        | inl is_rst ↦ rw (not_data, not_fin, is_rst) (closed-Keeps s h r)
        | inr not_rst ↦ rw (not_data, not_fin, not_rst) (flags f s h r)
      ]
    ]
  ]
