-- ===== src/Tunnel/Dial/Quiet.antt =====
-- common/udptunnel/dial.go: the steps of a dial that take nothing from the socket.
use zbproxy_a.Base.{ℕ, [], Bool, true, false, ◌≡◌, refl, sym, ◌∙◌, arith}
use zbproxy_a.Tunnel.Limits.{type_syn}
use zbproxy_a.Tunnel.Session.{Session, write_packet}
use zbproxy_a.Tunnel.Session.Handler.{force_close, close}
use zbproxy_a.Tunnel.Dial.{
  Client, shutdown, begin_dial, Selected, on_handshake, on_done, on_tick, dial_step, close_client,
}
use zbproxy_a.Tunnel.Dial.Life.{
  SameLife, write_packet-SameLife, opened, SameLife-opened, force_close-opened, force_close-id,
  close-closed, close-id,
}

abbrev pub Released : Client → Type 0
Released c = (c.socket_open ≡ false) × (c.session.closed ≡ true)

-- What a step keeps that takes nothing from the socket.
pub record Quiet (c d : Client) : Type 0 where
  pub same_id : d.session.id ≡ c.session.id
  pub opened_before : opened d.session ≡ true → opened c.session ≡ true
  pub ends : (c.stopped ≡ true → Released c) → d.stopped ≡ true → Released d
  pub once : (c.close_once ≡ true → c.stopped ≡ true) → d.close_once ≡ true → d.stopped ≡ true

pub same-Quiet : (c : Client) → Quiet c c
same-Quiet c = record { same_id = refl; opened_before = λ o. o; ends = λ r. r; once = λ r. r }

pub trans-Quiet : {c d e : Client} → Quiet c d → Quiet d e → Quiet c e
trans-Quiet q r = record {
  same_id = r.same_id ∙ q.same_id;
  opened_before = λ o. q.opened_before (r.opened_before o);
  ends = λ h. r.ends (q.ends h);
  once = λ h. r.once (q.once h);
}

shutdown-stopped : (c : Client) → (shutdown c).stopped ≡ true
unfolding shutdown
shutdown-stopped c = ground arith

closed-opened : (s : Session) → s.closed ≡ true → opened s ≡ false
closed-opened s e = ground (arith, e)

pub shutdown-Released : (c : Client) → (c.stopped ≡ true → Released c) → Released (shutdown c)
unfolding shutdown force_close
shutdown-Released c h = ground (arith, h)

pub shutdown-Quiet : (c : Client) → Quiet c (shutdown c)
unfolding shutdown
shutdown-Quiet c = ground (arith, force_close-opened c.session, force_close-id c.session)

pub sent-Quiet :
    (c : Client) (s : Session) → SameLife c.session s → Quiet c (record c { session = s })
sent-Quiet c s h = record {
  same_id = h.id_eq;
  opened_before = λ o. sym (SameLife-opened h) ∙ o;
  ends = λ r e. ((r e).0, h.closed_eq ∙ (r e).1);
  once = λ r e. r e;
}

pub begin_dial-Quiet : (io : Bool) (c : Client) → Quiet c (begin_dial io c).0
unfolding begin_dial
begin_dial-Quiet io c =
    let sent = write_packet c.session type_syn 0 0 [] io in
    let after = record c { session = sent.0 } in
    let quiet = sent-Quiet c sent.0 (write_packet-SameLife c.session type_syn 0 0 [] io) in
    ground (arith, quiet, trans-Quiet quiet (shutdown-Quiet after))

pub dial_step-Quiet :
    (deadline : ℕ) (e : Selected) (c : Client) → Quiet c (dial_step deadline e c).0
unfolding dial_step
dial_step-Quiet deadline on_handshake c = same-Quiet c
dial_step-Quiet deadline on_done c = shutdown-Quiet c
dial_step-Quiet deadline (on_tick now io) c =
    let sent = write_packet c.session type_syn 0 0 [] io in
    ground (
      arith,
      shutdown-Quiet c,
      sent-Quiet c sent.0 (write_packet-SameLife c.session type_syn 0 0 [] io),
    )

-- What `close_client` does the first time.
abbrev pub closing : Client → Client
closing c = record c { session = (close c.session).0; close_once = true }

closing-Quiet : (c : Client) → Quiet c (shutdown (closing c))
closing-Quiet c = record {
  same_id = (shutdown-Quiet (closing c)).same_id ∙ close-id c.session;
  opened_before =
      λ o. ground (arith, (shutdown-Quiet (closing c)).opened_before o, close-closed c.session);
  ends = λ r e. shutdown-Released (closing c) (λ e. ((r e).0, close-closed c.session));
  once = λ r e. shutdown-stopped (closing c);
}

pub close_client-Quiet : (c : Client) → Quiet c (close_client c).0
unfolding close_client
close_client-Quiet c = ground (arith, same-Quiet c, closing-Quiet c)
