-- ===== src/Outbound/Chain.antt =====
-- protocol/outbound.go and service/service.go together: what an outbound sends first is what the
-- service of the next hop takes first.
use zbproxy_a.Base.{
  ℕ, ◌<◌, List, ◌++◌, Bool, true, length, Option, inr, ◌≡◌, sym, ap, ◌∙◌, arith, append_assoc,
}
use zbproxy_a.Route.Values.{String, Metadata}
use zbproxy_a.Wire.{Conn}
use zbproxy_a.Auth.{stored_secret, write}
use zbproxy_a.Auth.Laws.{length-stored_secret, rest_of}
use zbproxy_a.Service.{Service}
use zbproxy_a.Service.Inbound.{Kind, Remote, Headed, handle_inbound, hand_on, remote_ip}
use zbproxy_a.Service.Gate.{IsAllowed, handle_inbound-hand_on}
use zbproxy_a.Outbound.{Outbound, Target, opened, connect, send_secret, send_header}

-- A connection that is opened with the secret begins with it, and it is not empty.
pub connect-opened :
    (dials : Target → Bool) (writes : Bool) (header : Option (List ℕ)) (o : Outbound) (m : Metadata)
    (t : Target) (bytes : List ℕ)
    → o.config.send_auth_secret ≡ true
    → connect dials writes header o m ≡ opened t bytes
    → (0 < length o.auth_secret)
      × ((sent : List ℕ) × (send_header header o ≡ inr sent) × (bytes ≡ o.auth_secret ++ sent))
unfolding connect send_secret write
connect-opened dials writes header o m t bytes sends e = ground arith

-- Two nodes whose configuration has the same secret work together: when the outbound of the one opens
-- a connection, the service of the other, which requires the secret, takes the secret off the bytes
-- that come, whatever the payload behind them, and hands on the header, if any, and the payload.
module _ (ip_string : ℕ → Bool → String) (handle_proxy : Conn → Metadata → Headed) where
  pub connect-handle_inbound :
      (secret : String) (o : Outbound) (s : Service) (dials : Target → Bool) (writes : Bool)
      (header : Option (List ℕ)) (m : Metadata) (t : Target) (bytes payload : List ℕ) (now : ℕ)
      (k : Kind) (r : Remote) (c : Conn)
      → o.auth_secret ≡ stored_secret secret
      → s.auth_secret ≡ stored_secret secret
      → o.config.send_auth_secret ≡ true
      → s.config.require_auth_secret ≡ true
      → IsAllowed s (remote_ip ip_string handle_proxy r)
      → connect dials writes header o m ≡ opened t bytes
      → c.incoming ≡ bytes ++ payload
      → (sent : List ℕ) × (send_header header o ≡ inr sent)
        × (handle_inbound ip_string handle_proxy now s k r c
            ≡ hand_on ip_string handle_proxy s r (rest_of (sent ++ payload) c))
  connect-handle_inbound secret o s dials writes header m t bytes payload now k r c p q sends
        requires allowed e f =
      let (some_secret, (sent, g, h)) = connect-opened dials writes header o m t bytes sends e in
      let same : o.auth_secret ≡ s.auth_secret = p ∙ sym q in
      (
        sent,
        g,
        handle_inbound-hand_on ip_string handle_proxy now s k r c (sent ++ payload) requires
            (omega (arith, ap length q, length-stored_secret secret))
            (
              omega (arith, some_secret, ap length same),
              f
                  ∙ ap (λ xs. xs ++ payload) (h ∙ ap (λ xs. xs ++ sent) same)
                  ∙ append_assoc s.auth_secret sent payload,
            )
            allowed,
      )
