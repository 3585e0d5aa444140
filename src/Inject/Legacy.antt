-- ===== src/Inject/Legacy.antt =====
-- service/service.go: the legacy Minecraft outbound of `handleInbound`, which sniffs the handshake,
-- releases the cache of the connection and then injects it.
use zbproxy_a.Base.{
  ℕ, ◌+◌, ◌^◌, ◌≤◌, ◌<◌, List, [], ◌++◌, length, none, some, ◌≡◌, refl, ap, ◌∙◌, arith,
}
use zbproxy_a.Cached.{CachedConn, At, cache_size, rewind_conn, release}
use zbproxy_a.Route.Values.{Minecraft, Metadata}
use zbproxy_a.Sniff.{
  Sniffed, done, refused, panics, intent_login, sniff_client_handshake, max_packet_size,
}
use zbproxy_a.Sniff as Sniff
use zbproxy_a.Sniff.Login.{handshake_body, login_body, IsHandshake}
use zbproxy_a.Sniff.Recovered.{packet, sniff_client_handshake-packet}
use zbproxy_a.Outbound.{Target, opened}
use zbproxy_a.Inject.{
  World, McOutbound, Fate, join, take_cache, inject_connection, connect_server, forward_host,
  forward_port,
}
use zbproxy_a.Inject as Inject
use zbproxy_a.Inject.Writes.{bytes-unread}
use zbproxy_a.Inject.Packets.{construct_handshake-packet}
use zbproxy_a.Inject.Forward.{IsAdmitted, inject_connection-join, logged_in}

pub data Legacy : Type 0 where
  bad_handshake : Sniff.Error → Legacy
  injected : Fate → Legacy
  crashes : Legacy

abbrev pub on_sniffed :
    (ℕ → ℕ) → World → McOutbound → Metadata → Sniffed (Minecraft × CachedConn) → Legacy
on_sniffed burst w o m panics = crashes
on_sniffed burst w o m (refused e n) = bad_handshake e
on_sniffed burst w o m (done r) =
    injected (inject_connection burst w o (record m { minecraft = some r.0 }) (release r.1))

unfoldable pub handle_legacy : (ℕ → ℕ) → World → McOutbound → Metadata → CachedConn → Legacy
handle_legacy burst w o m c = on_sniffed burst w o m (sniff_client_handshake burst m.minecraft c)

-- A join needs the cache that was released.
join-release :
    (w : World) (o : McOutbound) (m : Metadata) (mc : Minecraft) (c : CachedConn) (place : ℕ)
    (t : Target) (sent : List ℕ)
    → connect_server w o m ≡ opened t sent
    → mc.protocol_version < 2 ^ 32
    → 0 < length (forward_host o mc)
    → length (forward_host o mc) ≤ 8000
    → join w o m mc (rewind_conn place (release c)) ≡ Inject.panics
unfolding join rewind_conn release take_cache
join-release w o m mc c place t sent e f g h =
    let (b, r, v, u) =
      construct_handshake-packet mc.protocol_version (forward_host o mc) (forward_port mc)
        intent_login f g h in
    rw (e, r, bytes-unread b v) refl

-- In legacy mode a client that logs in crashes the proxy: its handshake and login packets are sniffed,
-- the player is admitted and the server is reached, and then the join takes the bytes of the cache
-- that was released before.
pub handle_legacy-panics :
    (burst : ℕ → ℕ) (version : ℕ) (host : List ℕ) (port : ℕ) (name uuid rest : List ℕ)
    (c : CachedConn) (w : World) (o : McOutbound) (m : Metadata) (t : Target) (sent : List ℕ)
    → IsHandshake version host port intent_login
    → 764 ≤ version
    → 0 < length name
    → length name ≤ 16
    → length uuid ≡ 16
    → length (handshake_body version host port intent_login) ≤ max_packet_size
    → length (packet (handshake_body version host port intent_login))
        + length (packet (login_body name uuid))
      ≤ cache_size
    → At []
        (packet (handshake_body version host port intent_login)
          ++ (packet (login_body name uuid) ++ rest))
        c
    → m.minecraft ≡ none
    → IsAdmitted w o (logged_in version host port name uuid [] 0)
    → connect_server w o
        (record m { minecraft = some (logged_in version host port name uuid [] 0) })
      ≡ opened t sent
    → 0 < length (forward_host o (logged_in version host port name uuid [] 0))
    → length (forward_host o (logged_in version host port name uuid [] 0)) ≤ 8000
    → handle_legacy burst w o m c ≡ injected Inject.panics
unfolding handle_legacy
handle_legacy-panics burst version host port name uuid rest c w o m t sent valid recent named fits
      identified small room at unknown admitted dials some_host host_fits =
    let mc = logged_in version host port name uuid [] 0 in
    let n : Metadata = record m { minecraft = some mc } in
    let place = length (packet (handshake_body version host port intent_login)) in
    let (d, r, s) =
      sniff_client_handshake-packet burst version host port intent_login name uuid rest c valid refl
        recent named fits identified small room at in
    let crash : inject_connection burst w o n (release d) ≡ Inject.panics =
      inject_connection-join burst w o n mc (release d) place refl refl refl admitted
      ∙ join-release w o n mc d place t sent dials (omega (arith, valid.1)) some_host host_fits in
    ap (on_sniffed burst w o m) (ap (λ k. sniff_client_handshake burst k c) unknown ∙ r)
    ∙ ap injected crash
