-- ===== src/Inject/Forward.antt =====
-- protocol/minecraft: what reaches the server of a client that logs in, from the sniffer to the join.
use zbproxy_a.Base.{
  ℕ, ◌+◌, ◌^◌, ◌≤◌, ◌<◌, List, [], ◌++◌, true, false, leb, ◌&&◌, length, Option, none, some, ◌≡◌,
  refl, ap, ap₂, ◌∙◌, arith, append_assoc, length-append,
}
use zbproxy_a.Wire.{Conn}
use zbproxy_a.Buf.{Buffer, ok, IsValid, unread, bytes, advance}
use zbproxy_a.Buf as Buf
use zbproxy_a.Mc.{var_int_bytes}
use zbproxy_a.Cached.{CachedConn, At, cache_size, rewind_conn, new_cache}
use zbproxy_a.Route.Values.{Minecraft, Metadata, clean_origin_destination}
use zbproxy_a.Sniff.{intent_login, sniff_client_handshake, done, max_packet_size}
use zbproxy_a.Sniff.Login.{handshake_body, login_body, IsHandshake}
use zbproxy_a.Sniff.Recovered.{packet, nonempty, sniff_client_handshake-packet}
use zbproxy_a.Outbound.{Target, opened}
use zbproxy_a.Inject.{
  World, McOutbound, Fate, failed, no_metadata, joined, join, login, take_cache, forward_host,
  forward_port, connect_server, inject_minecraft, inject_connection, passes, rewound,
}
use zbproxy_a.Inject.Writes.{bytes-unread}
use zbproxy_a.Inject.Packets.{construct_handshake-packet}

cache_taken :
    (k : Conn) (o : Option Buffer) (seen ahead : List ℕ)
    → 0 < length seen
    → At seen ahead (record { conn = k; cache = o })
    → (cached : List ℕ) × (d : CachedConn) × (take_cache (record { conn = k; cache = o })
        ≡ ok (cached, d))
      × (cached ++ d.conn.incoming ≡ ahead)
unfolding take_cache new_cache
cache_taken k none seen ahead h (v, e, f) = absurd (nonempty seen h e)
cache_taken k (some b) seen ahead h (v, e, f) = (
  unread b,
  record { conn = k; cache = some (advance (Buf.len b) b) },
  rw (bytes-unread b (v.0)) refl,
  f,
)

-- All that the cache keeps is handed over, and the rest is still to come.
take_cache-At :
    (c : CachedConn) (seen ahead : List ℕ)
    → 0 < length seen
    → At seen ahead c
    → (cached : List ℕ) × (d : CachedConn) × (take_cache c ≡ ok (cached, d))
      × (cached ++ d.conn.incoming ≡ ahead)
take_cache-At c seen ahead h at = cache_taken c.conn c.cache seen ahead h at

-- The server of a client that joins gets what `connectServer` sent, the handshake packet with the host
-- and the port that the settings ask for, and then every byte that the client sent behind its own
-- handshake packet: what is not in this write is what the copy of the connection gives.
pub join-forwards :
    (w : World) (o : McOutbound) (m : Metadata) (mc : Minecraft) (c : CachedConn) (t : Target)
    (sent seen ahead : List ℕ)
    → connect_server w o m ≡ opened t sent
    → w.server_writes ≡ true
    → mc.protocol_version < 2 ^ 32
    → 0 < length (forward_host o mc)
    → length (forward_host o mc) ≤ 8000
    → 0 < length seen
    → At seen ahead c
    → (written : List ℕ) × (d : CachedConn) × (join w o m mc c ≡ joined t written d)
      × (written ++ d.conn.incoming
          ≡ sent
            ++ (packet (
                  handshake_body mc.protocol_version
                    (forward_host o mc)
                    (forward_port mc)
                    intent_login)
                ++ ahead))
unfolding join
join-forwards w o m mc c t sent seen ahead e f g h i j at =
    let (b, r, v, u) =
      construct_handshake-packet mc.protocol_version (forward_host o mc) (forward_port mc)
        intent_login g h i in
    let (cached, d, s, k) = take_cache-At c seen ahead j at in
    (
      sent ++ (unread b ++ cached),
      d,
      rw (e, r, bytes-unread b v, s, f) refl,
      append_assoc sent (unread b ++ cached) d.conn.incoming
          ∙ ap (◌++◌ sent) (append_assoc (unread b) cached d.conn.incoming ∙ ap₂ ◌++◌ u k),
    )

-- What lets a login through: the host and the name pass their lists, and the limit is not reached.
abbrev pub IsAdmitted : World → McOutbound → Minecraft → Type 0
IsAdmitted w o mc =
    (passes w.to_lower o.settings.hostname_access o.hostname_access_lists
        (clean_origin_destination mc)
      ≡ some true)
    × (passes w.to_lower o.settings.name_access o.name_access_lists mc.player_name ≡ some true)
    × ((o.settings.enable_max_limit && leb o.settings.max_online o.online_count) ≡ false)

login-join :
    (w : World) (o : McOutbound) (m : Metadata) (mc : Minecraft) (c : CachedConn)
    → IsAdmitted w o mc
    → login w o m mc c ≡ join w o m mc c
unfolding login
login-join w o m mc c (h, i, j) = simp (i, j) refl

inject_minecraft-join :
    (burst : ℕ → ℕ) (w : World) (o : McOutbound) (m : Metadata) (mc : Minecraft) (c : CachedConn)
    (place : ℕ)
    → mc.next_state ≡ intent_login
    → mc.sniff_position ≡ some place
    → IsAdmitted w o mc
    → inject_minecraft burst w o m mc c ≡ join w o m mc (rewind_conn place c)
unfolding inject_minecraft
inject_minecraft-join burst w o m mc c place f g admitted =
    simp (f, admitted.0)
      (login-join w o m mc (rewound mc c) admitted
        ∙ ap
            (λ p.
              join w o m mc (elim p as (λ x. CachedConn) [ none ↦ c | some q ↦ rewind_conn q c ]))
            g)

-- An admitted login is joined, from the place that its metadata names.
pub inject_connection-join :
    (burst : ℕ → ℕ) (w : World) (o : McOutbound) (m : Metadata) (mc : Minecraft) (c : CachedConn)
    (place : ℕ)
    → m.minecraft ≡ some mc
    → mc.next_state ≡ intent_login
    → mc.sniff_position ≡ some place
    → IsAdmitted w o mc
    → inject_connection burst w o m c ≡ join w o m mc (rewind_conn place c)
unfolding inject_connection
inject_connection-join burst w o m mc c place e f g admitted =
    ap
      (λ n. elim n as (λ x. Fate) [
        | none ↦ failed no_metadata
        | some k ↦ inject_minecraft burst w o m k c
      ])
      e
    ∙ inject_minecraft-join burst w o m mc c place f g admitted

-- The metadata of a login, with the rewrite that a rule may have made of it.
abbrev pub logged_in : ℕ → List ℕ → ℕ → List ℕ → List ℕ → List ℕ → ℕ → Minecraft
logged_in version host port name uuid rewritten rewritten_port = record {
  protocol_version = version;
  player_name = name;
  origin_destination = host;
  origin_port = port;
  uuid = uuid;
  rewritten_destination = rewritten;
  rewritten_port = rewritten_port;
  next_state = intent_login;
  sniff_position = some (length (packet (handshake_body version host port intent_login)));
}

-- From the client to the server: when the client's handshake and login packets are sniffed, a rule
-- rewrites the destination, and the outbound admits the player and reaches the server, then what
-- the server gets is what opens the connection, a handshake with the same version, the host and the
-- port of the rewrite and the settings, the client's own login packet, and all that follows it.
pub sniff-inject :
    (burst : ℕ → ℕ) (version : ℕ) (host : List ℕ) (port : ℕ) (name uuid rest : List ℕ)
    (c : CachedConn) (w : World) (o : McOutbound) (m : Metadata) (rewritten : List ℕ)
    (rewritten_port : ℕ) (t : Target) (sent : List ℕ)
    → IsHandshake version host port intent_login
    → 764 ≤ version
    → 0 < length name
    → length name ≤ 16
    → length uuid ≡ 16
    → length (handshake_body version host port intent_login) ≤ max_packet_size
    → length (packet (handshake_body version host port intent_login))
        + length (packet (login_body name uuid))
      ≤ cache_size
    → At []
        (packet (handshake_body version host port intent_login)
          ++ (packet (login_body name uuid) ++ rest))
        c
    → m.minecraft ≡ some (logged_in version host port name uuid rewritten rewritten_port)
    → IsAdmitted w o (logged_in version host port name uuid rewritten rewritten_port)
    → connect_server w o m ≡ opened t sent
    → w.server_writes ≡ true
    → 0 < length (forward_host o (logged_in version host port name uuid rewritten rewritten_port))
    → length (forward_host o (logged_in version host port name uuid rewritten rewritten_port))
      ≤ 8000
    → (d : CachedConn) × (written : List ℕ) × (e : CachedConn) × (sniff_client_handshake burst none
          c
        ≡ done (logged_in version host port name uuid [] 0, d))
      × (inject_connection burst w o m d ≡ joined t written e)
      × (written ++ e.conn.incoming
          ≡ sent
            ++ (packet (
                  handshake_body version
                    (forward_host o
                      (logged_in version host port name uuid rewritten rewritten_port))
                    (forward_port (logged_in version host port name uuid rewritten rewritten_port))
                    intent_login)
                ++ (packet (login_body name uuid) ++ rest)))
sniff-inject burst version host port name uuid rest c w o m rewritten rewritten_port t sent valid
      recent named fits identified small room at found admitted dials writes some_host host_fits =
    let mc = logged_in version host port name uuid rewritten rewritten_port in
    let body = handshake_body version host port intent_login in
    let (d, r, s) =
      sniff_client_handshake-packet burst version host port intent_login name uuid rest c valid refl
        recent named fits identified small room at in
    let (written, e, f, g) =
      join-forwards w o m mc (rewind_conn (length (packet body)) d) t sent (packet body)
        (packet (login_body name uuid) ++ rest) dials writes (omega (arith, valid.1)) some_host
        host_fits (omega (arith, length-append (var_int_bytes (length body)) body)) s in
    (
      d,
      written,
      e,
      r,
      inject_connection-join burst w o m mc d (length (packet body)) found refl refl admitted ∙ f,
      g,
    )
