-- ===== src/Sniff/Recovered.antt =====
-- protocol/minecraft/sniff.go: sniffing a login recovers what the client sent, and keeps the stream.
use zbproxy_a.Base.{
  ℕ, ◌+◌, ◌^◌, ◌≤◌, ◌<◌, List, [], ◌∷◌, ◌++◌, Bool, true, false, ltb, ◌==◌, length, take, drop, ◌≡◌,
  refl, sym, ap, ◌∙◌, arith, lt→leb, le→ltb, Option, none, some, length-append, append_assoc,
  take-append-drop, take-append, drop-append, ◌≢◌, not, ◌&&◌, subst, replicate, length-take,
}
use zbproxy_a.Wire.{Conn}
use zbproxy_a.Buf.{Buffer, rewind, unread}
use zbproxy_a.Buf.Slices.{take-take}
use zbproxy_a.Mc.{var_int_bytes, is_negative}
use zbproxy_a.Wire.{set_read_deadline}
use zbproxy_a.Cached.{
  CachedConn, timed, untimed, At, IsCache, new_cache, cache_size, current_position, rewind_conn,
}
use zbproxy_a.Route.{intent_status}
use zbproxy_a.Route.Values.{Minecraft}
use zbproxy_a.Sniff.{
  cleared, done, read_packet, sniff_second, sniff_client_handshake, new_minecraft, max_packet_size,
}
use zbproxy_a.Sniff.Steps.{read_var_int_from-At, peek_bytes-At}
use zbproxy_a.Sniff.Login.{
  handshake_body, login_body, IsHandshake, sniff_handshake-handshake_body, sniff_login-login_body,
}

-- A packet: its content behind its length.
abbrev pub packet : List ℕ → List ℕ
packet body = var_int_bytes (length body) ++ body

read_packet-At :
    (burst : ℕ → ℕ) (too_large : ℕ → Bool) (m : Minecraft) (body seen rest : List ℕ)
    (c : CachedConn)
    → length body < 2 ^ 31
    → too_large (length body) ≡ false
    → At seen (packet body ++ rest) c
    → length seen + length (packet body) ≤ cache_size
    → (d : CachedConn) × (read_packet burst too_large m c ≡ done (body, d))
      × At (seen ++ packet body) rest d
unfolding read_packet
read_packet-At burst too_large m body seen rest c small fits at room =
    let size = var_int_bytes (length body) in
    let total = length-append size body in
    let (d, r, s) =
      read_var_int_from-At (length body) seen (body ++ rest) c (omega arith)
        (subst (λ xs. At seen xs c) (append_assoc size body rest) at)
        (omega (arith, room, total)) in
    let (e, t, u) =
      peek_bytes-At burst body (seen ++ size) rest d s
        (omega (arith, room, total, length-append seen size)) in
    (
      e,
      rw (r, fits, lt→leb (2 ^ 31) (length body) small, t) refl,
      subst (λ xs. At xs rest e) (append_assoc seen size body) u,
    )

pub nonempty : {A : Type 0} (xs : List A) → 0 < length xs → [] ≢ xs
nonempty xs h e = omega (arith, h, ap length e)

position_of :
    (k : Conn) (o : Option Buffer) (seen ahead : List ℕ)
    → 0 < length seen
    → At seen ahead (record { conn = k; cache = o })
    → current_position (record { conn = k; cache = o }) ≡ some (length seen)
unfolding current_position new_cache
position_of k none seen ahead h (v, e, f) = absurd (nonempty seen h e)
position_of k (some b) seen ahead h (v, e, f) =
    ap some (omega (arith, ap length e, length-take b.start b.content, v.0.0, v.0.1, v.0.2))

current_position-At :
    (seen ahead : List ℕ) (c : CachedConn)
    → 0 < length seen
    → At seen ahead c
    → current_position c ≡ some (length seen)
current_position-At seen ahead c h at = position_of c.conn c.cache seen ahead h at

rewound :
    (b : Buffer) (s t : List ℕ)
    → IsCache b
    → take b.start b.content ≡ s ++ t
    → IsCache (rewind (length s) b)
      × (take (length s) b.content ≡ s)
      × (unread (rewind (length s) b) ≡ t ++ unread b)
unfolding rewind
rewound b s t ((p, q, r), z) e =
    let place : length s + length t ≡ b.start =
      omega (arith, ap length e, length-append s t, length-take b.start b.content, p, q, r) in
    let whole : take b.end b.content ≡ s ++ (t ++ unread b) =
      sym (take-append-drop b.start (take b.end b.content))
      ∙ ap (λ xs. xs ++ unread b) (take-take b.start b.end b.content p ∙ e)
      ∙ append_assoc s t (unread b) in
    (
      ((omega (arith, p, place), q, r), z),
      sym (take-take (length s) b.end b.content (omega (arith, p, place)))
          ∙ ap (take (length s)) whole
          ∙ take-append (length s) s (t ++ unread b) refl,
      ap (drop (length s)) whole ∙ drop-append (length s) s (t ++ unread b) refl,
    )

rewound_place :
    (k : Conn) (o : Option Buffer) (s t ahead : List ℕ)
    → At (s ++ t) ahead (record { conn = k; cache = o })
    → At s (t ++ ahead) (rewind_conn (length s) (record { conn = k; cache = o }))
unfolding rewind_conn new_cache rewind
rewound_place k none [] [] ahead at = at
rewound_place k none [] (x ∷ t) ahead (v, e, f) = absurd (nonempty (x ∷ t) (omega arith) e)
rewound_place k none (x ∷ s) t ahead (v, e, f) = absurd (nonempty (x ∷ (s ++ t)) (omega arith) e)
rewound_place k (some b) s t ahead (v, e, f) =
    let (w, g, h) = rewound b s t v e in
    (w, g, ap (λ xs. xs ++ k.incoming) h ∙ append_assoc t (unread b) k.incoming ∙ ap (◌++◌ t) f)

-- `Rewind` to a place that was passed gives the bytes since then again, before the rest.
pub rewind_conn-At :
    (c : CachedConn) (seen again ahead : List ℕ)
    → At (seen ++ again) ahead c
    → At seen (again ++ ahead) (rewind_conn (length seen) c)
rewind_conn-At c seen again ahead at = rewound_place c.conn c.cache seen again ahead at

sniff_second-At :
    (burst : ℕ → ℕ) (m : Minecraft) (name uuid seen rest : List ℕ) (c : CachedConn)
    → (m.next_state == intent_status) ≡ false
    → 764 ≤ m.protocol_version
    → 0 < length name
    → length name ≤ 16
    → length uuid ≡ 16
    → length m.uuid ≡ 16
    → At seen (packet (login_body name uuid) ++ rest) c
    → length seen + length (packet (login_body name uuid)) ≤ cache_size
    → (d : CachedConn) × (sniff_second burst m c
        ≡ done (record m { player_name = name; uuid = uuid }, d))
      × At (seen ++ packet (login_body name uuid)) rest d
unfolding sniff_second
sniff_second-At burst m name uuid seen rest c intent p q r s t at room =
    let body = login_body name uuid in
    let (d, e, f) =
      read_packet-At burst (λ n. false) m body seen rest c
        (omega (arith, room, length-append (var_int_bytes (length body)) body)) refl at room in
    (d, rw (intent, e, sniff_login-login_body m name uuid p q r s t) refl, f)

within_limit :
    (n : ℕ) → n ≤ max_packet_size → (not (is_negative n) && ltb max_packet_size n) ≡ false
within_limit n h = rw (le→ltb max_packet_size n h) (and_false (not (is_negative n)))
  where
    and_false : (b : Bool) → (b && false) ≡ false
    and_false true = refl
    and_false false = refl

-- A client that sends a handshake and a login packet of version 764 or later, over a connection of
-- which nothing was read, is sniffed right: the metadata has the version, the destination, the port,
-- the intent, the name and the UUID that it sent, and the place of the login packet; and rewinding to
-- this place gives the login packet and all that follows it, with no byte lost.
pub sniff_client_handshake-packet :
    (burst : ℕ → ℕ) (version : ℕ) (host : List ℕ) (port intent : ℕ) (name uuid rest : List ℕ)
    (c : CachedConn)
    → IsHandshake version host port intent
    → (intent == intent_status) ≡ false
    → 764 ≤ version
    → 0 < length name
    → length name ≤ 16
    → length uuid ≡ 16
    → length (handshake_body version host port intent) ≤ max_packet_size
    → length (packet (handshake_body version host port intent))
        + length (packet (login_body name uuid))
      ≤ cache_size
    → At []
        (packet (handshake_body version host port intent)
          ++ (packet (login_body name uuid) ++ rest))
        c
    → (d : CachedConn) × (sniff_client_handshake burst none c
        ≡ done (
          record {
            protocol_version = version;
            player_name = name;
            origin_destination = host;
            origin_port = port;
            uuid = uuid;
            rewritten_destination = [];
            rewritten_port = 0;
            next_state = intent;
            sniff_position = some (length (packet (handshake_body version host port intent)));
          },
          d,
        ))
      × At
          (packet (handshake_body version host port intent))
          (packet (login_body name uuid) ++ rest)
          (rewind_conn (length (packet (handshake_body version host port intent))) d)
unfolding sniff_client_handshake new_minecraft set_read_deadline
sniff_client_handshake-packet burst version host port intent name uuid rest c h i p q r s fits room
      at =
    let body = handshake_body version host port intent in
    let login = packet (login_body name uuid) in
    let first = packet body in
    let (d, e, f) =
      read_packet-At burst (λ n. not (is_negative n) && ltb max_packet_size n) new_minecraft body []
        (login ++ rest) (timed c) (omega (arith, fits)) (within_limit (length body) fits) at
        (omega (arith, room)) in
    let m : Minecraft = record {
      protocol_version = version;
      player_name = [];
      origin_destination = host;
      origin_port = port;
      uuid = replicate 16 0;
      rewritten_destination = [];
      rewritten_port = 0;
      next_state = intent;
      sniff_position = some (length first);
    } in
    let (g, k, l) = sniff_second-At burst m name uuid first rest d i p q r s refl f room in
    (
      untimed g,
      rw
          (
            e,
            sniff_handshake-handshake_body new_minecraft version host port intent h,
            current_position-At first (login ++ rest) d
                (omega (arith, length-append (var_int_bytes (length body)) body)) f,
          )
          (ap cleared k),
      rewind_conn-At (untimed g) first login rest l,
    )
