-- ===== src/Sniff/Login.antt =====
-- protocol/minecraft/sniff.go: what the sniffer makes of the two packets as the protocol lays them out.
use zbproxy_a.Base.{
  ℕ, ◌-◌, ◌^◌, ◌≤◌, ◌<◌, List, [], ◌∷◌, ◌++◌, true, length, ◌≡◌, refl, ap, ◌∙◌, arith, lt→leb,
  le→leb, ==-apart, copy_at, eq→==,
}
use zbproxy_a.Base.Bytes.{put_be}
use zbproxy_a.Buf.{Buffer, ok, as_data, bytes}
use zbproxy_a.Buf.Slices.{slice_lem}
use zbproxy_a.Buf.Queue.Methods.{length-unread}
use zbproxy_a.Mc.{var_int_bytes}
use zbproxy_a.Route.Values.{Minecraft}
use zbproxy_a.Sniff.{
  done, sniff_handshake, sniff_intent, sniff_login, sniff_profile, copy_uuid, is_intent, max_int32,
}
use zbproxy_a.Sniff.Steps.{
  Holds, as_data-Holds, read_byte-Holds, read_var_int-Holds, read_limited_string-Holds,
  string_bytes, read_uint16-Holds,
}

abbrev pub handshake_body : ℕ → List ℕ → ℕ → ℕ → List ℕ
handshake_body version host port intent =
    0 ∷ (var_int_bytes version ++ (string_bytes host ++ (put_be 2 port ++ (intent ∷ []))))

-- A login packet with a UUID, as protocol versions from 764 on have it.
abbrev pub login_body : List ℕ → List ℕ → List ℕ
login_body name uuid = 0 ∷ (string_bytes name ++ uuid)

abbrev pub IsHandshake : ℕ → List ℕ → ℕ → ℕ → Type 0
IsHandshake version host port intent =
    (0 < version)
    × (version < 2 ^ 31)
    × (0 < length host)
    × (length host < 2 ^ 31)
    × (0 < port)
    × (port < 65536)
    × (is_intent intent ≡ true)

sniff_intent-Holds :
    (m : Minecraft) (port intent : ℕ) (b : Buffer)
    → 0 < port
    → port < 65536
    → is_intent intent ≡ true
    → Holds (put_be 2 port ++ (intent ∷ [])) b
    → sniff_intent m b ≡ done (record m { origin_port = port; next_state = intent })
unfolding sniff_intent
sniff_intent-Holds m port intent b p q h holds =
    let (c, r, s) = read_uint16-Holds port (intent ∷ []) b q holds in
    let (d, t, u) = read_byte-Holds intent [] c s in
    rw (r, ==-apart port 0 (omega arith), t, h) refl

-- The handshake packet gives its four fields to the metadata.
pub sniff_handshake-handshake_body :
    (m : Minecraft) (version : ℕ) (host : List ℕ) (port intent : ℕ)
    → IsHandshake version host port intent
    → sniff_handshake m (as_data (handshake_body version host port intent))
      ≡ done (record m {
        protocol_version = version;
        origin_destination = host;
        origin_port = port;
        next_state = intent;
      })
unfolding sniff_handshake
sniff_handshake-handshake_body m version host port intent (p, q, r, s, t, u, h) =
    let tail = put_be 2 port ++ (intent ∷ []) in
    let body = handshake_body version host port intent in
    let (b, e, f) =
      read_byte-Holds 0 (var_int_bytes version ++ (string_bytes host ++ tail)) (as_data body)
        (as_data-Holds body) in
    let (c, g, k) = read_var_int-Holds version (string_bytes host ++ tail) b (omega arith) f in
    let (d, l, n) = read_limited_string-Holds max_int32 host tail c r (omega (arith, s)) s k in
    rw
      (
        e,
        g,
        lt→leb (2 ^ 31) version q,
        ==-apart version 0 (omega arith),
        l,
        ==-apart (length host) 0 (omega (arith, r)),
      )
      (sniff_intent-Holds (record m { protocol_version = version; origin_destination = host }) port
        intent d t u h n)

bytes-Holds : (xs : List ℕ) (b : Buffer) → Holds xs b → bytes b ≡ ok xs
unfolding bytes
bytes-Holds xs b ((p, q, r), e) =
    slice_lem b.content b.start b.end p (omega (arith, q, r)) ∙ ap ok e

length-Holds : (xs : List ℕ) (b : Buffer) → Holds xs b → b.end - b.start ≡ length xs
length-Holds xs b (v, e) = omega (arith, length-unread b v, ap length e)

copy_whole : (xs ys : List ℕ) → length xs ≡ length ys → copy_at 0 xs ys ≡ xs
copy_whole [] [] h = refl
copy_whole [] (y ∷ ys) h = absurd (omega arith)
copy_whole (x ∷ xs) [] h = absurd (omega arith)
copy_whole (x ∷ xs) (y ∷ ys) h = ap (◌∷◌ x) (copy_whole xs ys (omega arith))

sniff_profile-Holds :
    (m : Minecraft) (uuid : List ℕ) (b : Buffer)
    → 764 ≤ m.protocol_version
    → length uuid ≡ 16
    → length m.uuid ≡ 16
    → Holds uuid b
    → sniff_profile m b ≡ done (record m { uuid = uuid })
unfolding sniff_profile copy_uuid
sniff_profile-Holds m uuid b p q r holds =
    rw
      (
        le→leb 764 m.protocol_version p,
        eq→== (b.end - b.start) 16 (omega (arith, length-Holds uuid b holds)),
        bytes-Holds uuid b holds,
      )
      (ap (λ xs. done (record m { uuid = xs })) (copy_whole uuid m.uuid (omega (arith, q, r))))

-- A login packet of version 764 or later gives the player's name and the UUID.
pub sniff_login-login_body :
    (m : Minecraft) (name uuid : List ℕ)
    → 764 ≤ m.protocol_version
    → 0 < length name
    → length name ≤ 16
    → length uuid ≡ 16
    → length m.uuid ≡ 16
    → sniff_login m (as_data (login_body name uuid))
      ≡ done (record m { player_name = name; uuid = uuid })
unfolding sniff_login
sniff_login-login_body m name uuid p q r s t =
    let body = login_body name uuid in
    let (b, e, f) =
      read_byte-Holds 0 (string_bytes name ++ uuid) (as_data body) (as_data-Holds body) in
    let (c, g, h) = read_limited_string-Holds 16 name uuid b q r (omega (arith, r)) f in
    rw (e, g) (sniff_profile-Holds (record m { player_name = name }) uuid c p s t h)
