-- ===== src/Inject.antt =====
-- protocol/minecraft/outbound.go: `InjectConnection`, which answers a status request, kicks a player or
-- joins the client to the server. The connection to the server is that of `connectServer`
-- (Outbound.connect); the texts of the MOTD and of the kick messages, `strings.ToLower` and whether the
-- writes succeed are given from outside. Once joined, the streams are only copied.
pub mod Building
pub mod Fates
pub mod Writes
pub mod Packets
pub mod Forward
pub mod Online
pub mod Legacy
pub use Fates.*
use zbproxy_a.Base.{
  ℕ, ◌+◌, ◌%◌, ◌^◌, List, [], ◌∷◌, ◌++◌, Bool, true, false, ltb, leb, ◌==◌, ◌&&◌, ◌||◌, not,
  if◌then◌else◌, length, copy_at, Option, none, some, replicate,
}
use zbproxy_a.Base.Bytes.{put_be}
use zbproxy_a.Buf.{
  Buffer, Result, ok, err, panic, then_do, write, write_byte, write_zero_n, extend, reset, bytes,
  advance,
}
use zbproxy_a.Buf as Buf
use zbproxy_a.Mc.{write_var_int, append_packet_length, max_var_int_len}
use zbproxy_a.Inject.Building.{construct_handshake, construct_status, text_packet, instant_pong}
use zbproxy_a.Access.{check}
use zbproxy_a.Access as Access
use zbproxy_a.Cached.{CachedConn, rewind_conn}
use zbproxy_a.Cached as Cached
use zbproxy_a.Route.{StringSet, intent_status, intent_transfer}
use zbproxy_a.Route.Values.{
  String, Minecraft, Metadata, clean_origin_destination, is_fml, fml_markup, is_positive8,
}
use zbproxy_a.Sniff.{intent_login}
use zbproxy_a.Outbound.{
  Outbound, Dialed, Target, opened, closed, unconnected, or_target_host, or_target_port,
}
use zbproxy_a.Outbound as Outbound

-- The host of the handshake that the server gets.
unfoldable pub forward_host : McOutbound → Minecraft → String
forward_host o m =
    let clean = clean_origin_destination m in
    let s = o.settings in
    let name =
      if s.enable_hostname_rewrite
      then (if length s.rewritten_hostname == 0
          then o.base.config.target_address
          else s.rewritten_hostname)
      else if length m.rewritten_destination == 0
      then clean
      else m.rewritten_destination in
    if not s.ignore_fml_suffix && is_fml m then name ++ (0 ∷ fml_markup m) else name

unfoldable pub forward_port : Minecraft → ℕ
forward_port m = if m.rewritten_port == 0 then m.origin_port else m.rewritten_port

-- `cache.Bytes()` and `cache.Advance(cache.Len())`: a connection without a cache is a nil pointer.
unfoldable pub take_cache : CachedConn → Result (List ℕ × CachedConn)
unfolding bytes advance
take_cache c = elim c.cache [
  | none ↦ panic
  | some b ↦ then_do (bytes b) (λ bs. ok (bs, record c { cache = some (advance (Buf.len b) b) }))
]

-- `connectServer` fills in the destination first.
abbrev pub with_destination : McOutbound → Metadata → Metadata
with_destination o m = record m {
  destination_hostname = or_target_host o.base.config m;
  destination_port = or_target_port o.base.config m;
}

-- `connectServer`: which dials succeed, whether the secret can be written, and the bytes of the PROXY
-- protocol header are given. The SRV record, which only a dialer looks up, is left out.
unfoldable pub connect_server : World → McOutbound → Metadata → Dialed
connect_server w o m =
    let n = with_destination o m in Outbound.connect w.dials w.opening_writes (w.header n) o.base n

-- A login: the limit was passed and the name may play.
unfoldable pub join : World → McOutbound → Metadata → Minecraft → CachedConn → Fate
unfolding construct_handshake take_cache forward_host forward_port
join w o m mc c = on_dialed (connect_server w o m) (λ t sent.
    attempt handshake_write
      (construct_handshake mc.protocol_version (forward_host o mc) (forward_port mc) intent_login)
      (λ b. attempt handshake_write (bytes b) (λ handshake.
        attempt handshake_write (take_cache c) (λ r.
          if w.server_writes
          then joined t (sent ++ (handshake ++ r.0)) r.1
          else failed handshake_write))))

unfoldable pub login : World → McOutbound → Metadata → Minecraft → CachedConn → Fate
unfolding join
login w o m mc c =
    checked (passes w.to_lower o.settings.name_access o.name_access_lists mc.player_name)
      (kick_with w.client_writes w.over_tcp (w.kick_message mc.player_name))
      (if o.settings.enable_max_limit && leb o.settings.max_online o.online_count
        then kick_with w.client_writes w.over_tcp (w.limit_message mc.player_name)
        else join w o m mc c)

-- A status request: passed on to the server, or answered with the MOTD.
unfoldable pub relay_status : World → McOutbound → Metadata → Minecraft → CachedConn → Fate
unfolding construct_handshake construct_status forward_host forward_port
relay_status w o m mc c = on_dialed (connect_server w o m) (λ t sent.
    let n : Minecraft = record mc {
      rewritten_destination =
          if length mc.rewritten_destination == 0
          then clean_origin_destination mc
          else mc.rewritten_destination;
      rewritten_port = if mc.rewritten_port == 0 then mc.origin_port else mc.rewritten_port;
    } in
    attempt handshake_write
      (then_do
        (construct_handshake n.protocol_version (forward_host o n) (forward_port n) intent_status)
        (λ b. then_do (construct_status b) bytes))
      (λ bs. if w.server_writes then joined t (sent ++ bs) c else failed handshake_write))

unfoldable pub answer_status : World → McOutbound → Fate
unfolding text_packet instant_pong
answer_status w o = attempt motd_write (text_packet w.motd) (λ motd.
    if not w.client_writes then failed motd_write else elim o.settings.ping_mode [
      | disconnect ↦ answered motd false
      | zero_ms ↦
          attempt motd_write instant_pong (λ pong_bytes. answered (motd ++ pong_bytes) false)
      | pong ↦ answered motd true
    ])

unfoldable pub status : (ℕ → ℕ) → World → McOutbound → Metadata → Minecraft → CachedConn → Fate
unfolding relay_status answer_status
status burst w o m mc c = attempt status_request (Cached.peek burst 2 c) (λ p.
    if (length o.settings.motd_favicon == 0) && (length o.settings.motd_description == 0)
    then relay_status w o m mc p.1
    else answer_status w o)

-- The first part of `PostInitialize`: the two lists, in order, each unless its mode is the default.
abbrev pub lists_of :
    (List String → Option (List StringSet))
    → Access.Mode
    → List String
    → List StringSet
    → Option (List StringSet)
lists_of find mode tags before = elim mode [
  | Access.unset ↦ some before
  | Access.allow ↦ find tags
  | Access.block ↦ find tags
  | Access.other ↦ find tags
]

-- Nil on an error, as `FindListsByTag` returns it.
abbrev pub or_nil : Option (List StringSet) → List StringSet
or_nil none = []
or_nil (some lists) = lists

unfoldable pub load_access :
    (List String → Option (List StringSet))
    → List String
    → List String
    → McOutbound
    → Bool × McOutbound
load_access find hostname_tags name_tags o =
    let hosts =
      lists_of find o.settings.hostname_access.mode hostname_tags o.hostname_access_lists in
    let names = lists_of find o.settings.name_access.mode name_tags o.name_access_lists in
    let first : McOutbound = record o { hostname_access_lists = or_nil hosts } in
    elim hosts [
      | none ↦ (false, first)
      | some h ↦ (
        elim names [ none ↦ false | some n ↦ true ],
        record first { name_access_lists = or_nil names },
      )
    ]

abbrev pub rewound : Minecraft → CachedConn → CachedConn
rewound mc c = elim mc.sniff_position [ none ↦ c | some p ↦ rewind_conn p c ]

unfoldable pub inject_minecraft :
    (ℕ → ℕ) → World → McOutbound → Metadata → Minecraft → CachedConn → Fate
unfolding login status
inject_minecraft burst w o m mc c =
    if not (is_positive8 mc.next_state)
    then failed invalid_protocol
    else checked
        (passes w.to_lower o.settings.hostname_access o.hostname_access_lists
          (clean_origin_destination mc))
        (on_tcp w.over_tcp (failed hostname_rejected))
        (if mc.next_state == intent_status
          then status burst w o m mc (rewound mc c)
          else if mc.next_state == intent_login
          then login w o m mc (rewound mc c)
          else if mc.next_state == intent_transfer
          then on_tcp w.over_tcp dropped
          else failed unknown_intent)

unfoldable pub inject_connection : (ℕ → ℕ) → World → McOutbound → Metadata → CachedConn → Fate
unfolding inject_minecraft
inject_connection burst w o m c = elim m.minecraft [
  | none ↦ failed no_metadata
  | some mc ↦ inject_minecraft burst w o m mc c
]
