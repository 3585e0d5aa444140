-- ===== src/Route/Handle.antt =====
-- route/router.go: `HandleConnection` up to the choice of the outbound, and `findOutboundByName`.
-- Sniffing (protocol.Sniff) with its registry is a parameter, which reads and rewinds the connection. An
-- outbound of the configuration is its place in the list of outbounds.
use zbproxy_a.Base.{
  ℕ, List, [], ◌∷◌, Bool, true, false, ltb, ◌==◌, if◌then◌else◌, not, Option, none, some, length,
}
use zbproxy_a.Base.Assoc.{◌===◌, bytes_eq, lookup}
use zbproxy_a.Cached.{CachedConn}
use zbproxy_a.Route.{Rule, config, match}
use zbproxy_a.Route.Values.{
  String, Metadata, Minecraft, Rewrite, RewriteMinecraft, RuleConfig, is_positive8,
}

pub data Outbound : Type 0 where
  reject_outbound reset_outbound : Outbound
  configured : ℕ → Outbound

-- The map of the outbounds, which may be nil.
abbrev pub OutboundMap : Type 0
OutboundMap = Option (List (String × ℕ))

-- "REJECT" and "RESET"
abbrev pub reject_name : String
reject_name = 82 ∷ (69 ∷ (74 ∷ (69 ∷ (67 ∷ (84 ∷ [])))))

abbrev pub reset_name : String
reset_name = 82 ∷ (69 ∷ (83 ∷ (69 ∷ (84 ∷ []))))

unfoldable pub find_outbound_by_name : OutboundMap → String → Option Outbound
find_outbound_by_name map name =
    if name === reject_name
    then some reject_outbound
    else if name === reset_name
    then some reset_outbound
    else elim map [
      | none ↦ none
      | some outbounds ↦ elim (lookup name outbounds) [ none ↦ none | some o ↦ some (configured o) ]
    ]

abbrev pub is_empty : String → Bool
is_empty s = length s == 0

abbrev pub rewrite_minecraft_fields : RewriteMinecraft → Minecraft → Minecraft
rewrite_minecraft_fields w m = record m {
  rewritten_destination = if not (is_empty w.hostname) then w.hostname else m.rewritten_destination;
  rewritten_port = if ltb 0 w.port then w.port else m.rewritten_port;
  next_state = if is_positive8 w.intent then w.intent else m.next_state;
}

abbrev pub rewritten_minecraft : Option RewriteMinecraft → Option Minecraft → Option Minecraft
rewritten_minecraft none mc = mc
rewritten_minecraft (some w) none = none
rewritten_minecraft (some w) (some m) = some (rewrite_minecraft_fields w m)

-- The rewrite of one rule.
unfoldable pub rewrite : Rewrite → Metadata → Metadata
rewrite w m = record m {
  destination_hostname =
      if not (is_empty w.target_address) then w.target_address else m.destination_hostname;
  destination_port = if ltb 0 w.target_port then w.target_port else m.destination_port;
  minecraft = rewritten_minecraft w.rewrite_minecraft m.minecraft;
}

-- Where the loop over the rules leaves: it ran to its end, a rule gave the outbound, or a rule named
-- an outbound that is not found and the connection was closed.
pub data Decision : Type 0 where
  undecided : CachedConn → Metadata → Decision
  decided : Outbound → CachedConn → Metadata → Decision
  closed : CachedConn → Metadata → Decision

module _ (to_lower : String → String)
    (sniff : List String → CachedConn → Metadata → CachedConn × Metadata)
    (outbounds : OutboundMap) where
  -- What a rule that matched does to the connection and the metadata.
  unfoldable pub effect : RuleConfig → CachedConn → Metadata → CachedConn × Metadata
  unfolding rewrite
  effect c conn m =
      let sniffed = if ltb 0 (length c.sniff) then sniff c.sniff conn m else (conn, m) in
      (sniffed.0, rewrite c.rewrite sniffed.1)

  abbrev pub on_found : Option Outbound → CachedConn × Metadata → Decision
  on_found none s = closed s.0 s.1
  on_found (some o) s = decided o s.0 s.1

  unfoldable pub route : List Rule → CachedConn → Metadata → Decision
  unfolding effect
  route [] c m = undecided c m
  route (r ∷ rs) c m =
      let applied = effect (config r) c m in
      elim (match to_lower r m) [
        | false ↦ route rs c m
        | true ↦ elim (is_empty (config r).outbound) [
          | true ↦ route rs applied.0 applied.1
          | false ↦ on_found (find_outbound_by_name outbounds (config r).outbound) applied
        ]
      ]
