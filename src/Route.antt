-- ===== src/Route.antt =====
-- route: the rules that a connection's metadata is matched against, and the loop of
-- `Router.HandleConnection` that picks the outbound. The IP set of a source rule (go4.org/netipx), the
-- domain matcher and the custom rules are predicates that the rule holds; `strings.ToLower` is a
-- parameter.
pub mod Values
pub mod Handle
pub mod Laws
pub mod Fired
use zbproxy_a.Base.{
  ℕ, List, [], ◌∷◌, Bool, true, false, ◌==◌, if◌then◌else◌, ◌&&◌, ◌||◌, not, Option, none, some,
}
use zbproxy_a.Base.Assoc.{Eq, ◌===◌, bytes_eq}
use zbproxy_a.Route.Values.{String, Metadata, Minecraft, RuleConfig, clean_origin_destination}

-- `set.StringSet`
abbrev pub StringSet : Type 0
StringSet = List String

unfoldable pub has : StringSet → String → Bool
has [] s = false
has (x ∷ xs) s = (x === s) || has xs s

abbrev pub intent_status : ℕ
intent_status = 1

abbrev pub intent_transfer : ℕ
intent_transfer = 3

mutual
  pub data Rule : Type 0 where
    always : RuleConfig → Rule
    logical_and : Rules → RuleConfig → Rule
    logical_or : Rules → RuleConfig → Rule
    service_name : List StringSet → RuleConfig → Rule
    source_ip_version : ℕ → RuleConfig → Rule
    source_ip : (Bool → ℕ → Bool) → RuleConfig → Rule
    source_port : List ℕ → RuleConfig → Rule
    minecraft_hostname : (String → Bool) → RuleConfig → Rule
    minecraft_player_name : List StringSet → Bool → RuleConfig → Rule
    minecraft_status : RuleConfig → Rule
    minecraft_transfer : RuleConfig → Rule
    custom : (Metadata → Bool) → RuleConfig → Rule

  pub data Rules : Type 0 where
    done : Rules
    next : Rule → Rules → Rules

-- `Config`
abbrev pub config : Rule → RuleConfig
config (always c) = c
config (logical_and rs c) = c
config (logical_or rs c) = c
config (service_name sets c) = c
config (source_ip_version v c) = c
config (source_ip p c) = c
config (source_port ports c) = c
config (minecraft_hostname p c) = c
config (minecraft_player_name sets lower c) = c
config (minecraft_status c) = c
config (minecraft_transfer c) = c
config (custom p c) = c

abbrev pub inverted : RuleConfig → Bool → Bool
inverted c match = if c.invert then not match else match

-- The loop over the name sets, which stops at the first that has the name.
abbrev pub any_has : List StringSet → String → Bool
any_has [] s = false
any_has (x ∷ xs) s = let rest = any_has xs s in if has x s then true else rest

abbrev pub has_port : List ℕ → ℕ → Bool
has_port [] p = false
has_port (x ∷ xs) p = (x == p) || has_port xs p

-- The match of a rule that needs the Minecraft metadata.
abbrev pub on_minecraft : Option Minecraft → (Minecraft → Bool) → Bool
on_minecraft none f = false
on_minecraft (some m) f = f m

-- `Match` of each kind of rule.
abbrev pub match_always : RuleConfig → Bool
match_always c = if c.invert then false else true

abbrev pub match_service_name : List StringSet → RuleConfig → Metadata → Bool
match_service_name sets c m = inverted c (any_has sets m.service_name)

abbrev pub match_source_ip_version : ℕ → RuleConfig → Metadata → Bool
match_source_ip_version v c m = inverted c (if m.source_is4 then v == 4 else v == 6)

abbrev pub match_source_ip : (Bool → ℕ → Bool) → RuleConfig → Metadata → Bool
match_source_ip contains c m = inverted c (contains m.source_is4 m.source_addr)

abbrev pub match_source_port : List ℕ → RuleConfig → Metadata → Bool
match_source_port ports c m = inverted c (has_port ports m.source_port)

abbrev pub match_hostname : (String → Bool) → RuleConfig → Metadata → Bool
match_hostname matcher c m =
    inverted c (on_minecraft m.minecraft (λ mc. matcher (clean_origin_destination mc)))

abbrev pub match_player_name :
    (String → String) → List StringSet → Bool → RuleConfig → Metadata → Bool
match_player_name to_lower sets lower c m = inverted c (
    on_minecraft m.minecraft
      (λ mc. any_has sets (if lower then to_lower mc.player_name else mc.player_name)))

abbrev pub match_status : RuleConfig → Metadata → Bool
match_status c m = inverted c (on_minecraft m.minecraft (λ mc. mc.next_state == intent_status))

abbrev pub match_transfer : RuleConfig → Metadata → Bool
match_transfer c m = inverted c (on_minecraft m.minecraft (λ mc. mc.next_state == intent_transfer))

module _ (to_lower : String → String) where
  unfoldable mutual
    -- `Rule.Match`
    pub match : Rule → Metadata → Bool
    match (always c) m = match_always c
    match (logical_and rs c) m = inverted c (match_all rs m)
    match (logical_or rs c) m = inverted c (match_any rs m)
    match (service_name sets c) m = match_service_name sets c m
    match (source_ip_version v c) m = match_source_ip_version v c m
    match (source_ip contains c) m = match_source_ip contains c m
    match (source_port ports c) m = match_source_port ports c m
    match (minecraft_hostname matcher c) m = match_hostname matcher c m
    match (minecraft_player_name sets lower c) m = match_player_name to_lower sets lower c m
    match (minecraft_status c) m = match_status c m
    match (minecraft_transfer c) m = match_transfer c m
    match (custom p c) m = p m

    -- The loop of `RuleLogicalAnd`, which stops at the first rule that does not match.
    pub match_all : Rules → Metadata → Bool
    match_all done m = true
    match_all (next r rs) m = let rest = match_all rs m in if not (match r m) then false else rest

    -- The loop of `RuleLogicalOr`.
    pub match_any : Rules → Metadata → Bool
    match_any done m = false
    match_any (next r rs) m = let rest = match_any rs m in if match r m then true else rest
