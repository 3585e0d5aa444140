-- ===== src/Route/Values.antt =====
-- adapter/metadata.go and config/router.go: what a connection carries through the router, and what a
-- rule's configuration asks for. A string is the list of its bytes. The cached FML markup of the
-- Minecraft metadata is left out: `FMLMarkup` computes it again when it is empty. The sniff position
-- is none for -1.
use zbproxy_a.Base.{ℕ, List, [], ◌∷◌, Bool, ◌==◌, ltb, if◌then◌else◌, ◌&&◌, ◌||◌, Option, false}

abbrev pub String : Type 0
String = List ℕ

pub record Minecraft : Type 0 where
  pub protocol_version : ℕ
  pub player_name : String
  pub origin_destination : String
  pub origin_port : ℕ
  pub uuid : List ℕ
  pub rewritten_destination : String
  pub rewritten_port : ℕ
  pub next_state : ℕ
  pub sniff_position : Option ℕ

-- `SourceAddress` is the address without its zone, whether it `Is4`, and the port.
pub record Metadata : Type 0 where
  pub service_name : String
  pub source_addr : ℕ
  pub source_is4 : Bool
  pub source_port : ℕ
  pub destination_hostname : String
  pub destination_port : ℕ
  pub minecraft : Option Minecraft

-- `strings.Cut(s, "\x00")`, the part before the first zero byte.
abbrev pub cut_zero : String → String
cut_zero [] = []
cut_zero (c ∷ s) = let rest = cut_zero s in if c == 0 then [] else c ∷ rest

unfoldable pub clean_origin_destination : Minecraft → String
clean_origin_destination m = cut_zero m.origin_destination

-- The part behind the first zero byte.
abbrev pub after_zero : String → String
after_zero [] = []
after_zero (c ∷ s) = let rest = after_zero s in if c == 0 then s else rest

abbrev pub has_zero : String → Bool
has_zero [] = false
has_zero (c ∷ s) = (c == 0) || has_zero s

unfoldable pub is_fml : Minecraft → Bool
is_fml m = has_zero m.origin_destination

unfoldable pub fml_markup : Minecraft → String
fml_markup m = after_zero m.origin_destination

-- An `int8` by its 8-bit pattern.
abbrev pub is_positive8 : ℕ → Bool
is_positive8 n = ltb 0 n && ltb n 128

pub record RewriteMinecraft : Type 0 where
  pub hostname : String
  pub port : ℕ
  pub intent : ℕ

pub record Rewrite : Type 0 where
  pub target_address : String
  pub target_port : ℕ
  pub rewrite_minecraft : Option RewriteMinecraft

-- `config.Rule`, less the type and parameter that the rule was built from.
pub record RuleConfig : Type 0 where
  pub rewrite : Rewrite
  pub sniff : List String
  pub outbound : String
  pub invert : Bool
