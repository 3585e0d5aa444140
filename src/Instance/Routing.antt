-- ===== src/Instance/Routing.antt =====
-- route/router.go: `Initialize` and `UpdateConfig` of the router. What `NewRule` makes of the settings of
-- a rule, decoded from JSON, is given.
use zbproxy_a.Base.{
  List, [], ◌∷◌, Bool, true, false, ◌==◌, if◌then◌else◌, length, Option, none, some,
}
use zbproxy_a.Route.Values.{String}
use zbproxy_a.Route.Handle.{Outbound, OutboundMap, find_outbound_by_name}

pub data RouterError : Type 0 where
  already bad_rule no_default : RouterError

-- The default outbound: none yet, the one that the router makes, or one that was found by its name.
pub data Default : Type 0 where
  nil built_in : Default
  chosen : Outbound → Default

-- The rules are of type `R`, their settings of type `S`, the lists of type `L`.
pub record Router (R L : Type 0) : Type 0 where
  pub outbound_map : OutboundMap
  pub list_map : Option L
  pub rules : List R
  pub default_outbound : Default
  pub started : Bool

pub record RouterOptions (S L : Type 0) : Type 0 where
  pub rules : List S
  pub default_name : String
  pub outbound_map : OutboundMap
  pub list_map : Option L

module _ {R S L : Type 0} (new_rule : S → Option L → Option R) where
  unfoldable pub new_rules : Option L → List S → Option (List R)
  new_rules lists [] = some []
  new_rules lists (s ∷ rest) = elim (new_rule s lists) [
    | none ↦ none
    | some rule ↦ elim (new_rules lists rest) [ none ↦ none | some rules ↦ some (rule ∷ rules) ]
  ]

  unfoldable pub find_default : RouterOptions S L → Option Default
  unfolding find_outbound_by_name
  find_default o =
      if length o.default_name == 0
      then some built_in
      else elim (find_outbound_by_name o.outbound_map o.default_name) [
        | none ↦ none
        | some outbound ↦ some (chosen outbound)
      ]

  unfoldable pub initialize : RouterOptions S L → Router R L → Option RouterError × Router R L
  unfolding new_rules find_default
  initialize o r = if r.started then (some already, r) else elim (new_rules o.list_map o.rules) [
    | none ↦ (some bad_rule, r)
    | some rules ↦ elim (find_default o) [
      | none ↦ (some no_default, r)
      | some d ↦ (
        none,
        record {
          outbound_map = o.outbound_map;
          list_map = o.list_map;
          rules = rules;
          default_outbound = d;
          started = true;
        },
      )
    ]
  ]

  unfoldable pub update_router : RouterOptions S L → Router R L → Option RouterError × Router R L
  unfolding initialize
  update_router o r = initialize o (record r { started = false })
