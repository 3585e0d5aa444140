-- ===== src/Access.antt =====
-- common/access: whether an item passes a list of string sets. The mode is a string of the
-- configuration; any string but the three that the constants name is `other`.
use zbproxy_a.Base.{List, [], ◌∷◌, Bool, not, Option, none, some, ◌≡◌, ◌⊎◌}
use zbproxy_a.Base.Assoc.{lookup, bytes_eq}
use zbproxy_a.Route.Values.{String}
use zbproxy_a.Route.{StringSet, any_has}

pub data Mode : Type 0 where
  unset allow block other : Mode

-- Nothing stands for the panic at a bad mode.
unfoldable pub check : List StringSet → Mode → String → Option Bool
check lists mode item =
    let hit = any_has lists item in
    elim mode [ allow ↦ some hit | block ↦ some (not hit) | unset ↦ none | other ↦ none ]

-- `Router.FindListsByTag`: the lists in the order of the tags, none when the map is nil or a tag is
-- not in it.
abbrev pub collect : List (String × StringSet) → List String → Option (List StringSet)
collect map [] = some []
collect map (tag ∷ tags) =
    let rest = collect map tags in
    elim (lookup tag map) [
      | none ↦ none
      | some list ↦ elim rest [ none ↦ none | some lists ↦ some (list ∷ lists) ]
    ]

unfoldable pub find_lists_by_tag :
    Option (List (String × StringSet)) → List String → Option (List StringSet)
find_lists_by_tag none tags = none
find_lists_by_tag (some map) tags = collect map tags

abbrev pub AllowOrBlock : Mode → Type 0
AllowOrBlock mode = (mode ≡ allow) ⊎ (mode ≡ block)
