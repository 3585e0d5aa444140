-- ===== src/Route/Laws.antt =====
-- route: what the rules and their order mean.
use zbproxy_a.Base.{Bool, true, false, not, ◌≡◌, refl, Bool-cases, inl, inr}
use zbproxy_a.Route.{
  Rule, Rules, done, next, logical_and, logical_or, match, match_all, match_any, inverted,
}
use zbproxy_a.Route.Values.{String, Metadata, RuleConfig}

abbrev pub flip : RuleConfig → RuleConfig
flip c = record c { invert = not c.invert }

-- The rule inside the negation of a logical rule: an "and" of this one rule, inverted.
abbrev pub negate : RuleConfig → Rule → Rule
negate c r = logical_and (next r done) (record c { invert = true })

abbrev pub negate_all : RuleConfig → Rules → Rules
negate_all c done = done
negate_all c (next r rs) = next (negate c r) (negate_all c rs)

double_negation : (x : Bool) → x ≡ not (not x)
double_negation true = refl
double_negation false = refl

inverted-flip : (c : RuleConfig) (x : Bool) → inverted (flip c) x ≡ inverted c (not x)
inverted-flip c x = elim (Bool-cases c.invert) [
  | inl e ↦ rw e (double_negation x)
  | inr e ↦ rw e refl
]

module _ (to_lower : String → String) (m : Metadata) where
  match-negate :
      (c : RuleConfig) (r : Rule) → match to_lower (negate c r) m ≡ not (match to_lower r m)
  unfolding match
  match-negate c r = elim (Bool-cases (match to_lower r m)) [
    | inl e ↦ rw e refl
    | inr e ↦ rw e refl
  ]

  match_any-negate_all :
      (c : RuleConfig) (rs : Rules)
      → match_any to_lower (negate_all c rs) m ≡ not (match_all to_lower rs m)
  unfolding match
  match_any-negate_all c done = refl
  match_any-negate_all c (next r rs) = elim (Bool-cases (match to_lower r m)) [
    | inl e ↦ rw (match_any, match-negate c r, e) (match_any-negate_all c rs)
    | inr e ↦ rw (match_any, match-negate c r, e) refl
  ]

  -- An inverted "and" matches just when the "or" of the inverted rules does.
  and-or_negated :
      (c : RuleConfig) (rs : Rules)
      → match to_lower (logical_and rs (flip c)) m
        ≡ match to_lower (logical_or (negate_all c rs) c) m
  unfolding match
  and-or_negated c rs = rw (match_any-negate_all c rs) (inverted-flip c (match_all to_lower rs m))
