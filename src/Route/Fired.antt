-- ===== src/Route/Fired.antt =====
-- route/router.go: which rules of `HandleConnection` fire, and what comes of them.
use zbproxy_a.Base.{
  ℕ, List, [], ◌∷◌, true, false, ltb, if◌then◌else◌, Option, none, some, ◌≡◌, refl, sym, ◌∙◌, ap,
  arith, Bool-cases, Option-cases, inl, inr,
}
use zbproxy_a.Cached.{CachedConn}
use zbproxy_a.Route.{Rule, config, match}
use zbproxy_a.Route.Values.{String, Metadata, RuleConfig}
use zbproxy_a.Route.Handle.{
  Outbound, OutboundMap, Decision, undecided, decided, closed, route, effect, rewrite, on_found,
  is_empty, find_outbound_by_name,
}

abbrev pub left_metadata : Decision → Metadata
left_metadata (undecided c m) = m
left_metadata (decided o c m) = m
left_metadata (closed c m) = m

-- What was chosen: nothing, an outbound, or one that is not found.
abbrev pub choice : Decision → Option (Option Outbound)
choice (undecided c m) = none
choice (decided o c m) = some (some o)
choice (closed c m) = some none

-- What the last of the rules that say something says.
abbrev pub latest {ℓ} : {A : Type ℓ} → (RuleConfig → Option A) → List RuleConfig → Option A
latest says [] = none
latest says (c ∷ cs) = elim (latest says cs) [ some a ↦ some a | none ↦ says c ]

abbrev pub or_else {ℓ} : {A : Type ℓ} → Option A → A → A
or_else none d = d
or_else (some a) d = a

abbrev pub says_address : RuleConfig → Option String
says_address c = if is_empty c.rewrite.target_address then none else some c.rewrite.target_address

abbrev pub says_port : RuleConfig → Option ℕ
says_port c = if ltb 0 c.rewrite.target_port then some c.rewrite.target_port else none

abbrev pub says_outbound : RuleConfig → Option String
says_outbound c = if is_empty c.outbound then none else some c.outbound

-- A sniffer leaves the destination alone.
pub record KeepsDestination (sniff : List String → CachedConn → Metadata → CachedConn × Metadata)
    : Type 0 where
  pub same_hostname :
      (names : List String) (c : CachedConn) (m : Metadata)
      → (sniff names c m).1.destination_hostname ≡ m.destination_hostname
  pub same_port :
      (names : List String) (c : CachedConn) (m : Metadata)
      → (sniff names c m).1.destination_port ≡ m.destination_port

module _ (to_lower : String → String)
    (sniff : List String → CachedConn → Metadata → CachedConn × Metadata)
    (outbounds : OutboundMap) where
  -- The rules that match, each on what those before it left, up to the first that names an outbound.
  unfoldable pub fired : List Rule → CachedConn → Metadata → List RuleConfig
  fired [] c m = []
  fired (r ∷ rs) c m =
      let applied = effect to_lower sniff outbounds (config r) c m in
      elim (match to_lower r m) [
        | false ↦ fired rs c m
        | true ↦ elim (is_empty (config r).outbound) [
          | true ↦ config r ∷ fired rs applied.0 applied.1
          | false ↦ config r ∷ []
        ]
      ]

  effect-address :
      KeepsDestination sniff
      → (r : RuleConfig) (c : CachedConn) (m : Metadata)
      → (effect to_lower sniff outbounds r c m).1.destination_hostname
        ≡ or_else (says_address r) m.destination_hostname
  unfolding effect rewrite
  effect-address keeps r c m = ground (arith, keeps.same_hostname r.sniff c m)

  effect-port :
      KeepsDestination sniff
      → (r : RuleConfig) (c : CachedConn) (m : Metadata)
      → (effect to_lower sniff outbounds r c m).1.destination_port
        ≡ or_else (says_port r) m.destination_port
  unfolding effect rewrite
  effect-port keeps r c m = ground (arith, keeps.same_port r.sniff c m)

latest_first {ℓ} :
    {A : Type ℓ} (says : RuleConfig → Option A) (c : RuleConfig) (cs : List RuleConfig) (d : A)
    → or_else (latest says (c ∷ cs)) d ≡ or_else (latest says cs) (or_else (says c) d)
latest_first says c cs d = elim (Option-cases (latest says cs)) [
  | inl e ↦ rw e refl
  | inr (a, e) ↦ rw e refl
]

abbrev pub chosen : OutboundMap → Option String → Option (Option Outbound)
chosen outbounds none = none
chosen outbounds (some name) = some (find_outbound_by_name outbounds name)

-- The decision that follows from the rules that fire.
abbrev pub Follows : OutboundMap → List RuleConfig → Metadata → Decision → Type 0
Follows outbounds fs m d =
    ((left_metadata d).destination_hostname
      ≡ or_else (latest says_address fs) m.destination_hostname)
    × ((left_metadata d).destination_port ≡ or_else (latest says_port fs) m.destination_port)
    × (choice d ≡ chosen outbounds (latest says_outbound fs))

on_found-choice :
    (to_lower : String → String)
    (sniff : List String → CachedConn → Metadata → CachedConn × Metadata) (outbounds : OutboundMap)
    (o : Option Outbound) (s : CachedConn × Metadata)
    → (choice (on_found to_lower sniff outbounds o s) ≡ some o)
      × (left_metadata (on_found to_lower sniff outbounds o s) ≡ s.1)
on_found-choice to_lower sniff outbounds none s = (refl, refl)
on_found-choice to_lower sniff outbounds (some o) s = (refl, refl)

-- A rule that names no outbound fires before others.
Follows-more :
    (outbounds : OutboundMap) (r : RuleConfig) (fs : List RuleConfig) (m n : Metadata)
    (d : Decision)
    → n.destination_hostname ≡ or_else (says_address r) m.destination_hostname
    → n.destination_port ≡ or_else (says_port r) m.destination_port
    → is_empty r.outbound ≡ true
    → Follows outbounds fs n d
    → Follows outbounds (r ∷ fs) m d
Follows-more outbounds r fs m n d address port unnamed (h, k, l) = (
  h
      ∙ ap (or_else (latest says_address fs)) address
      ∙ sym (latest_first says_address r fs m.destination_hostname),
  k
      ∙ ap (or_else (latest says_port fs)) port
      ∙ sym (latest_first says_port r fs m.destination_port),
  l ∙ ap (chosen outbounds) (ground (arith, unnamed)),
)

-- A rule that names an outbound is the last.
Follows-last :
    (to_lower : String → String)
    (sniff : List String → CachedConn → Metadata → CachedConn × Metadata) (outbounds : OutboundMap)
    (r : RuleConfig) (m : Metadata) (s : CachedConn × Metadata)
    → s.1.destination_hostname ≡ or_else (says_address r) m.destination_hostname
    → s.1.destination_port ≡ or_else (says_port r) m.destination_port
    → is_empty r.outbound ≡ false
    → Follows outbounds
        (r ∷ [])
        m
        (on_found to_lower sniff outbounds (find_outbound_by_name outbounds r.outbound) s)
Follows-last to_lower sniff outbounds r m s address port named =
    let (h, k) =
      on_found-choice to_lower sniff outbounds (find_outbound_by_name outbounds r.outbound) s in
    let last : says_outbound r ≡ some r.outbound = ground (arith, named) in
    (
      ap (λ n. n.destination_hostname) k ∙ address,
      ap (λ n. n.destination_port) k ∙ port,
      h ∙ sym (ap (chosen outbounds) last),
    )

-- Where sniffers leave the destination alone, the decision of the loop over the rules follows from the
-- rules that fire: the host and the port of the destination are those of the last rule that rewrites
-- them, or else the connection's own, and what is chosen is what the outbound that a rule names stands
-- for, if one does: that outbound, or an error where it is not found.
pub route-Follows :
    (to_lower : String → String)
    (sniff : List String → CachedConn → Metadata → CachedConn × Metadata) (outbounds : OutboundMap)
    → KeepsDestination sniff
    → (rs : List Rule) (c : CachedConn) (m : Metadata)
    → Follows outbounds
        (fired to_lower sniff outbounds rs c m)
        m
        (route to_lower sniff outbounds rs c m)
unfolding route fired
route-Follows to_lower sniff outbounds keeps [] c m = (refl, refl, refl)
route-Follows to_lower sniff outbounds keeps (r ∷ rs) c m =
    let s = effect to_lower sniff outbounds (config r) c m in
    let address = effect-address to_lower sniff outbounds keeps (config r) c m in
    let port = effect-port to_lower sniff outbounds keeps (config r) c m in
    elim (Bool-cases (match to_lower r m)) [
      | inr e ↦ rw (route, fired, e) (route-Follows to_lower sniff outbounds keeps rs c m)
      | inl e ↦ elim (Bool-cases (is_empty (config r).outbound)) [
        | inl f ↦
            rw (route, fired, e, f)
              (Follows-more outbounds (config r) (fired to_lower sniff outbounds rs s.0 s.1) m s.1
                (route to_lower sniff outbounds rs s.0 s.1) address port f
                (route-Follows to_lower sniff outbounds keeps rs s.0 s.1))
        | inr f ↦
            rw (route, fired, e, f)
              (Follows-last to_lower sniff outbounds (config r) m s address port f)
      ]
    ]
