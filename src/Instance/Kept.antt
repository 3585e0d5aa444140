-- ===== src/Instance/Kept.antt =====
-- zbproxy.go: what `UpdateConfig` keeps, what it makes, and what it leaves behind.
use zbproxy_a.Base.{
  ℕ, List, [], map, Bool, true, false, length, get_elem?, Option, none, some, ◌≡◌, ◌≢◌, sym, ap,
  ◌∙◌, subst, arith, get_elem?-lt,
}
use zbproxy_a.Base.Assoc.{bytes_eq, lookup}
use zbproxy_a.Route.Values.{String}
use zbproxy_a.Service.{Socket, Surroundings}
use zbproxy_a.Instance.{
  Instance, Config, Error, outbound_failed, service_failed, update_config, update_all_services,
}
use zbproxy_a.Instance.Outbounds.{Ops, Made, update_outbounds}
use zbproxy_a.Instance.Services.{Running, update_services}
use zbproxy_a.Instance.Places.{mentioned, PlaceOf, PlaceOf-old, Placed-PlaceOf, Below}
use zbproxy_a.Instance.Objects.{
  update_services-same, unmentioned, get_elem?-some, update_outbounds-FromSo,
}
use zbproxy_a.Instance.Outbounds.{plain}
use zbproxy_a.Outbound as Outbound
use zbproxy_a.Auth.{stored_secret}
use zbproxy_a.Instance.Updating.{update_outbounds-Placed, update_services-Placed}

module _ {O C R S L : Type 0} (ops : Ops O C R L) (new_rule : S → Option L → Option R)
    (around : List Socket → Surroundings) (c : Config C S L) (i : Instance O R L) where
  abbrev pub outbounds_run : Bool × Made O
  outbounds_run =
      update_outbounds ops c.auth_secret i.router i.outbound_map c.outbounds
        (record { objects = i.objects; outbound_map = [] })

  abbrev pub services_run : Bool × Running
  services_run =
      update_services around c.auth_secret i.service_map c.services
        (record { objects = i.services; service_map = []; sockets = i.sockets })

  -- An update without an error ran all three steps.
  abbrev pub Updated : Instance O R L → Type 0
  Updated j =
      (outbounds_run.0 ≡ false)
      × (services_run.0 ≡ false)
      × (j.objects ≡ outbounds_run.1.objects)
      × (j.outbound_map ≡ outbounds_run.1.outbound_map)
      × (j.services ≡ services_run.1.objects)
      × (j.service_map ≡ services_run.1.service_map)

  pub update_config-Updated :
      (j : Instance O R L) → update_config ops new_rule around c i ≡ (none, j) → Updated j
  unfolding update_config update_all_services
  update_config-Updated j h = ground arith

  -- An update without an error gives each name of the new settings, of an outbound or of a service,
  -- the object that had it, or a new object where none had it, and drops every other name.
  pub update_config-PlaceOf :
      (j : Instance O R L)
      → update_config ops new_rule around c i ≡ (none, j)
      → (n : String)
      → PlaceOf
          (lookup n i.outbound_map)
          (mentioned n (map ops.config_name c.outbounds))
          (length i.objects)
          (length j.objects)
          (lookup n j.outbound_map)
        × PlaceOf
            (lookup n i.service_map)
            (mentioned n (map (λ s. s.name) c.services))
            (length i.services)
            (length j.services)
            (lookup n j.service_map)
  update_config-PlaceOf j h n =
      let (a, b, objects, outbound_map, services, service_map) = update_config-Updated j h in
      (
        rw (objects, outbound_map)
            (Placed-PlaceOf i.outbound_map (map ops.config_name c.outbounds) n (length i.objects) _
              (update_outbounds-Placed ops c.auth_secret i.router i.outbound_map c.outbounds _
                outbounds_run.1 (ap (λ x. (x, outbounds_run.1)) a))),
        rw (services, service_map)
            (Placed-PlaceOf i.service_map (map (λ s. s.name) c.services) n (length i.services) _ (
              update_services-Placed around c.auth_secret i.service_map c.services _ services_run.1
                (ap (λ x. (x, services_run.1)) b))),
      )

  -- A service that the new settings do not name stays as it is, its listeners open, while no name leads
  -- to it any more, so that nothing can close it.
  pub update_config-leaks :
      (j : Instance O R L) (n : String) (k : ℕ)
      → update_config ops new_rule around c i ≡ (none, j)
      → Below (length i.services) i.service_map
      → lookup n i.service_map ≡ some k
      → ((m : String) → lookup m i.service_map ≡ some k → m ≡ n)
      → mentioned n (map (λ s. s.name) c.services) ≡ false
      → (get_elem? j.services k ≡ get_elem? i.services k)
        × ((m : String) → lookup m j.service_map ≢ some k)
  update_config-leaks j n k h below at only absent =
      let services = (update_config-Updated j h).4 in
      (
        ap (λ xs. get_elem? xs k) services
            ∙ update_services-same around c.auth_secret i.service_map k c.services _
                (unmentioned i.service_map k n c.services only absent) (below n k at),
        λ m e.
            let (a, b) =
              PlaceOf-old (lookup m i.service_map) _ _ _ k _ (update_config-PlaceOf j h m).1 e
                (below n k at) in
            cc (b, absent, only m a),
      )

  -- An update that fails leaves both maps as they were; unless a service was at fault, it leaves the
  -- services and the sockets too, and unless the router or a service was, the router.
  pub update_config-failed :
      (j : Instance O R L) (e : Error)
      → update_config ops new_rule around c i ≡ (some e, j)
      → (j.outbound_map ≡ i.outbound_map)
        × (j.service_map ≡ i.service_map)
        × (e ≢ service_failed → (j.services ≡ i.services) × (j.sockets ≡ i.sockets))
        × (e ≡ outbound_failed → j.router ≡ i.router)
  unfolding update_config update_all_services
  update_config-failed j e h = (ground arith, ground arith, λ n. ground arith, λ n. ground arith)

-- The outbound has its secret, and what `PostInitialize` sets is nil.
abbrev pub Bare : String → Outbound.Outbound → Type 0
Bare secret o = (o.dialer ≡ none) × (o.selector ≡ none) × (o.auth_secret ≡ stored_secret secret)

new_outbound-Bare :
    (secret : String) (c : Outbound.Config) (o : Outbound.Outbound)
    → some (Outbound.new_outbound c) ≡ some o
    → Bare secret (Outbound.set_auth_secret secret o)
unfolding Outbound.new_outbound Outbound.set_auth_secret
new_outbound-Bare secret c o e = ground arith

-- An outbound that is new in the settings, though the update succeeds, has its secret but no dialer and
-- no selector: `PostInitialize`, which sets them, is not called.
pub update_config-undialed :
    {R S L : Type 0} (new_rule : S → Option L → Option R) (around : List Socket → Surroundings)
    (c : Config Outbound.Config S L) (i j : Instance Outbound.Outbound R L) (n : String)
    → update_config plain new_rule around c i ≡ (none, j)
    → Below (length i.objects) i.outbound_map
    → lookup n i.outbound_map ≡ none
    → mentioned n (map (λ o. o.name) c.outbounds) ≡ true
    → (k : ℕ) × (o : Outbound.Outbound) × (lookup n j.outbound_map ≡ some k)
      × (get_elem? j.objects k ≡ some o)
      × (o.dialer ≡ none)
      × (o.selector ≡ none)
      × (o.auth_secret ≡ stored_secret c.auth_secret)
update_config-undialed new_rule around c i j n h below new named =
    let updated = update_config-Updated plain new_rule around c i j h in
    let placed : PlaceOf none true (length i.objects) (length j.objects) (lookup n j.outbound_map) =
      subst (λ o. PlaceOf o true (length i.objects) (length j.objects) (lookup n j.outbound_map))
        new
        (subst
          (λ b.
            PlaceOf (lookup n i.outbound_map) b (length i.objects) (length j.objects)
              (lookup n j.outbound_map))
          named (update_config-PlaceOf plain new_rule around c i j h n).0) in
    let (k, at, above, under) = placed in
    let (o, found) = get_elem?-some j.objects k under in
    let bare =
      update_outbounds-FromSo plain c.auth_secret (Bare c.auth_secret) i.router i.outbound_map
        (length i.objects) c.outbounds (record { objects = i.objects; outbound_map = [] })
        (new_outbound-Bare c.auth_secret) below
        (λ m p l e. absurd (omega (arith, l, get_elem?-lt i.objects m e))) k o above
        (sym (ap (λ xs. get_elem? xs k) updated.2) ∙ found) in
    (k, o, at, found, bare.0, bare.1, bare.2)
