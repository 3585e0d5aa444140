-- ===== src/Instance.antt =====
-- zbproxy.go: an instance, which holds the outbounds, the router and the services, starts them and
-- updates them to a new configuration. Outbounds and services are shared objects: they stand in lists,
-- and the maps have their places. The kinds of outbound are behind an interface (Instance.Outbounds).
pub mod Routing
pub mod Outbounds
pub mod Services
pub mod Places
pub mod Objects
pub mod Updating
pub mod Kept
use zbproxy_a.Base.{
  ℕ, List, [], ◌∷◌, ◌++◌, Bool, true, false, length, if◌then◌else◌, Option, none, some,
}
use zbproxy_a.Base.Assoc.{bytes_eq, lookup, insert}
use zbproxy_a.Route.Values.{String}
use zbproxy_a.Service.{Service, Socket, Surroundings}
use zbproxy_a.Service as Service
use zbproxy_a.Instance.Outbounds.{Ops, Made, update_outbounds, create_outbounds, initialize_all}
use zbproxy_a.Instance.Services.{Running, update_services}
use zbproxy_a.Instance.Routing.{Router, RouterOptions, initialize, update_router, nil}

pub data Error : Type 0 where
  outbound_failed router_failed post_initialize_failed service_failed : Error

-- config.Root, as far as it is read here.
pub record Config (C S L : Type 0) : Type 0 where
  pub auth_secret : String
  pub outbounds : List C
  pub rules : List S
  pub default_name : String
  pub lists : Option L
  pub services : List Service.Config

pub record Instance (O R L : Type 0) : Type 0 where
  pub objects : List O
  pub outbound_map : List (String × ℕ)
  pub router : Router R L
  pub services : List Service
  pub service_map : List (String × ℕ)
  pub sockets : List Socket

module _ {O C R S L : Type 0} (ops : Ops O C R L) (new_rule : S → Option L → Option R)
    (around : List Socket → Surroundings) where
  abbrev pub options_of : Config C S L → List (String × ℕ) → RouterOptions S L
  options_of c outbounds = record {
    rules = c.rules;
    default_name = c.default_name;
    outbound_map = some outbounds;
    list_map = c.lists;
  }

  abbrev pub Outcome : Type 0
  Outcome = Option Error × Instance O R L

  abbrev fresh_router : Router R L
  fresh_router = record {
    outbound_map = none;
    list_map = none;
    rules = [];
    default_outbound = nil;
    started = false;
  }

  -- The services of `Start`: those before the one that fails are in the map, and run.
  unfoldable pub start_services : Config C S L → Instance O R L → Outcome
  unfolding update_services
  start_services c i =
      let r =
        update_services around c.auth_secret [] c.services
          (record { objects = i.services; service_map = []; sockets = i.sockets }) in
      (
        if r.0 then some service_failed else none,
        record i { services = r.1.objects; service_map = r.1.service_map; sockets = r.1.sockets },
      )

  -- `Start`; a Go map is gone through in any order, which `order` is.
  unfoldable pub start : (List (String × ℕ) → List ℕ) → Config C S L → Instance O R L → Outcome
  unfolding create_outbounds initialize_all start_services
  start order c i =
      let made =
        create_outbounds ops c.auth_secret c.outbounds
          (record { objects = i.objects; outbound_map = [] }) in
      let i1 = record i { objects = made.1.objects } in
      if made.0
      then (some outbound_failed, i1)
      else let routed = initialize new_rule (options_of c made.1.outbound_map) fresh_router in
        let i2 = record i1 { outbound_map = made.1.outbound_map; router = routed.1 } in
        elim routed.0 [
          | some e ↦ (some router_failed, i2)
          | none ↦
              let ready = initialize_all ops routed.1 (order made.1.outbound_map) made.1.objects in
              let i3 = record i2 { objects = ready.1 } in
              if ready.0 then (some post_initialize_failed, i3) else start_services c i3
        ]

  -- The end of `UpdateConfig`: the services, then the two maps.
  unfoldable pub update_all_services : Config C S L → Made O → Instance O R L → Outcome
  unfolding update_services
  update_all_services c made i =
      let r =
        update_services around c.auth_secret i.service_map c.services
          (record { objects = i.services; service_map = []; sockets = i.sockets }) in
      let j = record i { services = r.1.objects; sockets = r.1.sockets } in
      if r.0
      then (some service_failed, j)
      else (none, record j { outbound_map = made.outbound_map; service_map = r.1.service_map })

  unfoldable pub update_config : Config C S L → Instance O R L → Outcome
  unfolding update_outbounds update_all_services
  update_config c i =
      let made =
        update_outbounds ops c.auth_secret i.router i.outbound_map c.outbounds
          (record { objects = i.objects; outbound_map = [] }) in
      let i1 = record i { objects = made.1.objects } in
      if made.0
      then (some outbound_failed, i1)
      else let routed = update_router new_rule (options_of c made.1.outbound_map) i.router in
        let i2 = record i1 { router = routed.1 } in
        elim routed.0 [ some e ↦ (some router_failed, i2) | none ↦ update_all_services c made.1 i2 ]
