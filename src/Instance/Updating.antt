-- ===== src/Instance/Updating.antt =====
-- zbproxy.go: what `UpdateConfig` makes of the maps, the outbounds and the services.
use zbproxy_a.Base.{
  ℕ, List, [], ◌∷◌, map, Bool, true, false, length, length-append, length-set, get_elem?, Option,
  none, some, ◌≡◌, inl, inr, refl, ap, subst, arith, Option-cases,
}
use zbproxy_a.Base.Assoc.{bytes_eq, lookup}
use zbproxy_a.Route.Values.{String}
use zbproxy_a.Service.{Service, Socket, Surroundings}
use zbproxy_a.Service as Service
use zbproxy_a.Instance.Outbounds.{
  Ops, Made, update_outbound, update_outbounds, reload_outbound, add_outbound,
}
use zbproxy_a.Instance.Services.{
  Running, update_service, update_services, start_service, reload_service,
}
use zbproxy_a.Instance.Routing.{Router}
use zbproxy_a.Instance.Places.{Map, Slots, PlacedAt, Placed, all_placed, place_next}

abbrev place : Option ℕ → ℕ → ℕ
place none next = next
place (some k) next = k

-- A loop that goes on only if the step did not fail.
goes_on :
    {W : Type 0} (r : Bool × W) (f : W → Bool × W) (w : W)
    → (elim r.0 as (λ b. Bool × W) [ true ↦ r | false ↦ f r.1 ]) ≡ (false, w)
    → (r.0 ≡ false) × (f r.1 ≡ (false, w))
goes_on (true, v) f w h = absurd (ground (arith, ap (λ p. p.0) h))
goes_on (false, v) f w h = (refl, h)

module _ {O C R L : Type 0} (ops : Ops O C R L) (secret : String) where
  abbrev slots : Made O → Slots
  slots w = (length w.objects, w.outbound_map)

  update_outbound-PlacedAt :
      (router : Router R L) (old : Map) (c : C) (w : Made O)
      → (update_outbound ops secret router old c w).0 ≡ false
      → PlacedAt old
          (ops.config_name c)
          (slots w)
          (slots (update_outbound ops secret router old c w).1)
          (place (lookup (ops.config_name c) old) (length w.objects))
  unfolding update_outbound reload_outbound add_outbound
  update_outbound-PlacedAt router old c w h = elim (Option-cases (lookup (ops.config_name c) old)) [
    | inl new ↦ elim (Option-cases (ops.create c)) [
      | inl e ↦ absurd (ground (arith, new, e, h))
      | inr (o, e) ↦
          ground (arith, new, e, length-append w.objects (ops.set_auth_secret secret o ∷ []))
    ]
    | inr (i, at) ↦ elim (Option-cases (get_elem? w.objects i)) [
      | inl e ↦ absurd (ground (arith, at, e, h))
      | inr (o, e) ↦ ground (
        arith,
        at,
        e,
        length-set w.objects i (ops.reload router c (ops.set_auth_secret secret o)).1,
      )
    ]
  ]

  pub update_outbounds-Placed :
      (router : Router R L) (old : Map) (cs : List C) (w v : Made O)
      → update_outbounds ops secret router old cs w ≡ (false, v)
      → Placed old (map ops.config_name cs) (slots w) (slots v)
  unfolding update_outbounds
  update_outbounds-Placed router old [] w v h =
      subst (λ x. Placed old [] (slots w) (slots x)) (ap (λ p. p.1) h) all_placed
  update_outbounds-Placed router old (c ∷ cs) w v h =
      let r = update_outbound ops secret router old c w in
      let (done, rest) = goes_on r (update_outbounds ops secret router old cs) v h in
      place_next _ (update_outbound-PlacedAt router old c w done)
        (update_outbounds-Placed router old cs r.1 v rest)

module _ (around : List Socket → Surroundings) (secret : String) where
  abbrev running_slots : Running → Slots
  running_slots w = (length w.objects, w.service_map)

  update_service-PlacedAt :
      (old : Map) (c : Service.Config) (w : Running)
      → (update_service around secret old c w).0 ≡ false
      → PlacedAt old c.name
          (running_slots w)
          (running_slots (update_service around secret old c w).1)
          (place (lookup c.name old) (length w.objects))
  unfolding update_service reload_service start_service
  update_service-PlacedAt old c w h = elim (Option-cases (lookup c.name old)) [
    | inl new ↦
        let r =
          Service.start (around w.sockets)
            (Service.set_auth_secret secret (Service.new_service c w.sockets)) in
        ground (arith, new, length-append w.objects (r.1 ∷ []))
    | inr (i, at) ↦ elim (Option-cases (get_elem? w.objects i)) [
      | inl e ↦ absurd (ground (arith, at, e, h))
      | inr (s, e) ↦
          let t : Service = record (Service.set_auth_secret secret s) { sockets = w.sockets } in
          let r = Service.reload (around (Service.close t).1.sockets) c t in
          ground (arith, at, e, length-set w.objects i r.1)
    ]
  ]

  pub update_services-Placed :
      (old : Map) (cs : List Service.Config) (w v : Running)
      → update_services around secret old cs w ≡ (false, v)
      → Placed old (map (λ c. c.name) cs) (running_slots w) (running_slots v)
  unfolding update_services
  update_services-Placed old [] w v h =
      subst (λ x. Placed old [] (running_slots w) (running_slots x)) (ap (λ p. p.1) h) all_placed
  update_services-Placed old (c ∷ cs) w v h =
      let r = update_service around secret old c w in
      let (done, rest) = goes_on r (update_services around secret old cs) v h in
      place_next _ (update_service-PlacedAt old c w done) (update_services-Placed old cs r.1 v rest)
