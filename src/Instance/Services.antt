-- ===== src/Instance/Services.antt =====
-- zbproxy.go: the services of an instance. All share the ports of the machine, so the sockets that are
-- open go from one call to the next; `around` is what holds while some sockets are open.
use zbproxy_a.Base.{ℕ, List, [], ◌∷◌, ◌++◌, Bool, true, false, length, get_elem?, set, none, some}
use zbproxy_a.Base.Assoc.{bytes_eq, lookup, insert}
use zbproxy_a.Route.Values.{String}
use zbproxy_a.Service.{
  Service, Config, Socket, Surroundings, new_service, set_auth_secret, start, reload, close,
}

pub record Running : Type 0 where
  pub objects : List Service
  pub service_map : List (String × ℕ)
  pub sockets : List Socket

module _ (around : List Socket → Surroundings) (secret : String) where
  -- A service that is not in the old map is made, gets its secret and is started. One that fails to
  -- start is dropped.
  unfoldable pub start_service : Config → Running → Bool × Running
  start_service c w =
      let r = start (around w.sockets) (set_auth_secret secret (new_service c w.sockets)) in
      elim r.0 [
        | some e ↦ (true, record w { sockets = r.1.sockets })
        | none ↦ (
          false,
          record {
            objects = w.objects ++ (r.1 ∷ []);
            service_map = insert c.name (length w.objects) w.service_map;
            sockets = r.1.sockets;
          },
        )
      ]

  -- A service of the old map gets its secret and is reloaded; its own listeners are closed first.
  unfoldable pub reload_service : Config → ℕ → Service → Running → Bool × Running
  reload_service c i s w =
      let t : Service = record (set_auth_secret secret s) { sockets = w.sockets } in
      let r = reload (around (close t).1.sockets) c t in
      let after = set w.objects i r.1 in
      elim r.0 [
        | some e ↦ (true, record w { objects = after; sockets = r.1.sockets })
        | none ↦ (
          false,
          record {
            objects = after;
            service_map = insert c.name i w.service_map;
            sockets = r.1.sockets;
          },
        )
      ]

  unfoldable pub update_service : List (String × ℕ) → Config → Running → Bool × Running
  unfolding start_service reload_service
  update_service old c w = elim (lookup c.name old) [
    | none ↦ start_service c w
    | some i ↦ elim (get_elem? w.objects i) [ none ↦ (true, w) | some s ↦ reload_service c i s w ]
  ]

  unfoldable pub update_services : List (String × ℕ) → List Config → Running → Bool × Running
  unfolding update_service
  update_services old [] w = (false, w)
  update_services old (c ∷ rest) w =
      let r = update_service old c w in elim r.0 [ true ↦ r | false ↦ update_services old rest r.1 ]
