-- ===== src/Instance/Outbounds.antt =====
-- zbproxy.go: the outbounds of an instance, as they are made, initialised and reloaded. adapter.Outbound
-- is an interface; protocol.Plain is one that fills it in.
use zbproxy_a.Base.{
  ℕ, List, [], ◌∷◌, ◌++◌, Bool, true, false, length, get_elem?, set, Option, none, some,
}
use zbproxy_a.Base.Assoc.{bytes_eq, lookup, insert}
use zbproxy_a.Route.Values.{String}
use zbproxy_a.Route.Handle.{find_outbound_by_name}
use zbproxy_a.Outbound as Outbound
use zbproxy_a.Outbound.{Config}
use zbproxy_a.Instance.Routing.{Router}

-- An outbound of type `O` with settings of type `C`; each Boolean says whether the call failed.
pub record Ops (O C R L : Type 0) : Type 0 where
  pub config_name : C → String
  pub name : O → String
  pub create : C → Option O
  pub set_auth_secret : String → O → O
  pub post_initialize : Router R L → O → Bool × O
  pub reload : Router R L → C → O → Bool × O

abbrev failed {ℓ} : {A : Type ℓ} → Option A → Bool
failed none = false
failed (some e) = true

-- protocol.Plain, whose settings have no Minecraft part.
abbrev pub plain : {R L : Type 0} → Ops Outbound.Outbound Config R L
plain = record {
  config_name = λ c. c.name;
  name = λ o. o.config.name;
  create = λ c. some (Outbound.new_outbound c);
  set_auth_secret = Outbound.set_auth_secret;
  post_initialize = λ r o.
      let out = Outbound.post_initialize (find_outbound_by_name r.outbound_map) o in
      (failed out.0, out.1);
  reload = λ r c o.
      let out = Outbound.reload (find_outbound_by_name r.outbound_map) c o in (failed out.0, out.1);
}

-- The objects, and the map under construction.
pub record Made (O : Type 0) : Type 0 where
  pub objects : List O
  pub outbound_map : List (String × ℕ)

module _ {O C R L : Type 0} (ops : Ops O C R L) (secret : String) where
  -- A new object, with its secret and its place in the map.
  unfoldable pub add_outbound : String → O → Made O → Made O
  add_outbound name o w = record {
    objects = w.objects ++ (ops.set_auth_secret secret o ∷ []);
    outbound_map = insert name (length w.objects) w.outbound_map;
  }

  -- The first loop of `Start`.
  unfoldable pub create_outbounds : List C → Made O → Bool × Made O
  unfolding add_outbound
  create_outbounds [] w = (false, w)
  create_outbounds (c ∷ rest) w = elim (ops.create c) [
    | none ↦ (true, w)
    | some o ↦ create_outbounds rest (add_outbound (ops.name o) o w)
  ]

  -- An object that the old map has is reloaded in its place, with the new secret.
  unfoldable pub reload_outbound : Router R L → C → ℕ → O → Made O → Bool × Made O
  reload_outbound router c i o w =
      let r = ops.reload router c (ops.set_auth_secret secret o) in
      let objects = set w.objects i r.1 in
      elim r.0 [
        | true ↦ (true, record w { objects = objects })
        | false ↦ (
          false,
          record { objects = objects; outbound_map = insert (ops.config_name c) i w.outbound_map },
        )
      ]

  unfoldable pub update_outbound : Router R L → List (String × ℕ) → C → Made O → Bool × Made O
  unfolding reload_outbound add_outbound
  update_outbound router old c w = elim (lookup (ops.config_name c) old) [
    | none ↦ elim (ops.create c) [
      | none ↦ (true, w)
      | some o ↦ (false, add_outbound (ops.config_name c) o w)
    ]
    | some i ↦ elim (get_elem? w.objects i) [
      | none ↦ (true, w)
      | some o ↦ reload_outbound router c i o w
    ]
  ]

  unfoldable pub update_outbounds : Router R L → List (String × ℕ) → List C → Made O → Bool × Made O
  unfolding update_outbound
  update_outbounds router old [] w = (false, w)
  update_outbounds router old (c ∷ rest) w =
      let r = update_outbound router old c w in
      elim r.0 [ true ↦ r | false ↦ update_outbounds router old rest r.1 ]

-- `PostInitialize` of the objects at these places, up to the first that fails.
module _ {O C R L : Type 0} (ops : Ops O C R L) where
  unfoldable pub initialize_all : Router R L → List ℕ → List O → Bool × List O
  initialize_all router [] objects = (false, objects)
  initialize_all router (i ∷ rest) objects = elim (get_elem? objects i) [
    | none ↦ initialize_all router rest objects
    | some o ↦
        let r = ops.post_initialize router o in
        let after = set objects i r.1 in
        elim r.0 [ true ↦ (true, after) | false ↦ initialize_all router rest after ]
  ]
