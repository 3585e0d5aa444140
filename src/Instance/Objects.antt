-- ===== src/Instance/Objects.antt =====
-- zbproxy.go: the objects that `UpdateConfig` does not touch, and those that it makes.
use zbproxy_a.Base.{
  ℕ, zero, suc, ◌<◌, ◌≤◌, List, [], ◌∷◌, ◌++◌, map, All, Bool, true, false, ◌||◌, length,
  length-append, length-set, get_elem?, set, some, ◌≡◌, ◌≢◌, refl, sym, ap, ◌∙◌, subst, arith,
  Option-cases, inl, inr,
}
use native.Mathlib.Decide.{dec_lt}
use zbproxy_a.Base.Assoc.{bytes_eq, bytes_beq_iff, ◌===◌, lookup}
use zbproxy_a.Route.Values.{String}
use zbproxy_a.Service.{Service, Socket, Surroundings}
use zbproxy_a.Service as Service
use zbproxy_a.Instance.Outbounds.{
  Ops, Made, update_outbound, update_outbounds, reload_outbound, add_outbound,
}
use zbproxy_a.Instance.Services.{
  Running, update_service, update_services, start_service, reload_service,
}
use zbproxy_a.Instance.Routing.{Router}
use zbproxy_a.Instance.Places.{Map, mentioned, Below}

module _ {ℓ} {A : Type ℓ} where
  get_elem?-set_ne :
      (xs : List A) (i k : ℕ) (v : A) → i ≢ k → get_elem? (set xs i v) k ≡ get_elem? xs k
  get_elem?-set_ne [] i k v n = refl
  get_elem?-set_ne (x ∷ xs) zero zero v n = absurd (n refl)
  get_elem?-set_ne (x ∷ xs) zero (suc k) v n = refl
  get_elem?-set_ne (x ∷ xs) (suc i) zero v n = refl
  get_elem?-set_ne (x ∷ xs) (suc i) (suc k) v n = get_elem?-set_ne xs i k v (λ e. n (ap suc e))

  pub get_elem?-some : (xs : List A) (k : ℕ) → k < length xs → (x : A) × (get_elem? xs k ≡ some x)
  get_elem?-some [] k h = absurd (omega arith)
  get_elem?-some (x ∷ xs) zero h = (x, refl)
  get_elem?-some (x ∷ xs) (suc k) h = get_elem?-some xs k (omega arith)

  get_elem?-snoc_lt :
      (xs : List A) (k : ℕ) (v : A) → k < length xs → get_elem? (xs ++ (v ∷ [])) k ≡ get_elem? xs k
  get_elem?-snoc_lt [] k v h = absurd (omega arith)
  get_elem?-snoc_lt (x ∷ xs) zero v h = refl
  get_elem?-snoc_lt (x ∷ xs) (suc k) v h = get_elem?-snoc_lt xs k v (omega arith)

  get_elem?-snoc_le :
      (xs : List A) (k : ℕ) (v w : A)
      → length xs ≤ k
      → get_elem? (xs ++ (v ∷ [])) k ≡ some w
      → w ≡ v
  get_elem?-snoc_le [] zero v w h e = cc
  get_elem?-snoc_le [] (suc k) v w h e = cc
  get_elem?-snoc_le (x ∷ xs) zero v w h e = absurd (omega arith)
  get_elem?-snoc_le (x ∷ xs) (suc k) v w h e = get_elem?-snoc_le xs k v w (omega arith) e

module _ (around : List Socket → Surroundings) (secret : String) (old : Map) (k : ℕ) where
  abbrev Same : Running → Running → Type 0
  Same w v = (get_elem? v.objects k ≡ get_elem? w.objects k) × (length w.objects ≤ length v.objects)

  update_service-Same :
      (c : Service.Config) (w : Running)
      → lookup c.name old ≢ some k
      → k < length w.objects
      → Same w (update_service around secret old c w).1
  unfolding update_service reload_service start_service
  update_service-Same c w n h = elim (Option-cases (lookup c.name old)) [
    | inl new ↦
        let r =
          Service.start (around w.sockets)
            (Service.set_auth_secret secret (Service.new_service c w.sockets)) in
        ground (arith, new, get_elem?-snoc_lt w.objects k r.1 h, length-append w.objects (r.1 ∷ []))
    | inr (i, at) ↦ elim (Option-cases (get_elem? w.objects i)) [
      | inl e ↦ ground (arith, at, e)
      | inr (s, e) ↦
          let t : Service = record (Service.set_auth_secret secret s) { sockets = w.sockets } in
          let r = Service.reload (around (Service.close t).1.sockets) c t in
          let apart : i ≢ k = (λ q. n (at ∙ ap some q)) in
          ground
            (arith, at, e, get_elem?-set_ne w.objects i k r.1 apart, length-set w.objects i r.1)
    ]
  ]

  pub update_services-same :
      (cs : List Service.Config) (w : Running)
      → All (λ c. lookup c.name old ≢ some k) cs
      → k < length w.objects
      → get_elem? (update_services around secret old cs w).1.objects k ≡ get_elem? w.objects k
  unfolding update_services
  update_services-same [] w n h = refl
  update_services-same (c ∷ cs) w n h =
      let r = update_service around secret old c w in
      let (same, more) = update_service-Same c w n.0 h in
      let rest = update_services-same cs r.1 n.1 (omega (arith, h, more)) in
      ground (arith, same, rest)

both_false : (x y : Bool) → (x || y) ≡ false → (x ≡ false) × (y ≡ false)
both_false x y h = ground arith

-- A place with the name `n` alone, and no configured service of this name.
pub unmentioned :
    (old : Map) (k : ℕ) (n : String) (cs : List Service.Config)
    → ((m : String) → lookup m old ≡ some k → m ≡ n)
    → mentioned n (map (λ c. c.name) cs) ≡ false
    → All (λ c. lookup c.name old ≢ some k) cs
unmentioned old k n [] only h = tt
unmentioned old k n (c ∷ cs) only h =
    let (a, b) = both_false (c.name === n) (mentioned n (map (λ d. d.name) cs)) h in
    (λ e. cc ((bytes_beq_iff c.name n).1 (only c.name e), a), unmentioned old k n cs only b)

-- A loop that stops at the first step that fails.
stopped :
    {O : Type 0} (r : Bool × Made O) (f : Made O → Bool × Made O) (P : List O → Type 0)
    → P r.1.objects
    → P (f r.1).1.objects
    → P (elim r.0 as (λ b. Bool × Made O) [ true ↦ r | false ↦ f r.1 ]).1.objects
stopped (true, v) f P here later = here
stopped (false, v) f P here later = later

-- What is made by an update has its secret, and is not initialised.
module _ {O C R L : Type 0} (ops : Ops O C R L) (secret : String) (P : O → Type 0) where
  abbrev MadeSo : Type 0
  MadeSo = (c : C) (o : O) → ops.create c ≡ some o → P (ops.set_auth_secret secret o)

  abbrev FromSo : ℕ → List O → Type 0
  FromSo base xs = (k : ℕ) (o : O) → base ≤ k → get_elem? xs k ≡ some o → P o

  FromSo-set :
      (base i : ℕ) (xs : List O) (v : O) → i < base → FromSo base xs → FromSo base (set xs i v)
  FromSo-set base i xs v h so =
      λ k o hk e. so k o hk (sym (get_elem?-set_ne xs i k v (λ q. absurd (omega (arith, q)))) ∙ e)

  FromSo-snoc :
      (base : ℕ) (xs : List O) (v : O) → P v → FromSo base xs → FromSo base (xs ++ (v ∷ []))
  FromSo-snoc base xs v p so = λ k o hk e. elim (dec_lt k (length xs)) [
    | yes h ↦ so k o hk (sym (get_elem?-snoc_lt xs k v h) ∙ e)
    | no h ↦ subst P (sym (get_elem?-snoc_le xs k v o (omega (arith, h)) e)) p
  ]

  update_outbound-FromSo :
      (router : Router R L) (old : Map) (base : ℕ) (c : C) (w : Made O)
      → MadeSo
      → Below base old
      → FromSo base w.objects
      → FromSo base (update_outbound ops secret router old c w).1.objects
  unfolding update_outbound reload_outbound add_outbound
  update_outbound-FromSo router old base c w made below so =
      let after = (update_outbound ops secret router old c w).1.objects in
      elim (Option-cases (lookup (ops.config_name c) old)) [
        | inl new ↦ elim (Option-cases (ops.create c)) [
          | inl e ↦
              let same : after ≡ w.objects = ground (arith, new, e) in
              subst (FromSo base) (sym same) so
          | inr (o, e) ↦
              let v = ops.set_auth_secret secret o in
              let same : after ≡ w.objects ++ (v ∷ []) = ground (arith, new, e) in
              subst (FromSo base) (sym same) (FromSo-snoc base w.objects v (made c o e) so)
        ]
        | inr (i, at) ↦ elim (Option-cases (get_elem? w.objects i)) [
          | inl e ↦
              let same : after ≡ w.objects = ground (arith, at, e) in
              subst (FromSo base) (sym same) so
          | inr (o, e) ↦
              let v = (ops.reload router c (ops.set_auth_secret secret o)).1 in
              let same : after ≡ set w.objects i v = ground (arith, at, e) in
              subst (FromSo base) (sym same)
                (FromSo-set base i w.objects v (below (ops.config_name c) i at) so)
        ]
      ]

  pub update_outbounds-FromSo :
      (router : Router R L) (old : Map) (base : ℕ) (cs : List C) (w : Made O)
      → MadeSo
      → Below base old
      → FromSo base w.objects
      → FromSo base (update_outbounds ops secret router old cs w).1.objects
  unfolding update_outbounds
  update_outbounds-FromSo router old base [] w made below so = so
  update_outbounds-FromSo router old base (c ∷ cs) w made below so =
      let r = update_outbound ops secret router old c w in
      let next = update_outbound-FromSo router old base c w made below so in
      stopped r (update_outbounds ops secret router old cs) (FromSo base) next
        (update_outbounds-FromSo router old base cs r.1 made below next)
