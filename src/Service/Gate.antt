-- ===== src/Service/Gate.antt =====
-- service/service.go: which connections `handleInbound` lets through, and what of their stream.
use zbproxy_a.Base.{
  ℕ, List, ◌++◌, ◌<◌, ◌≤◌, Bool, true, false, ◌==◌, if◌then◌else◌, Option, none, some, length, ◌≡◌,
  refl, ◌∙◌, arith, ==-apart, subst, Bool-cases, inl, inr,
}
use zbproxy_a.Route.Values.{String, Metadata}
use zbproxy_a.Route.{StringSet}
use zbproxy_a.Access.{check}
use zbproxy_a.Access as Access
use zbproxy_a.Auth.{Verdict, returns, waits, verify, default_timeout, max_len}
use zbproxy_a.Auth.Laws.{verify_accepts, verify_accepts_iff, rest_of}
use zbproxy_a.Wire.{Conn}
use zbproxy_a.Service.{Service}
use zbproxy_a.Service.Inbound.{
  Kind, Remote, Reason, Fate, refused, to_router, to_legacy, kept, panics, Headed, with_secret,
  with_access, hand_on, handle_inbound, remote_ip, on_verdict, on_check,
}

-- The connection goes on to the router or to the legacy outbound.
abbrev pub IsHandedOn : Fate → Type 0
IsHandedOn (refused reset why) = ⊥
IsHandedOn (to_router m c) = Unit
IsHandedOn (to_legacy m c) = Unit
IsHandedOn kept = ⊥
IsHandedOn panics = ⊥

-- The stream begins with the secret of the service, and `rest` follows.
abbrev pub SentSecret : Service → Conn → List ℕ → Type 0
SentSecret s c rest = (0 < length s.auth_secret) × (c.incoming ≡ s.auth_secret ++ rest)

abbrev pub IsAllowed : Service → String → Type 0
IsAllowed s ip = elim s.ip_access_lists [
  | none ↦ Unit
  | some lists ↦ check lists s.config.ip_mode ip ≡ some true
]

on_check-IsHandedOn :
    (k : Kind) (o : Option Bool) (next : Fate)
    → IsHandedOn (on_check k o next)
    → (o ≡ some true) × IsHandedOn next
on_check-IsHandedOn k none next h = absurd h
on_check-IsHandedOn k (some false) next h = absurd h
on_check-IsHandedOn k (some true) next h = (refl, h)

with_lists :
    (k : Kind) (mode : Access.Mode) (ip : String) (next : Fate) (ls : Option (List StringSet))
    → IsHandedOn (elim ls as (λ o. Fate) [
      | none ↦ next
      | some lists ↦ on_check k (check lists mode ip) next
    ])
    → (elim ls as (λ o. Type 0) [ none ↦ Unit | some lists ↦ check lists mode ip ≡ some true ])
      × IsHandedOn next
with_lists k mode ip next none h = (tt, h)
with_lists k mode ip next (some lists) h = on_check-IsHandedOn k (check lists mode ip) next h

with_access-IsAllowed :
    (s : Service) (k : Kind) (ip : String) (next : Fate)
    → IsHandedOn (with_access s k ip next)
    → IsAllowed s ip × IsHandedOn next
unfolding with_access
with_access-IsAllowed s k ip next h = with_lists k s.config.ip_mode ip next s.ip_access_lists h

on_verdict-IsHandedOn :
    (k : Kind) (v : Verdict) (next : Conn → Fate)
    → IsHandedOn (on_verdict k v next)
    → (d : Conn) × (v ≡ returns none d) × IsHandedOn (next d)
on_verdict-IsHandedOn k (returns none d) next h = (d, refl, h)
on_verdict-IsHandedOn k (returns (some e) d) next h = absurd h
on_verdict-IsHandedOn k waits next h = absurd h

unless_refused :
    (b reset : Bool) (why : Reason) (f : Fate)
    → IsHandedOn (if b then refused reset why else f)
    → (b ≡ false) × IsHandedOn f
unless_refused true reset why f h = absurd h
unless_refused false reset why f h = (refl, h)

if_true : (b : Bool) (f g : Fate) → b ≡ true → IsHandedOn (if b then f else g) → IsHandedOn f
if_true true f g e h = h
if_true false f g e h = absurd (ground (arith, e))

no_secret :
    (now : ℕ) (s : Service) (k : Kind) (c : Conn) (next : Conn → Fate)
    → s.config.require_auth_secret ≡ false
    → IsHandedOn (with_secret now s k c next)
    → IsHandedOn (next c)
unfolding with_secret
no_secret now s k c next e = simp (e) (λ h. h)

with_lists_lem :
    (k : Kind) (mode : Access.Mode) (ip : String) (next : Fate) (ls : Option (List StringSet))
    → (elim ls as (λ o. Type 0) [ none ↦ Unit | some lists ↦ check lists mode ip ≡ some true ])
    → (elim ls as (λ o. Fate) [ none ↦ next | some lists ↦ on_check k (check lists mode ip) next ])
      ≡ next
with_lists_lem k mode ip next none h = refl
with_lists_lem k mode ip next (some lists) h = rw (h) refl

with_access_lem :
    (s : Service) (k : Kind) (ip : String) (next : Fate)
    → IsAllowed s ip
    → with_access s k ip next ≡ next
unfolding with_access
with_access_lem s k ip next h = with_lists_lem k s.config.ip_mode ip next s.ip_access_lists h

with_secret_lem :
    (now : ℕ) (s : Service) (k : Kind) (c : Conn) (rest : List ℕ) (next : Conn → Fate)
    → s.config.require_auth_secret ≡ true
    → length s.auth_secret ≤ max_len
    → SentSecret s c rest
    → with_secret now s k c next ≡ next (rest_of rest c)
unfolding with_secret
with_secret_lem now s k c rest next e bound sent =
    simp
      (
        e,
        ==-apart (length s.auth_secret) 0 (omega (arith, sent.0)),
        (verify_accepts_iff now default_timeout s.auth_secret rest c (sent.0, bound)).1 (sent.1),
      )
      refl

positive_length : (n : ℕ) → (n == 0) ≡ false → 0 < n
positive_length n e = ground arith

-- A connection that a service hands on, one that requires the secret, began with the secret, and the
-- handing on is of the bytes behind it.
with_secret-SentSecret :
    (now : ℕ) (s : Service) (k : Kind) (c : Conn) (next : Conn → Fate)
    → s.config.require_auth_secret ≡ true
    → length s.auth_secret ≤ max_len
    → IsHandedOn (with_secret now s k c next)
    → (rest : List ℕ) × SentSecret s c rest × IsHandedOn (next (rest_of rest c))
unfolding with_secret
with_secret-SentSecret now s k c next e bound h =
    let checked =
      unless_refused (length s.auth_secret == 0) _ _ _
        (if_true s.config.require_auth_secret _ _ e h) in
    let positive = positive_length (length s.auth_secret) (checked.0) in
    let accepted =
      on_verdict-IsHandedOn k (verify now s.auth_secret default_timeout c) next (checked.1) in
    let left =
      verify_accepts now default_timeout s.auth_secret c (accepted.0) (positive, bound)
        (accepted.1) in
    (left.0, (positive, left.1), subst (λ d. IsHandedOn (next d)) (left.2) (accepted.2))

module _ (ip_string : ℕ → Bool → String) (handle_proxy : Conn → Metadata → Headed) where
  -- No connection gets past the gate of a service without its due: one that is handed on to the router
  -- or the legacy outbound passed the access lists where there are any, and, where the secret is
  -- required, its stream began with the secret, which is not empty.
  pub handle_inbound-IsHandedOn :
      (now : ℕ) (s : Service) (k : Kind) (r : Remote) (c : Conn)
      → length s.auth_secret ≤ max_len
      → IsHandedOn (handle_inbound ip_string handle_proxy now s k r c)
      → IsAllowed s (remote_ip ip_string handle_proxy r)
        × (s.config.require_auth_secret ≡ true → (rest : List ℕ) × SentSecret s c rest)
  unfolding handle_inbound
  handle_inbound-IsHandedOn now s k r c bound h = elim (Bool-cases s.config.require_auth_secret) [
    | inl e ↦
        let sent = with_secret-SentSecret now s k c _ e bound h in
        ((with_access-IsAllowed s k _ _ (sent.2)).0, λ _. (sent.0, sent.1))
    | inr e ↦ (
      (with_access-IsAllowed s k _ _ (no_secret now s k c _ e h)).0,
      λ t. absurd (ground (arith, e, t)),
    )
  ]

  -- And what pays its due is handed on: the stream behind the secret, unread and with no deadline,
  -- reaches the PROXY protocol header or the router.
  pub handle_inbound-hand_on :
      (now : ℕ) (s : Service) (k : Kind) (r : Remote) (c : Conn) (rest : List ℕ)
      → s.config.require_auth_secret ≡ true
      → length s.auth_secret ≤ max_len
      → SentSecret s c rest
      → IsAllowed s (remote_ip ip_string handle_proxy r)
      → handle_inbound ip_string handle_proxy now s k r c
        ≡ hand_on ip_string handle_proxy s r (rest_of rest c)
  unfolding handle_inbound
  handle_inbound-hand_on now s k r c rest e bound sent allowed =
      with_secret_lem now s k c rest _ e bound sent
      ∙ with_access_lem s k (remote_ip ip_string handle_proxy r)
          (hand_on ip_string handle_proxy s r (rest_of rest c)) allowed
