-- ===== src/Outbound/Hop.antt =====
-- protocol/outbound.go: dials after accepted settings.
use zbproxy_a.Base.{
  ℕ, ◌+◌, ◌<◌, List, [], ◌∷◌, true, ltb, Option, none, some, inl, inr, ◌≡◌, ◌≢◌, refl, ap, ◌∙◌,
  arith, Bool-cases, ltb→le,
}
use zbproxy_a.Route.Values.{String, Metadata}
use zbproxy_a.Route.Handle as Handle
use zbproxy_a.Selector.{
  Mode, tcp, udp, auto, other, second, Transport, by_tcp, by_udp, Selector as State, prefer, new,
  choose_locked, probe_once,
}
use zbproxy_a.Selector as Selector
use zbproxy_a.Selector.Paths.{run, cfg-run}
use zbproxy_a.Outbound.Settings.{accepts}
use zbproxy_a.Outbound.{
  Outbound, current_transport, dial_tunnel, udp_without_port, choose_selector, selector_config,
}

-- With no UDP port and a TCP port, no probe makes the selector prefer UDP.
choose_locked-by_tcp :
    (t : Option Transport) (s : State)
    → s.cfg.udp_port ≡ 0
    → 0 < s.cfg.tcp_port
    → choose_locked t s ≡ by_tcp
unfolding choose_locked
choose_locked-by_tcp t s e h = ground arith

preferred-by_tcp :
    (c : Selector.Config) (h : List (Option ℕ × Option ℕ))
    → c.udp_port ≡ 0
    → 0 < c.tcp_port
    → c.mode ≡ auto
    → (run c h).preferred ≡ some by_tcp
unfolding run new probe_once
preferred-by_tcp c [] e p m = ground arith
preferred-by_tcp c ((t, u) ∷ h) e p m = ap some (
    choose_locked-by_tcp _ _ (ap (λ k. k.udp_port) (cfg-run c h) ∙ e)
      (omega (arith, p, ap (λ k. k.tcp_port) (cfg-run c h))))

prefer-by_tcp :
    (c : Selector.Config) (h : List (Option ℕ × Option ℕ))
    → c.udp_port ≡ 0
    → 0 < c.tcp_port
    → c.mode ≡ auto
    → prefer (run c h) ≡ by_tcp
unfolding prefer new
prefer-by_tcp c h e p m = rw (prefer, preferred-by_tcp c h e p m, cfg-run c h, m) refl

-- The outbound after the probes of its selector, the latest first.
abbrev pub probed : List (Option ℕ × Option ℕ) → Outbound → Outbound
probed h o = record o {
  selector = elim (choose_selector o.config) [
    | none ↦ none
    | some s ↦ some (run (selector_config o.config) h)
  ];
}

-- Once `PostInitialize` accepted the settings, with a TCP or a UDP port to dial, no history of probes
-- makes a dial fail for want of the UDP port.
pub dial_tunnel-accepts :
    (find : String → Option Handle.Outbound) (o : Outbound) (m : Metadata)
    (h : List (Option ℕ × Option ℕ))
    → accepts find o.config ≡ true
    → 0 < o.config.target_port + o.config.udp_target_port
    → dial_tunnel (probed h o) m ≢ inl udp_without_port
unfolding dial_tunnel accepts current_transport choose_selector
dial_tunnel-accepts find o m h ok port = elim (Bool-cases (ltb 0 o.config.udp_target_port)) [
  | inl some_port ↦ ground arith
  | inr no_port ↦ ground (
    arith,
    prefer-by_tcp (selector_config o.config) h
        (omega (arith, ltb→le 0 o.config.udp_target_port no_port))
        (omega (arith, ltb→le 0 o.config.udp_target_port no_port, port)),
  )
]
