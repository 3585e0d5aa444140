-- ===== src/Selector/Choice.antt =====
-- common/transportselect/selector.go: the preferred transport as a function of the history of probes.
use zbproxy_a.Base.{
  ℕ, ◌<◌, ◌≤◌, List, [], ◌∷◌, Bool, true, false, ltb, if◌then◌else◌, Option, some, ◌≡◌, refl, ap,
  ap₂, ◌∙◌, arith, lt→ltb, ◌*◌,
}
use zbproxy_a.Selector.{
  Selector, Config, Transport, by_tcp, by_udp, auto, new, prefer, choose_locked, probe_once,
  is_close, second,
}
use zbproxy_a.Selector.Paths.{
  run, recent, tcp_answers, udp_answers, latest, tcp-recent, udp-recent, rtts-latest, cfg-run,
}

-- Which paths answered lately, the two times, and the transport preferred before.
abbrev pub verdict : Bool → Bool → ℕ → ℕ → Transport → Transport
verdict true false tcp_rtt udp_rtt old = by_tcp
verdict false true tcp_rtt udp_rtt old = by_udp
verdict false false tcp_rtt udp_rtt old = by_tcp
verdict true true tcp_rtt udp_rtt old =
    if is_close tcp_rtt udp_rtt then old else if ltb udp_rtt tcp_rtt then by_udp else by_tcp

unfoldable pub expected : List (Option ℕ × Option ℕ) → Transport
expected [] = by_tcp
expected ((t, u) ∷ h) =
    verdict (recent 3 (t ∷ tcp_answers h)) (recent 3 (u ∷ udp_answers h))
      (latest (t ∷ tcp_answers h)) (latest (u ∷ udp_answers h)) (expected h)

choose-verdict :
    (t : Transport) (s : Selector) (a b : Bool)
    → s.tcp_up ≡ a
    → s.udp_up ≡ b
    → ltb 0 s.cfg.tcp_port ≡ true
    → ltb 0 s.cfg.udp_port ≡ true
    → choose_locked (some t) s ≡ verdict a b s.tcp_rtt s.udp_rtt t
unfolding choose_locked
choose-verdict t s true true e f p q = rw (e, f, p, q) refl
choose-verdict t s true false e f p q = rw (e, f, p) refl
choose-verdict t s false true e f p q = rw (e, f, q) refl
choose-verdict t s false false e f p q = rw (e, f, p) refl

port-run :
    (c : Config) (h : List (Option ℕ × Option ℕ))
    → 0 < c.tcp_port
    → 0 < c.udp_port
    → (ltb 0 (run c h).cfg.tcp_port ≡ true) × (ltb 0 (run c h).cfg.udp_port ≡ true)
unfolding new
port-run c h p q = rw (cfg-run c h) (lt→ltb 0 c.tcp_port p, lt→ltb 0 c.udp_port q)

preferred-run :
    (c : Config) (h : List (Option ℕ × Option ℕ))
    → 0 < c.tcp_port
    → 0 < c.udp_port
    → c.mode ≡ auto
    → (run c h).preferred ≡ some (expected h)
unfolding run new probe_once expected
preferred-run c [] p q m = rw (m, lt→ltb 0 c.tcp_port p) refl
preferred-run c ((t, u) ∷ h) p q m =
    let now = run c ((t, u) ∷ h) in
    let probed : Selector = record now { preferred = (run c h).preferred } in
    let (e, f) = tcp-recent c ((t, u) ∷ h) p in
    let (e1, f1) = udp-recent c ((t, u) ∷ h) q in
    let (r, r1) = rtts-latest c ((t, u) ∷ h) p q in
    let (a, b) = port-run c ((t, u) ∷ h) p q in
    ap some (
      ap (λ o. choose_locked o probed) (preferred-run c h p q m)
      ∙ choose-verdict (expected h) probed (recent 3 (t ∷ tcp_answers h))
          (recent 3 (u ∷ udp_answers h)) f f1 a b
      ∙ ap₂
          (λ m n.
            verdict (recent 3 (t ∷ tcp_answers h)) (recent 3 (u ∷ udp_answers h)) m n (expected h))
          r r1)

-- With mode auto and both ports set, the transport of the next dial is decided by the probes so far,
-- the latest first: with no probe TCP; a path that answered one of the last three probes wins
-- over a path that answered none of them; TCP when neither did; and when both did, what was preferred
-- before if their latest times differ by less than 5 ms, and else the faster.
pub prefer-expected :
    (c : Config) (h : List (Option ℕ × Option ℕ))
    → 0 < c.tcp_port
    → 0 < c.udp_port
    → c.mode ≡ auto
    → prefer (run c h) ≡ expected h
unfolding prefer new
prefer-expected c h p q m = rw (prefer, preferred-run c h p q m, cfg-run c h, m) refl

-- The interval of a new selector is at least 3 and at most 60 seconds.
new-interval :
    (c : Config) → (3 * second ≤ (new c).cfg.interval) × ((new c).cfg.interval ≤ 60 * second)
unfolding new
new-interval c = ground arith
