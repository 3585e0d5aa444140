-- ===== src/Selector/Paths.antt =====
-- common/transportselect/selector.go: what a history of probes makes of the two paths.
use zbproxy_a.Base.{
  ℕ, zero, suc, ◌+◌, ◌<◌, ◌≤◌, List, [], ◌∷◌, Bool, true, false, leb, ◌||◌, Option, none, some, ◌≡◌,
  refl, ap, ◌∙◌, sym, arith, lt→ltb, leb→le, leb→lt, Bool-cases, inl, inr,
}
use zbproxy_a.Selector.{Selector, Config, new, probe_path, probe_once, path_fail_threshold}

-- The probes that ran, the latest first: the answer of TCP and of UDP.
unfoldable pub run : Config → List (Option ℕ × Option ℕ) → Selector
unfolding new probe_once
run c [] = new c
run c ((t, u) ∷ older) = probe_once t u (run c older)

abbrev pub answered : Option ℕ → Bool
answered (some rtt) = true
answered none = false

-- Some answer among the `n` latest probes.
abbrev pub recent : ℕ → List (Option ℕ) → Bool
recent zero h = false
recent (suc n) [] = false
recent (suc n) (x ∷ h) = answered x || recent n h

abbrev pub tcp_answers : List (Option ℕ × Option ℕ) → List (Option ℕ)
tcp_answers [] = []
tcp_answers ((t, u) ∷ h) = t ∷ tcp_answers h

abbrev pub udp_answers : List (Option ℕ × Option ℕ) → List (Option ℕ)
udp_answers [] = []
udp_answers ((t, u) ∷ h) = u ∷ udp_answers h

-- The failures since the latest answer.
abbrev failures : List (Option ℕ) → ℕ
failures [] = 0
failures (some x ∷ h) = 0
failures (none ∷ h) = failures h + 1

recent_down : (h : List (Option ℕ)) → 2 ≤ failures h → recent 2 h ≡ false
recent_down [] p = refl
recent_down (some x ∷ h) p = absurd (omega arith)
recent_down (none ∷ []) p = refl
recent_down (none ∷ (some x ∷ h)) p = absurd (omega arith)
recent_down (none ∷ (none ∷ h)) p = refl

recent_up : (h : List (Option ℕ)) → failures h < 2 → recent 3 h ≡ recent 2 h
recent_up [] p = refl
recent_up (some x ∷ h) p = refl
recent_up (none ∷ []) p = refl
recent_up (none ∷ (some x ∷ h)) p = refl
recent_up (none ∷ (none ∷ h)) p = absurd (omega arith)

-- One path, with its port set, after a further probe.
path-recent :
    (h : List (Option ℕ)) (x : Option ℕ) (fails old : ℕ) (up : Bool)
    → fails ≡ failures h
    → up ≡ recent 3 h
    → ((probe_path true x (fails, up, old)).0 ≡ failures (x ∷ h))
      × ((probe_path true x (fails, up, old)).1 ≡ recent 3 (x ∷ h))
unfolding probe_path
path-recent h (some x) fails old up e f = (refl, refl)
path-recent h none fails old up e f = (
  ap (λ n. n + 1) e,
  elim (Bool-cases (leb path_fail_threshold (fails + 1))) [
    | inl d ↦ rw d (sym (recent_down h (omega (arith, e, leb→le 3 (fails + 1) d))))
    | inr d ↦ rw d (f ∙ recent_up h (omega (arith, e, leb→lt 3 (fails + 1) d)))
  ],
)

pub cfg-run : (c : Config) (h : List (Option ℕ × Option ℕ)) → (run c h).cfg ≡ (new c).cfg
unfolding run new probe_once
cfg-run c [] = refl
cfg-run c ((t, u) ∷ h) = cfg-run c h

pub tcp-recent :
    (c : Config) (h : List (Option ℕ × Option ℕ))
    → 0 < c.tcp_port
    → ((run c h).tcp_fails ≡ failures (tcp_answers h))
      × ((run c h).tcp_up ≡ recent 3 (tcp_answers h))
unfolding run new probe_once
tcp-recent c [] p = (refl, refl)
tcp-recent c ((t, u) ∷ h) p =
    let (e, f) = tcp-recent c h p in
    rw (cfg-run c h, lt→ltb 0 c.tcp_port p)
      (path-recent (tcp_answers h) t (run c h).tcp_fails (run c h).tcp_rtt (run c h).tcp_up e f)

pub udp-recent :
    (c : Config) (h : List (Option ℕ × Option ℕ))
    → 0 < c.udp_port
    → ((run c h).udp_fails ≡ failures (udp_answers h))
      × ((run c h).udp_up ≡ recent 3 (udp_answers h))
unfolding run new probe_once
udp-recent c [] p = (refl, refl)
udp-recent c ((t, u) ∷ h) p =
    let (e, f) = udp-recent c h p in
    rw (cfg-run c h, lt→ltb 0 c.udp_port p)
      (path-recent (udp_answers h) u (run c h).udp_fails (run c h).udp_rtt (run c h).udp_up e f)

-- The time of the latest answer.
abbrev pub latest : List (Option ℕ) → ℕ
latest [] = 0
latest (some rtt ∷ h) = rtt
latest (none ∷ h) = latest h

path-latest :
    (x : Option ℕ) (fails old : ℕ) (up : Bool) (h : List (Option ℕ))
    → old ≡ latest h
    → (probe_path true x (fails, up, old)).2 ≡ latest (x ∷ h)
unfolding probe_path
path-latest (some x) fails old up h e = refl
path-latest none fails old up h e = e

pub rtts-latest :
    (c : Config) (h : List (Option ℕ × Option ℕ))
    → 0 < c.tcp_port
    → 0 < c.udp_port
    → ((run c h).tcp_rtt ≡ latest (tcp_answers h)) × ((run c h).udp_rtt ≡ latest (udp_answers h))
unfolding run new probe_once
rtts-latest c [] p q = (refl, refl)
rtts-latest c ((t, u) ∷ h) p q =
    let (e, f) = rtts-latest c h p q in
    rw (cfg-run c h, lt→ltb 0 c.tcp_port p, lt→ltb 0 c.udp_port q)
      (
        path-latest t (run c h).tcp_fails (run c h).tcp_rtt (run c h).tcp_up (tcp_answers h) e,
        path-latest u (run c h).udp_fails (run c h).udp_rtt (run c h).udp_up (udp_answers h) f,
      )
