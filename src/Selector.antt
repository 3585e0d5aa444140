-- ===== src/Selector.antt =====
-- common/transportselect/selector.go: which transport the next dial of a dual outbound takes. A
-- probe's outcome, the round trip time in nanoseconds or nothing, is an argument, since it comes from
-- the network; the store of the preferred mode and the probe's body run under one lock, so a probe is
-- one step. The probe loop only repeats the step.
pub mod Paths
pub mod Choice
use zbproxy_a.Base.{
  ℕ, ◌+◌, ◌-◌, ◌*◌, Bool, true, false, ltb, leb, if◌then◌else◌, ◌&&◌, ◌||◌, not, Option, none, some,
  List, [], ◌∷◌,
}

-- The `Mode` of the configuration; any other string is `other`.
pub data Mode : Type 0 where
  tcp udp auto other : Mode

-- The strings that `preferred` holds.
pub data Transport : Type 0 where
  by_tcp by_udp : Transport

pub record Config : Type 0 where
  pub tcp_port : ℕ
  pub udp_port : ℕ
  pub mode : Mode
  pub interval : ℕ

pub record Selector : Type 0 where
  pub cfg : Config
  pub preferred : Option Transport
  pub tcp_rtt : ℕ
  pub udp_rtt : ℕ
  pub tcp_fails : ℕ
  pub udp_fails : ℕ
  pub tcp_up : Bool
  pub udp_up : Bool

abbrev pub second : ℕ
second = 1000000000

abbrev pub sticky_time : ℕ
sticky_time = 5 * 1000000

abbrev pub path_fail_threshold : ℕ
path_fail_threshold = 3

-- The interval of the probe loop, from 3 to 60 seconds.
abbrev pub clamp_interval : ℕ → ℕ
clamp_interval i =
    let at_least = if ltb i (3 * second) then 10 * second else i in
    if ltb (60 * second) at_least then 60 * second else at_least

abbrev pub first_preferred : Config → Transport
first_preferred c = elim c.mode [
  | udp ↦ by_udp
  | auto ↦ if ltb 0 c.tcp_port then by_tcp else by_udp
  | tcp ↦ by_tcp
  | other ↦ by_tcp
]

unfoldable pub new : Config → Selector
new c = record {
  cfg = record c { interval = clamp_interval c.interval };
  preferred = some (first_preferred c);
  tcp_rtt = 0;
  udp_rtt = 0;
  tcp_fails = 0;
  udp_fails = 0;
  tcp_up = false;
  udp_up = false;
}

-- `Preferred`: the hard modes are honoured whatever is stored.
unfoldable pub prefer : Selector → Transport
prefer s = elim s.preferred [
  | none ↦ by_tcp
  | some t ↦ elim s.cfg.mode [ tcp ↦ by_tcp | udp ↦ by_udp | auto ↦ t | other ↦ t ]
]

-- `Start`: whether the probe loop runs.
abbrev pub starts : Selector → Bool
starts s = elim s.cfg.mode [
  | auto ↦ ltb 0 s.cfg.tcp_port || ltb 0 s.cfg.udp_port
  | tcp ↦ false
  | udp ↦ false
  | other ↦ false
]

-- `diff < StickyMs`, the difference of two times without its sign.
abbrev pub is_close : ℕ → ℕ → Bool
is_close m n = ltb ((m - n) + (n - m)) sticky_time

abbrev pub faster : Selector → Transport
faster s = if ltb s.udp_rtt s.tcp_rtt then by_udp else by_tcp

unfoldable pub choose_locked : Option Transport → Selector → Transport
choose_locked sticky s =
    let tcp_ok = s.tcp_up && ltb 0 s.cfg.tcp_port in
    let udp_ok = s.udp_up && ltb 0 s.cfg.udp_port in
    if tcp_ok && not udp_ok
    then by_tcp
    else if udp_ok && not tcp_ok
    then by_udp
    else if not tcp_ok && not udp_ok
    then (if ltb 0 s.cfg.tcp_port then by_tcp else by_udp)
    else elim sticky [
      | some t ↦ if is_close s.tcp_rtt s.udp_rtt then t else faster s
      | none ↦ faster s
    ]

-- What a probe finds of one path: the path's port is set, the answer, then the failures counted,
-- whether the path was up, and its time.
unfoldable pub probe_path : Bool → Option ℕ → ℕ × Bool × ℕ → ℕ × Bool × ℕ
probe_path true (some rtt) (fails, up, old) = (0, true, rtt)
probe_path true none (fails, up, old) =
    (fails + 1, if leb path_fail_threshold (fails + 1) then false else up, old)
probe_path false answer (fails, up, old) = (fails, false, old)

-- One probe, with the answer of each path.
unfoldable pub probe_once : Option ℕ → Option ℕ → Selector → Selector
unfolding probe_path
probe_once tcp_answer udp_answer s =
    let t = probe_path (ltb 0 s.cfg.tcp_port) tcp_answer (s.tcp_fails, s.tcp_up, s.tcp_rtt) in
    let u = probe_path (ltb 0 s.cfg.udp_port) udp_answer (s.udp_fails, s.udp_up, s.udp_rtt) in
    let probed : Selector = record s {
      tcp_fails = t.0;
      tcp_up = t.1;
      tcp_rtt = t.2;
      udp_fails = u.0;
      udp_up = u.1;
      udp_rtt = u.2;
    } in
    record probed { preferred = some (choose_locked s.preferred probed) }
