-- ===== src/Tunnel/Limits.antt =====
-- common/udptunnel/limits.go: the constants of the tunnel. Durations are nanoseconds.
use zbproxy_a.Base.{ℕ, ◌*◌}

abbrev pub magic : ℕ
magic = 0x5a42

abbrev pub version : ℕ
version = 1

abbrev pub header_size : ℕ
header_size = 22

abbrev pub max_payload : ℕ
max_payload = 1200

abbrev pub max_in_flight : ℕ
max_in_flight = 32

abbrev pub max_sessions : ℕ
max_sessions = 256

abbrev pub millisecond : ℕ
millisecond = 1_000_000

abbrev pub default_idle_timeout : ℕ
default_idle_timeout = 90_000 * millisecond

abbrev pub default_rto : ℕ
default_rto = 200 * millisecond

abbrev pub max_rto : ℕ
max_rto = 2_000 * millisecond

abbrev pub type_syn : ℕ
type_syn = 1

abbrev pub type_synack : ℕ
type_synack = 2

abbrev pub type_data : ℕ
type_data = 3

abbrev pub type_ack : ℕ
type_ack = 4

abbrev pub type_fin : ℕ
type_fin = 5

abbrev pub type_rst : ℕ
type_rst = 6

abbrev pub type_ping : ℕ
type_ping = 7

abbrev pub type_pong : ℕ
type_pong = 8
