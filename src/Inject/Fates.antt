-- ===== src/Inject/Fates.antt =====
-- protocol/minecraft/outbound.go: the settings of the Minecraft outbound, what becomes of a connection
-- that `InjectConnection` gets, and the steps that more than one of its branches takes. What the code
-- asks of others (texts, dials, whether writes succeed) is the record World.
use zbproxy_a.Base.{ℕ, List, Bool, true, false, Option, none, some, if◌then◌else◌}
use zbproxy_a.Buf.{Result, ok, err, panic, is_hang}
use zbproxy_a.Inject.Building.{text_packet}
use zbproxy_a.Access.{check}
use zbproxy_a.Access as Access
use zbproxy_a.Cached.{CachedConn}
use zbproxy_a.Route.{StringSet}
use zbproxy_a.Route.Values.{String, Metadata}
use zbproxy_a.Outbound.{Outbound, Dialed, Target, opened, closed, unconnected}
use zbproxy_a.Outbound as Outbound

pub record AccessConfig : Type 0 where
  pub mode : Access.Mode
  pub lower_case : Bool

pub data PingMode : Type 0 where
  disconnect zero_ms pong : PingMode

-- config.MinecraftService; a limit that is negative is 0, which admits nobody either.
pub record Settings : Type 0 where
  pub enable_hostname_rewrite : Bool
  pub rewritten_hostname : String
  pub max_online : ℕ
  pub enable_max_limit : Bool
  pub ignore_fml_suffix : Bool
  pub hostname_access : AccessConfig
  pub name_access : AccessConfig
  pub ping_mode : PingMode
  pub motd_favicon : String
  pub motd_description : String

pub record McOutbound : Type 0 where
  pub base : Outbound
  pub settings : Settings
  pub hostname_access_lists : List StringSet
  pub name_access_lists : List StringSet
  pub online_count : ℕ

pub data Error : Type 0 where
  no_metadata invalid_protocol hostname_rejected status_request motd_write message kick_write :
      Error
  no_server handshake_write unknown_intent : Error

-- What becomes of the connection: an error before anything was sent; an answer to the client, with
-- whether a ping is still to be echoed; a message with which it is closed; or a server that has the
-- bytes, and the connection that is copied to it from then on; `hangs` is a read that does not return.
pub data Fate : Type 0 where
  failed : Error → Fate
  server_error : Outbound.Error → Fate
  answered : List ℕ → Bool → Fate
  kicked : List ℕ → Fate
  joined : Target → List ℕ → CachedConn → Fate
  dropped : Fate
  panics hangs : Fate

abbrev pub attempt {ℓ} : {A : Type ℓ} → Error → Result A → (A → Fate) → Fate
attempt e (ok a) f = f a
attempt e (err x) f = if is_hang x then hangs else failed e
attempt e panic f = panics

-- An access check that is made unless the mode is the default.
abbrev pub passes : (String → String) → AccessConfig → List StringSet → String → Option Bool
passes to_lower c lists name = elim c.mode [
  | Access.unset ↦ some true
  | Access.allow ↦ check lists c.mode (if c.lower_case then to_lower name else name)
  | Access.block ↦ check lists c.mode (if c.lower_case then to_lower name else name)
  | Access.other ↦ check lists c.mode (if c.lower_case then to_lower name else name)
]

abbrev pub checked : Option Bool → Fate → Fate → Fate
checked none refuse next = panics
checked (some false) refuse next = refuse
checked (some true) refuse next = next

-- A call of `conn.Conn.(*net.TCPConn)`, which panics for a connection of the UDP tunnel.
abbrev pub on_tcp : Bool → Fate → Fate
on_tcp tcp f = if tcp then f else panics

-- A message to the client, then the end.
abbrev pub kick_with : Bool → Bool → Option (List ℕ) → Fate
kick_with writes tcp none = failed message
kick_with writes tcp (some text) =
    attempt kick_write (text_packet text)
      (λ bs. if writes then on_tcp tcp (kicked bs) else failed kick_write)

abbrev pub on_dialed : Dialed → (Target → List ℕ → Fate) → Fate
on_dialed (unconnected e) next = server_error e
on_dialed (closed e) next = server_error e
on_dialed (opened t bs) next = next t bs

pub record World : Type 0 where
  pub to_lower : String → String
  pub motd : List ℕ
  pub kick_message : String → Option (List ℕ)
  pub limit_message : String → Option (List ℕ)
  pub client_writes : Bool
  pub server_writes : Bool
  pub over_tcp : Bool
  pub dials : Target → Bool
  pub opening_writes : Bool
  pub header : Metadata → Option (List ℕ)
