-- ===== src/Lib.antt =====
-- ZBProxy (Go), its core modelled and verified.
--
-- A service accepts a connection over TCP or over the UDP tunnel, takes the pre-shared secret and the
-- PROXY protocol header off it, and hands it to the router (service, common/authsecret, common/access).
-- The router matches its metadata against rules that sniff it, pick and rewrite the destination (route,
-- protocol/minecraft/sniff.go). An outbound dials the next hop, with the same secret and header, and
-- copies the streams; the Minecraft outbound answers status requests, kicks players and rewrites the
-- handshake (protocol). A hop is dialled over TCP or over a reliable stream on UDP datagrams
-- (common/udptunnel) that a selector chooses between (common/transportselect). The Minecraft protocol
-- is read and written through byte buffers (common/buf, common/mcprotocol).
--
-- The files:
--   Base            tests on numbers, lists by native numbers, byte order, maps and bit operations
--   Wire            a connection as the bytes to come, how they end and the read deadline
--   Access          common/access/access.go and FindListsByTag of route/router.go
--   Auth            common/authsecret/authsecret.go: Normalize, Write and Verify
--   Service         service/service.go and config/service.go: the state, Start, Reload and Close;
--                   Inbound is handleInbound, Steps and Life are about starts, reloads and closes, Gate
--                   about what is handed on
--   Tunnel/Frame    common/udptunnel/frame.go: Encode and Decode
--   Tunnel/Session  common/udptunnel/session.go: a session's state and each of its methods; Receive has
--                   storeDataLocked and read, Send consumeAckLocked, write and retransmitTick, Handler
--                   onPacket and close
--   Tunnel/Stream   two sessions over a network that may drop, delay, reorder and repeat datagrams, as
--                   a step relation on the two ends
--   Tunnel/Conn     common/udptunnel/conn.go: the deadlines of a connection
--   Tunnel/Dial     common/udptunnel/dial.go: the dialer's reader and its handshake loop, whose rounds
--                   come in any order, Close and the probe
--   Tunnel/Listener common/udptunnel/listener.go: the table of sessions, its timers and its lock
--   Buf             common/buf/buffer.go: the buffer; Buf/Queue reads it as a bounded queue,
--                   Buf/Pool is the size classes of common/buf/alloc.go
--   Cached          common/bufio/cached.go: the connection that keeps what was read, on Buf and Wire
--   Mc              common/mcprotocol: VarInt, strings and the length of a packet on the buffer
--   Sniff           protocol/minecraft/sniff.go: SniffClientHandshake on Cached and Mc
--   ProxyProtocol   common/proxyprotocol: the header of version 2, written and read; Text is that of version
--                   1, the choice of the version and HandleConnection
--   Selector        common/transportselect/selector.go
--   Outbound        protocol/outbound.go: PostInitialize, Reload and dialling; Resolved has the settings
--                   of config/outbound.go and common/network/transport.go, Chain joins an outbound to
--                   the service of the next hop
--   Socks           common/network/socks: the handshakes of SOCKS 4, 4a and 5; Granted4 and Granted5 meet
--                   them with servers
--   Instance        zbproxy.go: Start and UpdateConfig; Outbounds and Services are their loops, Routing
--                   is Initialize and UpdateConfig of route/router.go, Kept what an update does to the maps
--   Root            config/root.go: loading, watching and reloading the configuration
--   Inject          protocol/minecraft/outbound.go: InjectConnection and connectServer; Fates has its
--                   settings and what becomes of a connection, Building the packets; Forward joins it
--                   to Sniff, Legacy to the legacy branch of handleInbound, Online is the online count
--   Route           route, adapter/metadata.go, config/router.go, common/set: the rules and the router; Fired
--                   is about the rules that fire
--   Tests           the code at concrete inputs
--
-- How the code is modelled. A method is a function of the state that returns the new state with what it
-- sends; a critical section under a mutex is one step, and a call that waits is an outcome. Byte slices
-- and strings are lists of bytes, machine integers are natural numbers with their wrap-around written
-- out, a Go map is an association list, times are natural numbers of nanoseconds. An error is a value and
-- so is a panic. What the network answers is an argument.
--
-- Fuel: the delivery loop of storeDataLocked runs at most MaxInFlight rounds, since each round moves the
-- window by one place; the loop of ReadVarIntFrom runs at most 7 rounds, since its guard ends it when
-- the count passes 5; PeekUntil runs at most 4097 rounds, since each but the last reads at least a byte
-- into the 4096 bytes of the cache.
--
-- Not modelled: the arrays of the buffer pool, the constructors of the rules (which decode JSON), the
-- domain matcher's trie, which a rule holds as a predicate, the texts of MOTD and kick messages, the
-- copying of streams, and all that only calls the operating system.
-- Sequence numbers are compared as the code does, without wrap-around, so the results on streams ask for
-- fewer than 2 ^ 32 chunks.
pub mod Base
pub mod Wire
pub mod Access
pub mod Auth
pub mod Service
pub mod Tunnel
pub mod Buf
pub mod Cached
pub mod Selector
pub mod Mc
pub mod Route
pub mod Sniff
pub mod Outbound
pub mod Inject
pub mod Root
pub mod Tests
pub mod ProxyProtocol
pub mod Socks
pub mod Instance
