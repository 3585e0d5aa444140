-- ===== src/Tunnel.antt =====
-- common/udptunnel: a reliable byte stream over UDP datagrams.
pub mod Limits
pub mod Frame
pub mod Session
pub mod Stream
pub mod Listener
pub mod Conn
pub mod Dial
