-- ===== src/Probe.antt =====
-- internal/probe: the remote observation point.
pub mod Outcome
pub mod Hello
pub mod Fingerprint
pub mod Server
pub mod Udp
pub mod Tls
pub mod Handlers
pub mod Paths
pub mod Mux
pub mod Lifecycle
pub mod Command
pub mod System
pub mod Serve
pub mod Sockets
