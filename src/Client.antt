-- ===== src/Client.antt =====
-- internal/client: the measurements and the judgments of the client.
pub mod Types
pub mod Nat
pub mod Session
pub mod Pmtu
pub mod Attribution
pub mod Dns
pub mod Reputation
pub mod ResolvConf
pub mod Result
pub mod Routes
pub mod Probed
pub mod Local
pub mod World
pub mod Measure
pub mod Run
