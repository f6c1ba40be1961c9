-- ===== src/Proto.antt =====
-- internal/proto: the types that client and probe share, identifiers and the session registry.
pub mod SessionId
pub mod Types
pub mod Store
