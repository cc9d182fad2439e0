-- ===== src/Pool.antt =====
-- internal/pool/pool.go: the upstreams, their health, and the choice of who answers a query.
pub mod Types
pub mod Status
pub mod Demo
pub mod Members
pub mod Plan
pub mod Health
pub mod History
