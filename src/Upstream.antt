-- ===== src/Upstream.antt =====
-- internal/upstream: the client of an upstream CA, and the pool of clients.
pub mod Types
pub mod NonceRing
pub mod SignedPost
pub mod Account
pub mod Links
pub mod Orders
pub mod Pool
