-- ===== src/Store.antt =====
-- internal/store: the state database and its operations, in the modules below.
pub mod Db
pub mod Nonces
pub mod Orders
pub mod Accounts
pub mod Resources
pub mod Integrity
