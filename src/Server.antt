-- ===== src/Server.antt =====
-- internal/server: the parts of the ACME server that do not write to the connection.
pub mod Errors
pub mod Challenges
pub mod Requests
pub mod World
pub mod Handlers
pub mod Routes
pub mod Dns
