-- ===== src/Tests.antt =====
-- Each property at a concrete input.
mod Storage
mod Routing
mod Upstreams
mod Serving
mod Requests
mod Handling
mod Ordering
