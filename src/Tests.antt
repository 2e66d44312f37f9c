-- ===== src/Tests.antt =====
-- Each theorem about the code, applied at a concrete input.
mod World
mod Cached
mod Handlers
mod Accounts
mod Pure
mod Sockets
mod Requests
mod Checks
mod Routing
mod Services
