-- ===== src/Server.antt =====
-- src/server.rs: the CONNECT-UDP proxy.
pub mod Request
pub mod Bind
pub mod Session
pub mod Routing
pub mod Loop
pub mod Target
