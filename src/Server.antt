-- ===== src/Server.antt =====
-- src/net/server.c and src/net/connector.c.
pub mod Reader
pub mod Worker
pub mod Life
pub mod Accept
