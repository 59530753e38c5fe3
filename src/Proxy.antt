-- ===== src/Proxy.antt =====
-- internal/proxy: the reverse proxy.
pub mod Director
pub mod Middleware
pub mod Dispatch
pub mod Tcp
pub mod Tunnel
pub mod Transport
