-- ===== src/Middleware.antt =====
-- internal/middleware: the handlers around the proxy.
pub mod RateLimit
pub mod Logger
pub mod RequestId
pub mod Headers
pub mod Gzip
