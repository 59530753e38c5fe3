-- ===== src/Tls.antt =====
-- internal/tls
pub mod Sni
pub mod Peek
pub mod Termination
pub mod Watcher
pub mod Mtls
