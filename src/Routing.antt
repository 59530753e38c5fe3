-- ===== src/Routing.antt =====
-- internal/routing: the tables that name a pool for a request.
pub mod Trie
pub mod Host
pub mod HeaderRules
pub mod Canary
pub mod Shadow
