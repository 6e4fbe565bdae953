-- ===== src/Security.antt =====
-- src/security/: which connections and which publications are let in.
pub mod Trie
pub mod Prefix
pub mod IpFilter
pub mod Rules
pub mod Limiter
pub mod Guard
pub mod Balance
pub mod Burst
pub mod Examples
