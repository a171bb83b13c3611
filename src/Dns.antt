-- ===== src/Dns.antt =====
-- src/helpers/resolver.c: the DNS resolver of freshclam. A name is the list of its characters, a packet
-- the list of its bytes.
pub mod Compress
pub mod Labels
pub mod Expand
pub mod Safety
pub mod Names
pub mod RoundTrip
pub mod Query
mod Tests
