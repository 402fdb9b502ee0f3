-- ===== src/Dns.antt =====
-- control/src/net/dns.rs: the DNS forwarder.
pub mod Read
pub mod Wire
pub mod Ttl
pub mod Response
pub mod Cache
pub mod Forwarder
pub mod DomainRoutes
