-- ===== src/Net.antt =====
-- control/src/net, less the DNS module, which stands by itself.
pub mod Janitor
pub mod UdpTracker
