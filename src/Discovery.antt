-- ===== src/Discovery.antt =====
-- src/discovery/mdns_advertiser.{hpp,cpp}: the advertisement of the daemon on the local network.
pub mod Advertiser
pub mod Loop
pub mod Secrecy
pub mod Stop
mod Tests
