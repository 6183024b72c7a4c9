-- ===== src/Socks.antt =====
-- `src/socks_handler.rs`: SOCKS5, and the encoding of a location that Trojan shares.
pub mod Constants
pub mod Location
pub mod Server
pub mod Client
pub mod Handshake
pub mod Access
