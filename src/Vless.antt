-- ===== src/Vless.antt =====
-- `src/vless_handler.rs`.
pub mod Addons
pub mod Server
pub mod Client
pub mod Handshake
pub mod Safety
