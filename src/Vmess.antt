-- ===== src/Vmess.antt =====
-- `src/vmess/`.
pub mod Nonce
