-- ===== src/Http.antt =====
-- `src/http_handler.rs`.
pub mod Server
pub mod Auth
pub mod Tokens
pub mod Keeps
pub mod Safety
pub mod Short
pub mod Boundary
pub mod Ends
