-- ===== src/WebSocket.antt =====
-- `src/websocket/`.
pub mod Types
pub mod Frame
pub mod Content
pub mod Decode
pub mod Encode
pub mod Write
pub mod Read
pub mod Outbox
pub mod Accept
pub mod Accepting
pub mod Handshake
pub mod Head
pub mod Entries
pub mod Target
pub mod Answer
pub mod Chosen
pub mod Flush
pub mod Deliver
pub mod Arrive
pub mod Pings
pub mod Ahead
pub mod Fuel
pub mod Masking
pub mod Taken
pub mod Heads
pub mod Decoded
pub mod Roundtrip
