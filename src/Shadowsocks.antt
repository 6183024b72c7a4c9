-- ===== src/Shadowsocks.antt =====
-- `src/shadowsocks`: the stream of encrypted packets, its keys, and the handlers.
pub mod Sequence
pub mod Types
pub mod Decrypt
pub mod Header
pub mod Read
pub mod Encrypt
pub mod Write
pub mod Keys
pub mod Handler
pub mod Fits
pub mod Payload
pub mod Length
pub mod Steps
pub mod Drains
pub mod Reads
pub mod Rounds
pub mod Heads
pub mod Headers
pub mod Contract
pub mod Packets
pub mod Roundtrip
pub mod Batch
pub mod Delivery
pub mod Outgoing
pub mod Sending
pub mod Fresh
pub mod Accepted
pub mod Handshake
pub mod Digests
pub mod Starts
