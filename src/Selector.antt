-- ===== src/Selector.antt =====
-- `src/client_proxy_selector.rs`: which rule decides on a connection, and through which proxy it goes.
-- A rule's `AtomicU32` is a number, and what takes it by `fetch_add` returns the new one.
pub mod Decision
pub mod Mask
pub mod Rules
pub mod Domain
pub mod Netmask
pub mod FirstMatch
pub mod Default
pub mod Judge
pub mod Rotation
