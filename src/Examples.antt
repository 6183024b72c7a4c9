-- ===== src/Examples.antt =====
-- The theorems at concrete inputs, by component.
mod Socks
mod Selector
mod Salts
mod Handlers
mod Forwarding
mod Copying
mod Frames
mod Sending
mod Lines
mod Proxy
mod Upgrade
mod Sealed
