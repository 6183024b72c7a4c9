-- ===== src/Address.antt =====
-- `src/address.rs`: addresses, locations and masks, and how they are read from text.
mod Types
mod Text
mod Masks
unfoldable pub use Types.*
unfoldable pub use Text.*
unfoldable pub use Masks.*
