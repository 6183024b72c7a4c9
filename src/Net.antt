-- ===== src/Net.antt =====
-- The addresses of `std::net` and text as the program uses them. `Types` has the addresses, `Parse`
-- reads them from text, `Utf8` tells which bytes are text.
pub mod Types
pub mod Parse
pub mod Utf8
