-- ===== src/Lib.antt =====
-- A model of shoes-on-shuttle, a proxy server, with what makes its parts correct.
--
-- The program accepts a connection, lets the server handler of a protocol read from it where it wants
-- to go (tcp_handler.rs), asks the rules which proxy to use (client_proxy_selector.rs), lets the client
-- handler of that proxy ask it for the location, and copies bytes between the two streams. A handler is
-- a function on a stream: it reads, writes, flushes, and returns a result, an error, or panics.
--
-- Parts, and the code that they model:
-- - Common: names passed on from the libraries, Boolean tests and lists with native numbers, bits.
-- - Stream: the stream a handler works on, as src/async_stream.rs and tokio's `read_exact`,
--   `write_all` and `flush` give it: what the peer sends is given in advance as a list of bytes, and what
--   is written is kept. `Io` is a step on it with the outcomes ok, err and panic. That a task waits or is
--   cancelled is not modelled; a peer that sends no more has closed the stream.
-- - Net: the addresses of Rust's std::net with their parsers, and the test for UTF-8.
-- - Address: src/address.rs, with its types, `Address::from`, `NetLocation::from_str` and the masks.
-- - OptionUtil: src/option_util.rs. TcpHandler: the setup result of src/tcp_handler.rs.
-- - Selector: src/client_proxy_selector.rs with `resolve_single_address` of src/resolver.rs. The
--   resolver is a parameter that may answer each call otherwise. The counter of a rule, an atomic
--   `u32`, is state that `judge` returns changed.
-- - SaltChecker: src/timed_salt_checker.rs, on a clock of nanoseconds.
-- - Hex: the hexadecimal texts of src/trojan_handler.rs and src/vless_handler.rs.
-- - Socks: src/socks_handler.rs, with Location for its `read_location`, `write_location` and
--   `write_location_to_vec`. Trojan: src/trojan_handler.rs, with SHA-224 as a parameter.
--   Vless: src/vless_handler.rs. Snell: the server of src/snell_handler.rs.
-- - CopyBuffer: the circular buffer of src/copy_bidirectional.rs. The reads and writes of `poll_copy` are
--   steps on it; when they happen is left open, as are its flushes and pings.
-- - PortForward: src/port_forward_handler.rs. Vmess/Nonce: src/vmess/nonce.rs.
-- - Poll: a stream below a `poll_…` function, as a list of what it answers to the calls in their order.
-- - WebSocket: src/websocket/websocket_stream.rs. Types is the state; Frame packs; Content and Decode are
--   the steps that read; Read is `poll_read` (`poll_frames`); Encode and Write are the side that writes,
--   with `poll_write`, `poll_flush` (`flush_frame`) and `poll_write_ping`. The random masks are a
--   parameter. Handshake is the server of src/websocket/websocket_handler.rs, with the hashes, the
--   encoder, the functions of `str` on Unicode and the handlers of its targets as parameters; its loop
--   counts down from 40, where the source counts the lines up to 40. The other modules are about these.
-- - LineReader: src/line_reader.rs, with the sizes of the pieces that come as a parameter, and `memchr`.
--   Sequence describes the lines of a request that are read one after the other.
-- - Http: the server of src/http_handler.rs (Server), with BASE64 as a parameter. The other modules are
--   about it.
-- - Shadowsocks: src/shadowsocks. Sequence is the nonces; Types the state, with the ciphers of `ring` and
--   the session keys as a parameter; Decrypt, Header and Read are the side that reads, Encrypt and Write
--   the side that writes, Keys and Handler the keys and the handlers. The checker of salts, which the
--   streams of a handler share, is a field; what others insert between two calls changes it. The other
--   modules are about these.
-- Tests has concrete runs, and Examples the theorems at concrete inputs.
--
-- Numbers are native; a byte or a `u16` is a number whose range is a condition where it matters, and a
-- cast is written out as `% 256`, an atomic increment as `% 2 ^ 32`. The text of an error is its fixed part.
--
-- The loops are recursions on lists, but for these, which run on fuel. The steps that read frames call
-- each other in a cycle through `step_init`; `poll_read` gives them one more than the bytes that are
-- unprocessed, and each round takes two of them. The loop of `poll_write` has two more than the bytes
-- to write, and each round but two packs one. Reading a line has one more than the bytes to come, and
-- each round but the last takes one. The loop of `poll_read` has its fuel from the caller, and the
-- loops over the headers of an HTTP request have one more than the bytes to come, of which each line takes
-- one at least. For Shadowsocks, the loop over the packets in a piece has one more than the bytes that
-- are there, the loops that read have one or two more than the answers and the bytes to come of the
-- stream below, and the digests of a key one more than its length.
--
-- Not modelled: the sockets, TLS and QUIC, the configuration, the two directions of the copying, and the
-- handlers of VMess, the HTTP and WebSocket clients, the Snell client and its UDP packets. Of
-- src/websocket/websocket_stream.rs `poll_shutdown`, which calls the stream below.
pub mod Common
pub mod Stream
pub mod Net
pub mod Address
pub mod OptionUtil
pub mod TcpHandler
pub mod CopyBuffer
pub mod LineReader
pub mod Poll
pub mod Http
pub mod Socks
pub mod Selector
pub mod SaltChecker
pub mod Hex
pub mod Snell
pub mod Trojan
pub mod PortForward
pub mod Vless
pub mod Vmess
pub mod Shadowsocks
pub mod WebSocket
pub mod Tests
pub mod Examples
