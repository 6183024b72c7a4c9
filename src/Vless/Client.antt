-- ===== src/Vless/Client.antt =====
-- `TcpClientHandler::setup_client_stream` of `VlessTcpHandler`, of `src/vless_handler.rs`.
use shoes_on_shuttle.Common.{
  ℕ, Bytes, [], ◌∷◌, ◌++◌, ◌==◌, ltb, not, Option, none, some, if◌then◌else◌, length, ◌%◌,
}
use shoes_on_shuttle.Net.Types.{high_byte, low_byte, octets, octets6}
use shoes_on_shuttle.Address.{Address, ipv4, ipv6, hostname, NetLocation}
use shoes_on_shuttle.Stream.{
  Io, ensure, expect, read_exact, write_all, flush, ◌>>=◌, ◌>>◌, invalid_data, other,
}
use shoes_on_shuttle.Socks.Location.{byte_at}
use shoes_on_shuttle.Vless.Server.{VlessTcpHandler, skip_addons}

-- `header_bytes[1..17].copy_from_slice(&self.user_id)` panics on another length.
abbrev pub id_field : Bytes → Option Bytes
id_field user_id = if length user_id == 16 then some user_id else none

-- The 22 bytes of the header, for a type of address.
abbrev pub header_bytes : Bytes → ℕ → ℕ → Bytes
header_bytes id port address_type =
    0 ∷ (id ++ (0 ∷ 1 ∷ high_byte port ∷ low_byte port ∷ address_type ∷ []))

-- `match remote_address`.
abbrev pub write_target : Bytes → ℕ → Address → Io (Unit {0})
write_target id port (ipv4 i) = do write_all (header_bytes id port 1); write_all (octets i)
write_target id port (ipv6 i) = do write_all (header_bytes id port 3); write_all (octets6 i)
write_target id port (hostname h) = do
  ensure (not (ltb 255 (length h))) invalid_data "Hostname is too long"
  write_all (header_bytes id port 2)
  write_all (length h % 256 ∷ [])
  write_all h

unfoldable pub read_response : Io (Unit {0})
read_response = do
  header ← read_exact 2
  ensure (byte_at header 0 == 0) other "invalid server protocol version"
  skip_addons (byte_at header 1)

unfoldable pub send_request : VlessTcpHandler → NetLocation → Io (Unit {0})
send_request handler remote_location = do
  id ← expect (id_field handler.user_id)
  write_target id remote_location.port remote_location.address
  flush

unfoldable pub setup_client_stream : VlessTcpHandler → NetLocation → Io (Unit {0})
setup_client_stream handler remote_location = do send_request handler remote_location; read_response
