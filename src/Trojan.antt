-- ===== src/Trojan.antt =====
-- `src/trojan_handler.rs`. Under `shadowsocks_data` the stream is the decrypted one, which the
-- `ShadowsocksStream` around it gives; the handshake is the same.
pub mod Handshake
use shoes_on_shuttle.Common.{
  ℕ, Bytes, [], ◌∷◌, ◌++◌, Bool, true, false, not, ◌==◌, ◌||◌, ◌&&◌, Option, none, some, length,
  if◌then◌else◌,
}
use shoes_on_shuttle.Hex.{hex_of, zip_eq}
use shoes_on_shuttle.Address.{NetLocation}
use shoes_on_shuttle.Stream.{
  Io, Outcome, pure, ensure, expect, read_exact, write_all, flush, ◌>>=◌, ◌>>◌, invalid_input,
  other,
}
use shoes_on_shuttle.OptionUtil.{NoneOrOne}
use shoes_on_shuttle.TcpHandler.{TcpServerSetupResult, tcp_forward}
use shoes_on_shuttle.Socks.Constants.{cmd_connect, cmd_udp_associate}
use shoes_on_shuttle.Socks.Location.{byte_at, read_location, write_location}

abbrev pub crlf_bytes : Bytes
crlf_bytes = 0x0d ∷ 0x0a ∷ []

pub record TrojanTcpHandler : Type 0 where
  pub password_hash : Bytes

-- `create_password_hash`, with the SHA-224 of the `sha2` crate; none is its panic.
unfoldable pub create_password_hash : (Bytes → Bytes) → Bytes → Option Bytes
create_password_hash sha224 password =
    let hex_bytes = hex_of (sha224 password) in
    if length hex_bytes == 56 then some hex_bytes else none

unfoldable pub new : (Bytes → Bytes) → Bytes → Option TrojanTcpHandler
unfolding create_password_hash
new sha224 password = elim (create_password_hash sha224 password) [
  | some h ↦ some (record { password_hash = h })
  | none ↦ none
]

unfoldable pub check_command : Io (Unit {0})
check_command = do
  prefix ← read_exact 3
  ensure (byte_at prefix 0 == 0x0d && byte_at prefix 1 == 0x0a) other "Invalid request bytes (1)"
  ensure (not (byte_at prefix 2 == cmd_udp_associate)) invalid_input
      "UDP associate command is not supported"
  ensure (byte_at prefix 2 == cmd_connect) invalid_input "Invalid command code"

unfoldable pub check_suffix : Io (Unit {0})
check_suffix = do
  suffix ← read_exact 2
  ensure (byte_at suffix 0 == 0x0d && byte_at suffix 1 == 0x0a) other "Invalid request bytes (2)"

unfoldable pub check_password : TrojanTcpHandler → Io (Unit {0})
check_password handler = do
  received_hash ← read_exact 56
  ensure (zip_eq handler.password_hash received_hash) other "Invalid password hash"

-- `TcpServerHandler::setup_server_stream`.
unfoldable pub setup_server_stream : TrojanTcpHandler → Io TcpServerSetupResult
setup_server_stream handler = do
  check_password handler
  check_command
  remote_location ← read_location
  check_suffix
  pure (tcp_forward remote_location false none none NoneOrOne.unspecified)

-- `TcpClientHandler::setup_client_stream`.
unfoldable pub setup_client_stream : TrojanTcpHandler → NetLocation → Io (Unit {0})
setup_client_stream handler remote_location = do
  write_all handler.password_hash
  write_all crlf_bytes
  write_all (cmd_connect ∷ [])
  write_location remote_location
  write_all crlf_bytes
  flush
