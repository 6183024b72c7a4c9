-- ===== src/Socks/Client.antt =====
-- `SocksTcpClientHandler` of `src/socks_handler.rs`.
use shoes_on_shuttle.Common.{
  ℕ, ◌%◌, Bytes, [], ◌∷◌, ◌++◌, ◌==◌, Bool, true, false, not, Option, none, some, length,
}
use shoes_on_shuttle.Address.{NetLocation}
use shoes_on_shuttle.Stream.{
  Io, pure, ensure, read_exact, write_all, flush, ◌>>=◌, ◌>>◌, invalid_input,
}
use shoes_on_shuttle.Socks.Constants.{
  ver_socks5, ver_auth, method_none, method_username, method_invalid, result_success, cmd_connect,
}
use shoes_on_shuttle.Socks.Location.{byte_at, read_location, write_location}

pub record SocksTcpClientHandler : Type 0 where
  pub prefix_data : Bytes
  pub has_auth : Bool

abbrev pub auth_request : Option (Bytes × Bytes) → Bytes
auth_request none = []
auth_request (some (username, password)) =
    ver_auth ∷ (length username % 256) ∷ (username ++ ((length password % 256) ∷ password))

abbrev pub offered_method : Option (Bytes × Bytes) → ℕ
offered_method (some credentials) = method_username
offered_method none = method_none

abbrev is_some : Option (Bytes × Bytes) → Bool
is_some (some credentials) = true
is_some none = false

-- `SocksTcpClientHandler::new`.
unfoldable pub new : Option (Bytes × Bytes) → SocksTcpClientHandler
new auth_info = record {
  prefix_data =
      ver_socks5
      ∷ 1
      ∷ offered_method auth_info
      ∷ (auth_request auth_info ++ (ver_socks5 ∷ cmd_connect ∷ 0x0 ∷ []));
  has_auth = is_some auth_info;
}

unfoldable pub read_auth_reply : Bool → Io (Unit {0})
read_auth_reply false = pure tt
read_auth_reply true = do
  reply ← read_exact 2
  ensure (byte_at reply 1 == result_success) invalid_input "SOCKS server authentication failed"

-- What `setup_client_stream` sends, and what it then waits for.
unfoldable pub send_request : SocksTcpClientHandler → NetLocation → Io (Unit {0})
send_request handler remote_location = do
  write_all handler.prefix_data
  write_location remote_location
  flush

unfoldable pub read_replies : SocksTcpClientHandler → Io (Unit {0})
unfolding read_auth_reply
read_replies handler = do
  choice ← read_exact 2
  ensure (not (byte_at choice 1 == method_invalid)) invalid_input
      "SOCKS server rejected auth method"
  read_auth_reply handler.has_auth
  prefix ← read_exact 3
  ensure (byte_at prefix 1 == result_success) invalid_input "SOCKS server connect command failed"
  location ← read_location
  pure tt

-- `setup_client_stream`.
unfoldable pub setup_client_stream : SocksTcpClientHandler → NetLocation → Io (Unit {0})
unfolding send_request read_replies
setup_client_stream handler remote_location = do
  send_request handler remote_location
  read_replies handler
