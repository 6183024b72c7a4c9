-- ===== src/Socks/Server.antt =====
-- `SocksTcpServerHandler` of `src/socks_handler.rs`.
use shoes_on_shuttle.Common.{
  ℕ, Bytes, [], ◌∷◌, ◌==◌, ltb, Bool, true, false, not, ◌&&◌, ◌||◌, Option, none, some, bytes_eq,
}
use shoes_on_shuttle.Net.Utf8.{is_utf8}
use shoes_on_shuttle.Address.{ipv4, NetLocation}
use shoes_on_shuttle.Stream.{
  Io, pure, ensure, read_exact, write_all, ◌>>=◌, ◌>>◌, invalid_data, invalid_input,
}
use shoes_on_shuttle.OptionUtil.{NoneOrOne}
use shoes_on_shuttle.TcpHandler.{TcpServerSetupResult, tcp_forward}
use shoes_on_shuttle.Socks.Constants.{
  ver_socks5, ver_auth, method_none, method_username, result_success, cmd_connect,
  cmd_udp_associate,
}
use shoes_on_shuttle.Socks.Location.{byte_at, read_location, write_location_to_vec}

pub record SocksTcpServerHandler : Type 0 where
  pub auth_info : Option (Bytes × Bytes)

abbrev pub contains : ℕ → Bytes → Bool
contains x [] = false
contains x (y ∷ ys) = y == x || contains x ys

abbrev pub supported_method : Option (Bytes × Bytes) → ℕ
supported_method (some credentials) = method_username
supported_method none = method_none

-- The greeting: the version, and a choice of methods that has the supported one.
unfoldable pub choose_method : Option (Bytes × Bytes) → Io (Unit {0})
choose_method auth_info = do
  head ← read_exact 2
  ensure (byte_at head 0 == ver_socks5) invalid_input "Unsupported SOCKS version"
  let method_len = byte_at head 1
  ensure (not (ltb method_len 1)) invalid_input "Invalid method length"
  methods ← read_exact method_len
  let supported = supported_method auth_info
  ensure (contains supported methods) invalid_input "Supported SOCKS method not found"
  write_all (byte_at head 0 ∷ supported ∷ [])

-- `if let Some((target_username, target_password)) = self.auth_info`.
unfoldable pub authenticate : Option (Bytes × Bytes) → Io (Unit {0})
authenticate none = pure tt
authenticate (some (target_username, target_password)) = do
  head ← read_exact 2
  ensure (byte_at head 0 == ver_auth) invalid_input "Unsupported SOCKS auth version"
  let username_len = byte_at head 1
  ensure (not (username_len == 0)) invalid_input "Unsupported SOCKS username length"
  username ← read_exact username_len
  size ← read_exact 1
  let password_len = byte_at size 0
  ensure (not (password_len == 0)) invalid_input "Unsupported SOCKS password length"
  password ← read_exact password_len
  ensure (is_utf8 username) invalid_data "Failed to decode username"
  ensure (is_utf8 password) invalid_data "Failed to decode password"
  ensure (bytes_eq target_username username && bytes_eq target_password password) invalid_input
      "Incorrect username or password provided"
  write_all (ver_auth ∷ result_success ∷ [])

unfoldable pub read_request : Io (Unit {0})
read_request = do
  request ← read_exact 3
  ensure (byte_at request 0 == ver_socks5) invalid_input "Invalid SOCKS version"
  ensure (not (byte_at request 1 == cmd_udp_associate)) invalid_input
      "UDP associate command is not supported"
  ensure (byte_at request 1 == cmd_connect) invalid_input "Invalid command code"
  ensure (byte_at request 2 == 0x0) invalid_input "Invalid reserved bit"

abbrev pub localhost : NetLocation
localhost = record { address = ipv4 (record { a = 127; b = 0; c = 0; d = 1 }); port = 65535 }

abbrev pub success_response : Bytes
success_response = ver_socks5 ∷ result_success ∷ 0 ∷ write_location_to_vec localhost

-- `setup_server_stream`.
unfoldable pub setup_server_stream : SocksTcpServerHandler → Io TcpServerSetupResult
setup_server_stream handler = do
  choose_method handler.auth_info
  authenticate handler.auth_info
  read_request
  location ← read_location
  pure (tcp_forward location true (some success_response) none NoneOrOne.unspecified)
