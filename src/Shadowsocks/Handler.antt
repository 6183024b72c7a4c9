-- ===== src/Shadowsocks/Handler.antt =====
-- `src/shadowsocks/shadowsocks_tcp_handler.rs`, on the decrypted stream that the `ShadowsocksStream`
-- around it gives. The length and the bytes of the padding, which are random, are arguments.
use shoes_on_shuttle.Common.{Bool, true, false, Bytes, ◌++◌, not, none, ltb, if◌then◌else◌, length}
use shoes_on_shuttle.Net.Types.{from_be_bytes, to_be_bytes}
use shoes_on_shuttle.Address.{NetLocation}
use shoes_on_shuttle.Stream.{
  Io, ◌>>=◌, ◌>>◌, ensure, pure, read_exact, write_all, flush, invalid_data,
}
use shoes_on_shuttle.Socks.Location.{read_location, write_location_to_vec, byte_at}
use shoes_on_shuttle.OptionUtil.{NoneOrOne}
use shoes_on_shuttle.TcpHandler.{TcpServerSetupResult, tcp_forward}

-- The padding of the 2022 edition.
unfoldable pub skip_padding : Io (Unit {0})
skip_padding = do
  padding_len_bytes ← read_exact 2
  let padding_len = from_be_bytes (byte_at padding_len_bytes 0) (byte_at padding_len_bytes 1)
  ensure (not (ltb 900 padding_len)) invalid_data "invalid padding length"
  if ltb 0 padding_len then read_exact padding_len >>= (λ _. pure tt) else pure tt

-- `TcpServerHandler::setup_server_stream`.
unfoldable pub setup_server_stream : Bool → Io TcpServerSetupResult
unfolding skip_padding
setup_server_stream aead2022 = do
  remote_location ← read_location
  if aead2022 then skip_padding else pure tt
  pure (tcp_forward remote_location false none none NoneOrOne.unspecified)

-- `location_vec`.
abbrev pub location_vec : Bool → NetLocation → Bytes → Bytes
location_vec true remote_location padding =
    write_location_to_vec remote_location ++ (to_be_bytes (length padding) ++ padding)
location_vec false remote_location padding = write_location_to_vec remote_location

-- `TcpClientHandler::setup_client_stream`.
unfoldable pub setup_client_stream : Bool → NetLocation → Bytes → Io (Unit {0})
unfolding write_location_to_vec
setup_client_stream aead2022 remote_location padding = do
  write_all (location_vec aead2022 remote_location padding)
  flush
