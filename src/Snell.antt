-- ===== src/Snell.antt =====
-- `src/snell_handler.rs`, on the decrypted stream that the `ShadowsocksStream` around it gives: the
-- server. The client writes the address as text and is left out, with the stream of UDP packets.
pub mod Requests
use shoes_on_shuttle.Net.Types.{from_be_bytes}
use shoes_on_shuttle.Address.{NetLocation, address_from}
use shoes_on_shuttle.Net.Utf8.{is_utf8}
use shoes_on_shuttle.TcpHandler.{tcp_forward, multidirectional_udp_forward, TcpServerSetupResult}
use shoes_on_shuttle.Stream.{
  lift, invalid_data, ensure, other, pure, read_exact, fail, write_all, Io, ◌>>=◌, ◌>>◌, ErrorKind,
}
use shoes_on_shuttle.Common.{
  none, some, true, false, ◌||◌, ltb, ◌==◌, Bool, if◌then◌else◌, Bytes, ℕ, [], ◌∷◌,
}
use shoes_on_shuttle.Socks.Location.{byte_at}
use shoes_on_shuttle.OptionUtil.{NoneOrOne}

abbrev pub tcp_tunnel_response : Bytes
tcp_tunnel_response = 0 ∷ []

abbrev pub udp_ready_response : Bytes
udp_ready_response = tcp_tunnel_response

-- The ping command is answered, and ends the connection.
abbrev answer_ping : Io Bool
answer_ping = do write_all (1 ∷ []); fail other "responded to ping"

-- `match header[1]`: whether UDP is asked for.
abbrev pub read_command : ℕ → Io Bool
read_command command =
    if command == 0
    then answer_ping
    else if command == 1 || command == 5
    then pure false
    else if command == 6
    then pure true
    else fail other "Got unknown command"

abbrev pub skip_client_id : ℕ → Io (Unit {0})
skip_client_id client_id_len =
    if ltb 0 client_id_len then read_exact client_id_len >>= (λ _. pure tt) else pure tt

-- The two branches on `is_udp`.
abbrev pub forward_tcp : Io TcpServerSetupResult
forward_tcp = do
  size ← read_exact 1
  text ← read_exact (byte_at size 0)
  ensure (is_utf8 text) invalid_data "Failed to decode hostname"
  port ← read_exact 2
  address ← lift (address_from text)
  let remote_location : NetLocation = record {
    address = address;
    port = from_be_bytes (byte_at port 0) (byte_at port 1);
  }
  pure (tcp_forward remote_location true (some tcp_tunnel_response) none NoneOrOne.unspecified)

abbrev pub forward_udp : Io TcpServerSetupResult
forward_udp = do write_all udp_ready_response; pure (multidirectional_udp_forward true)

-- `TcpServerHandler::setup_server_stream`.
unfoldable pub setup_server_stream : Io TcpServerSetupResult
setup_server_stream = do
  header ← read_exact 3
  ensure (byte_at header 0 == 1) other "unexpected snell version"
  is_udp ← read_command (byte_at header 1)
  skip_client_id (byte_at header 2)
  if is_udp then forward_udp else forward_tcp
