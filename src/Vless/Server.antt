-- ===== src/Vless/Server.antt =====
-- `VlessTcpHandler` and its `TcpServerHandler::setup_server_stream`, of `src/vless_handler.rs`.
use shoes_on_shuttle.Common.{
  ℕ, Bytes, [], ◌∷◌, ◌==◌, ltb, none, some, true, if◌then◌else◌, take, drop,
}
use shoes_on_shuttle.Hex.{zip_eq}
use shoes_on_shuttle.Net.Types.{Ipv4Addr, from_be_bytes, segments_of}
use shoes_on_shuttle.Net.Utf8.{is_utf8}
use shoes_on_shuttle.Address.{Address, ipv4, ipv6, NetLocation, address_from}
use shoes_on_shuttle.Stream.{
  Io, pure, fail, ensure, lift, read_exact, ◌>>=◌, ◌>>◌, invalid_data, other,
}
use shoes_on_shuttle.OptionUtil.{NoneOrOne}
use shoes_on_shuttle.TcpHandler.{TcpServerSetupResult, tcp_forward}
use shoes_on_shuttle.Socks.Location.{byte_at}
use shoes_on_shuttle.Vless.Addons.{read_addons}

pub record VlessTcpHandler : Type 0 where
  pub user_id : Bytes

abbrev pub server_response_header : Bytes
server_response_header = 0 ∷ 0 ∷ []

-- `if addon_length > 0 { read_addons(…) }`.
abbrev pub skip_addons : ℕ → Io (Unit {0})
skip_addons addon_length = if ltb 0 addon_length then read_addons addon_length else pure tt

unfoldable pub check_user : VlessTcpHandler → Io (Unit {0})
check_user handler = do
  prefix ← read_exact 18
  ensure (byte_at prefix 0 == 0) other "invalid client protocol version"
  ensure (zip_eq handler.user_id (take 16 (drop 1 prefix))) other "Unknown user id"
  skip_addons (byte_at prefix 17)

abbrev check_protocol : ℕ → Io (Unit {0})
check_protocol protocol =
    if protocol == 1
    then pure tt
    else if protocol == 2
    then fail invalid_data "UDP was requested"
    else fail invalid_data "Unknown requested protocol"

-- The arms of `match address_prefix[3]`.
unfoldable read_ipv4_address : Io Address
read_ipv4_address = do
  bytes ← read_exact 4
  let addr : Ipv4Addr = record {
    a = byte_at bytes 0;
    b = byte_at bytes 1;
    c = byte_at bytes 2;
    d = byte_at bytes 3;
  }
  pure (ipv4 addr)

read_ipv6_address : Io Address
read_ipv6_address = do bytes ← read_exact 16; pure (ipv6 (segments_of (λ k. byte_at bytes k)))

read_domain_address : Io Address
read_domain_address = do
  size ← read_exact 1
  text ← read_exact (byte_at size 0)
  ensure (is_utf8 text) invalid_data "Failed to decode address"
  lift (address_from text)

abbrev read_address : ℕ → Io Address
read_address address_type =
    if address_type == 1
    then read_ipv4_address
    else if address_type == 2
    then read_domain_address
    else if address_type == 3
    then read_ipv6_address
    else fail invalid_data "Invalid address type"

unfoldable pub read_target : Io NetLocation
unfolding read_ipv4_address read_ipv6_address read_domain_address
read_target = do
  prefix ← read_exact 4
  check_protocol (byte_at prefix 0)
  let port = from_be_bytes (byte_at prefix 1) (byte_at prefix 2)
  address ← read_address (byte_at prefix 3)
  pure (record { address = address; port = port })

unfoldable pub setup_server_stream : VlessTcpHandler → Io TcpServerSetupResult
setup_server_stream handler = do
  check_user handler
  remote_location ← read_target
  pure (tcp_forward remote_location true (some server_response_header) none NoneOrOne.unspecified)
