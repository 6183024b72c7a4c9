-- ===== src/Shadowsocks/Handshake.antt =====
-- The handlers of `src/shadowsocks/shadowsocks_tcp_handler.rs`, client and server.
use shoes_on_shuttle.Common.{
  split_exact_front, append_assoc, Bool, true, false, none, Bytes, [], ◌∷◌, ◌++◌, refl, arith,
  length, ◌≡◌, ◌≤◌,
}
use shoes_on_shuttle.Address.{NetLocation}
use shoes_on_shuttle.Net.Types.{low_byte, high_byte, from_be_bytes, to_be_bytes}
use shoes_on_shuttle.Socks.Location.{write_location_to_vec}
use shoes_on_shuttle.Socks.Location.RoundTrip.{IsWire, read_location-write_location_to_vec}
use shoes_on_shuttle.Stream.{Stream, ok}
use shoes_on_shuttle.OptionUtil.{NoneOrOne}
use shoes_on_shuttle.TcpHandler.{tcp_forward}
use shoes_on_shuttle.Shadowsocks.Handler.{
  skip_padding, setup_server_stream, setup_client_stream, location_vec,
}

-- The client writes its location, with the padding of the 2022 edition, in one piece, and flushes it.
setup_client_stream-location_vec :
    (aead2022 : Bool) (l : NetLocation) (padding : Bytes) (s : Stream)
    → setup_client_stream aead2022 l padding s
      ≡ ok tt (record s {
        written = s.written ++ location_vec aead2022 l padding;
        flushed = length (s.written ++ location_vec aead2022 l padding);
      })
unfolding setup_client_stream
setup_client_stream-location_vec aead2022 l padding s = refl

skip_padding-sent :
    (padding rest : Bytes) (s : Stream)
    → length padding ≤ 900
    → skip_padding (record s { incoming = to_be_bytes (length padding) ++ (padding ++ rest) })
      ≡ ok tt (record s { incoming = rest })
unfolding skip_padding
skip_padding-sent [] rest s small = refl
skip_padding-sent (x ∷ padding) rest s small =
    let n = length (x ∷ padding) in
    let number : from_be_bytes (high_byte n) (low_byte n) ≡ n = omega (arith, small) in
    ground (
      arith,
      number,
      split_exact_front (from_be_bytes (high_byte n) (low_byte n)) (x ∷ padding) rest number,
    )

-- The server forwards to the location that a client of the same edition asks for, and consumes exactly
-- what the client writes for it, its padding included. Conditions: the location is in range, and the
-- padding has at most 900 bytes.
pub setup_server_stream-location_vec :
    (aead2022 : Bool) (l : NetLocation) (padding rest : Bytes) (s : Stream)
    → IsWire l
    → length padding ≤ 900
    → setup_server_stream aead2022 (record s { incoming = location_vec aead2022 l padding ++ rest })
      ≡ ok (tcp_forward l false none none NoneOrOne.unspecified) (record s { incoming = rest })
unfolding setup_server_stream
setup_server_stream-location_vec true l padding rest s wire small =
    let location = write_location_to_vec l in
    let sent = to_be_bytes (length padding) ++ (padding ++ rest) in
    ground (
      arith,
      append_assoc location (to_be_bytes (length padding) ++ padding) rest,
      read_location-write_location_to_vec l s sent wire,
      skip_padding-sent padding rest s small,
    )
setup_server_stream-location_vec false l padding rest s wire small =
    ground (arith, read_location-write_location_to_vec l s rest wire)
