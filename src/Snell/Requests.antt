-- ===== src/Snell/Requests.antt =====
-- What the server of `src/snell_handler.rs` does with each kind of request.
use shoes_on_shuttle.Address.{address_from, Address}
use shoes_on_shuttle.Stream.{success, ok, Stream}
use shoes_on_shuttle.Snell.{
  tcp_tunnel_response, tcp_forward, is_utf8, udp_ready_response, multidirectional_udp_forward,
  TcpServerSetupResult, skip_client_id, setup_server_stream,
}
use shoes_on_shuttle.Socks.Location.{byte_at}
use shoes_on_shuttle.Common.{
  none, some, inl, inr, split_exact-cases, drop, refl, true, split_exact-append, arith, ◌⊎◌, ◌≡◌, ℕ,
  length, Bytes, [], ◌∷◌, ◌++◌,
}
use shoes_on_shuttle.OptionUtil.{NoneOrOne}
use shoes_on_shuttle.Net.Types.{high_byte, low_byte, IsU16}
use shoes_on_shuttle.Socks.Location.RoundTrip.{be_bytes}

skip_client_id-sent :
    (id rest : Bytes) (s : Stream)
    → skip_client_id (length id) (record s { incoming = id ++ rest })
      ≡ ok tt (record s { incoming = rest })
skip_client_id-sent [] rest s = refl
skip_client_id-sent (b ∷ id) rest s = ground (arith, split_exact-append (b ∷ id) rest)

-- On a connect command of either version, with any client id, a hostname in UTF-8 that reads as an
-- address and a port in range, the server forwards to that location. It consumes exactly the request,
-- writes nothing, and leaves the tunnel response to the setup result.
pub setup_server_stream-connect :
    (command : ℕ) (id name rest : Bytes) (port : ℕ) (a : Address) (s : Stream)
    → (command ≡ 1) ⊎ (command ≡ 5)
    → is_utf8 name ≡ true
    → address_from name ≡ success a
    → IsU16 port
    → let tail = name ++ (high_byte port ∷ low_byte port ∷ rest) in
      setup_server_stream
        (record s { incoming = 1 ∷ command ∷ length id ∷ (id ++ (length name ∷ tail)) })
      ≡ ok
          (tcp_forward
            (record { address = a; port = port })
            true
            (some tcp_tunnel_response)
            none
            NoneOrOne.unspecified)
          (record s { incoming = rest })
unfolding setup_server_stream
setup_server_stream-connect command id name rest port a s hc hu ha hp =
    let port_bytes : Bytes = high_byte port ∷ low_byte port ∷ rest in
    ground (
      arith,
      skip_client_id-sent id (length name ∷ (name ++ port_bytes)) s,
      split_exact-append name port_bytes,
      be_bytes port hp,
    )

-- On the UDP command, with any client id, the server answers that it is ready and hands the stream
-- over for messages to many targets.
pub setup_server_stream-udp :
    (id rest : Bytes) (s : Stream)
    → setup_server_stream (record s { incoming = 1 ∷ 6 ∷ length id ∷ (id ++ rest) })
      ≡ ok
          (multidirectional_udp_forward true)
          (record s { incoming = rest; written = s.written ++ udp_ready_response })
unfolding setup_server_stream
setup_server_stream-udp id rest s = ground (arith, skip_client_id-sent id rest s)

header_parts :
    (header : Bytes)
    → length header ≡ 3
    → header ≡ byte_at header 0 ∷ byte_at header 1 ∷ drop 2 header
header_parts [] h = absurd (omega arith)
header_parts (x ∷ []) h = absurd (omega arith)
header_parts (x ∷ y ∷ rest) h = refl

-- Whenever the server returns with success, the request had the version 1 and one of the commands 1,
-- 5 and 6.
pub setup_server_stream-commands :
    (s s' : Stream) (r : TcpServerSetupResult)
    → setup_server_stream s ≡ ok r s'
    → (command : ℕ) × (rest : Bytes) × (s.incoming ≡ 1 ∷ command ∷ rest)
      × ((command ≡ 1) ⊎ ((command ≡ 5) ⊎ (command ≡ 6)))
unfolding setup_server_stream
setup_server_stream-commands s s' r e = elim (split_exact-cases 3 s.incoming) [
  | inl no_more ↦ ground arith
  | inr (header, rest, found, parts, size) ↦ (
    byte_at header 1,
    drop 2 header ++ rest,
    ground (arith, header_parts header size),
    ground arith,
  )
]
