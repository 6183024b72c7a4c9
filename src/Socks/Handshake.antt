-- ===== src/Socks/Handshake.antt =====
-- The two handlers of `src/socks_handler.rs` facing one another.
use shoes_on_shuttle.Common.{
  ◌%◌, ◌<◌, ◌≡◌, refl, arith, Bytes, [], ◌∷◌, ◌++◌, append_assoc, length, true, Option, none, some,
  split_exact_front, bytes_eq_refl,
}
use shoes_on_shuttle.Net.Utf8.{is_utf8}
use shoes_on_shuttle.Address.{NetLocation}
use shoes_on_shuttle.Stream.{Stream, ok}
use shoes_on_shuttle.OptionUtil.{NoneOrOne}
use shoes_on_shuttle.TcpHandler.{tcp_forward}
use shoes_on_shuttle.Socks.Constants.{ver_socks5, ver_auth, result_success, cmd_connect}
use shoes_on_shuttle.Socks.Location.{write_location_to_vec}
use shoes_on_shuttle.Socks.Location.RoundTrip.{
  write_location-eq-vec, IsWire, read_location-write_location_to_vec,
}
use shoes_on_shuttle.Socks.Server.{
  localhost, supported_method, choose_method, authenticate, read_request, setup_server_stream,
  success_response,
}
use shoes_on_shuttle.Socks.Client.{
  read_replies, setup_client_stream, auth_request, offered_method, new,
}

abbrev IsField : Bytes → Type 0
IsField text = (0 < length text) × (length text < 256) × (is_utf8 text ≡ true)

-- Credentials that fit the protocol: each is 1 to 255 bytes of UTF-8.
abbrev pub IsCredentials : Option (Bytes × Bytes) → Type 0
IsCredentials none = Unit
IsCredentials (some (username, password)) = IsField username × IsField password

-- What the server writes before it reads the request.
abbrev pub server_replies : Option (Bytes × Bytes) → Bytes
server_replies none = ver_socks5 ∷ supported_method none ∷ []
server_replies (some c) = ver_socks5 ∷ supported_method (some c) ∷ ver_auth ∷ result_success ∷ []

abbrev request_head : Bytes
request_head = ver_socks5 ∷ cmd_connect ∷ 0x0 ∷ []

module _ (s : Stream) (rest : Bytes) where
  authenticate-auth_request :
      (username password : Bytes)
      → IsField username
      → IsField password
      → let c : Option (Bytes × Bytes) = some (username, password) in
        authenticate c (record s { incoming = auth_request c ++ rest })
        ≡ ok tt
            (record s { incoming = rest; written = s.written ++ (ver_auth ∷ result_success ∷ []) })
  unfolding authenticate
  authenticate-auth_request u p (u0, u1, u2) (p0, p1, p2) =
      let tail : Bytes = (length p % 256) ∷ p in
      ground (
        arith,
        append_assoc u tail rest,
        split_exact_front (length u % 256) u (tail ++ rest) (omega arith),
        split_exact_front (length p % 256) p rest (omega arith),
        bytes_eq_refl u,
        bytes_eq_refl p,
      )

  choose_method-offered :
      (c : Option (Bytes × Bytes))
      → choose_method c (record s { incoming = ver_socks5 ∷ 1 ∷ offered_method c ∷ rest })
        ≡ ok tt (record s {
          incoming = rest;
          written = s.written ++ (ver_socks5 ∷ supported_method c ∷ []);
        })
  unfolding choose_method
  choose_method-offered none = refl
  choose_method-offered (some c) = refl

  read_request-head :
      read_request (record s { incoming = request_head ++ rest })
      ≡ ok tt (record s { incoming = rest })
  unfolding read_request
  read_request-head = refl

-- The server, given what the client of the same credentials sends for a location, forwards to that
-- location: it consumes exactly the request, and it has answered with its choice of method and, under
-- authentication, with the success of the authentication.
pub setup_server_stream-client :
    (c : Option (Bytes × Bytes)) (l : NetLocation) (s : Stream) (rest : Bytes)
    → IsCredentials c
    → IsWire l
    → setup_server_stream
        (record { auth_info = c })
        (record s { incoming = (new c).prefix_data ++ (write_location_to_vec l ++ rest) })
      ≡ ok
          (tcp_forward l true (some success_response) none NoneOrOne.unspecified)
          (record s { incoming = rest; written = s.written ++ server_replies c })
unfolding setup_server_stream new authenticate
setup_server_stream-client none l s rest hc hl =
    let request = write_location_to_vec l ++ rest in
    let s1 : Stream = record s { written = s.written ++ server_replies none } in
    ground (
      arith,
      choose_method-offered s (request_head ++ request) none,
      read_request-head s1 request,
      read_location-write_location_to_vec l s1 rest hl,
    )
setup_server_stream-client (some (u, p)) l s rest (hu, hp) hl =
    let c : Option (Bytes × Bytes) = some (u, p) in
    let request = write_location_to_vec l ++ rest in
    let s1 : Stream = record s { written = s.written ++ (ver_socks5 ∷ supported_method c ∷ []) } in
    let s2 : Stream = record s { written = s.written ++ server_replies c } in
    ground (
      arith,
      append_assoc (auth_request c) request_head request,
      append_assoc s.written (ver_socks5 ∷ supported_method c ∷ [])
          (ver_auth ∷ result_success ∷ []),
      choose_method-offered s (auth_request c ++ (request_head ++ request)) c,
      authenticate-auth_request s1 (request_head ++ request) u p hu hp,
      read_request-head s2 request,
      read_location-write_location_to_vec l s2 rest hl,
    )

localhost-IsWire : IsWire localhost
localhost-IsWire = omega arith

read_replies-server :
    (c : Option (Bytes × Bytes)) (s : Stream) (rest : Bytes)
    → read_replies (new c) (record s { incoming = server_replies c ++ (success_response ++ rest) })
      ≡ ok tt (record s { incoming = rest })
unfolding read_replies new
read_replies-server none s rest =
    ground (arith, read_location-write_location_to_vec localhost s rest localhost-IsWire)
read_replies-server (some c) s rest =
    ground (arith, read_location-write_location_to_vec localhost s rest localhost-IsWire)

-- The client, given what such a server writes, reports success: it has sent and flushed its request,
-- and it leaves in the stream what the server relays behind its answers.
pub setup_client_stream-server :
    (c : Option (Bytes × Bytes)) (l : NetLocation) (s : Stream) (rest : Bytes)
    → setup_client_stream
        (new c)
        l
        (record s { incoming = server_replies c ++ (success_response ++ rest) })
      ≡ ok tt (record s {
        incoming = rest;
        written = s.written ++ ((new c).prefix_data ++ write_location_to_vec l);
        flushed = length (s.written ++ ((new c).prefix_data ++ write_location_to_vec l));
      })
unfolding setup_client_stream new
setup_client_stream-server c l s rest =
    let sent = s.written ++ (new c).prefix_data in
    let answers = server_replies c ++ (success_response ++ rest) in
    let all = sent ++ write_location_to_vec l in
    ground (
      arith,
      write_location-eq-vec l (record s { incoming = answers; written = sent }),
      append_assoc s.written (new c).prefix_data (write_location_to_vec l),
      read_replies-server c (record s { written = all; flushed = length all }) rest,
    )
