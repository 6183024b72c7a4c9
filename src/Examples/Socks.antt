-- ===== src/Examples/Socks.antt =====
-- The theorems on `src/socks_handler.rs` at concrete inputs.
use shoes_on_shuttle.Net.Utf8.{is_utf8}
use shoes_on_shuttle.Common.{
  Bytes, [], ◌∷◌, ◌++◌, ◌≡◌, refl, arith, none, some, true, Option, length,
}
use shoes_on_shuttle.Address.{hostname, NetLocation, address_from}
use shoes_on_shuttle.Stream.{Stream, ok, receiving}
use shoes_on_shuttle.OptionUtil.{NoneOrOne}
use shoes_on_shuttle.TcpHandler.{tcp_forward}
use shoes_on_shuttle.Common.Text.{bytes_of}
use shoes_on_shuttle.Socks.Constants.{ver_socks5, ver_auth, method_username}
use shoes_on_shuttle.Socks.Location.{read_location, write_location_to_vec}
use shoes_on_shuttle.Socks.Location.RoundTrip.{IsWire, read_location-write_location_to_vec}
use shoes_on_shuttle.Socks.Server.{
  setup_server_stream, success_response, choose_method, authenticate, read_request, contains,
}
use shoes_on_shuttle.Socks.Client.{setup_client_stream, new}
use shoes_on_shuttle.Socks.Handshake.{
  IsCredentials, server_replies, setup_server_stream-client, setup_client_stream-server,
}
use shoes_on_shuttle.Socks.Access.{setup_server_stream-credentials}

abbrev server : NetLocation
server = record { address = hostname (bytes_of "example.com"); port = 443 }

abbrev account : Option (Bytes × Bytes)
account = some (bytes_of "user", bytes_of "secret")

abbrev idle : Stream
idle = record { incoming = []; written = 9 ∷ []; flushed = 1 }

server-IsWire : IsWire server
unfolding address_from is_utf8
server-IsWire = record { address_ok = (omega arith, refl, refl); port_ok = omega arith }

account-IsCredentials : IsCredentials account
unfolding is_utf8
account-IsCredentials = ((omega arith, omega arith, refl), (omega arith, omega arith, refl))

setup_server_stream-client_example :
    setup_server_stream
      (record { auth_info = account })
      (record idle {
        incoming = (new account).prefix_data ++ (write_location_to_vec server ++ (7 ∷ []));
      })
    ≡ ok
        (tcp_forward server true (some success_response) none NoneOrOne.unspecified)
        (record idle { incoming = 7 ∷ []; written = idle.written ++ server_replies account })
setup_server_stream-client_example =
    setup_server_stream-client account server idle (7 ∷ []) account-IsCredentials server-IsWire

setup_client_stream-server_example :
    setup_client_stream
      (new account)
      server
      (record idle { incoming = server_replies account ++ (success_response ++ (7 ∷ [])) })
    ≡ ok tt (record idle {
      incoming = 7 ∷ [];
      written = idle.written ++ ((new account).prefix_data ++ write_location_to_vec server);
      flushed =
          length (idle.written ++ ((new account).prefix_data ++ write_location_to_vec server));
    })
setup_client_stream-server_example = setup_client_stream-server account server idle (7 ∷ [])

read_location-write_location_to_vec_example :
    read_location (record idle { incoming = write_location_to_vec server ++ (7 ∷ []) })
    ≡ ok server (record idle { incoming = 7 ∷ [] })
read_location-write_location_to_vec_example =
    read_location-write_location_to_vec server idle (7 ∷ []) server-IsWire

abbrev login : Stream
login = receiving ((new account).prefix_data ++ write_location_to_vec server)

served :
    setup_server_stream (record { auth_info = account }) login
    ≡ ok
        (tcp_forward server true (some success_response) none NoneOrOne.unspecified)
        (record login { incoming = []; written = server_replies account })
unfolding setup_server_stream new write_location_to_vec choose_method authenticate read_request
    read_location address_from is_utf8
served = refl

setup_server_stream-credentials_example :
    (methods : Bytes) × (request : Bytes) × (contains method_username methods ≡ true)
    × (login.incoming
        ≡ ver_socks5
          ∷ length methods
          ∷ (methods ++ (ver_auth ∷ 4 ∷ (bytes_of "user" ++ (6 ∷ (bytes_of "secret" ++ request))))))
setup_server_stream-credentials_example =
    setup_server_stream-credentials (bytes_of "user") (bytes_of "secret") login
      (record login { incoming = []; written = server_replies account })
      (tcp_forward server true (some success_response) none NoneOrOne.unspecified) served
