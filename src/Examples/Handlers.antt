-- ===== src/Examples/Handlers.antt =====
-- The theorems on `src/trojan_handler.rs` and `src/vless_handler.rs` at concrete inputs.
use shoes_on_shuttle.Shadowsocks
use shoes_on_shuttle.Shadowsocks.Handler.{location_vec}
use shoes_on_shuttle.Shadowsocks.Handshake.{setup_server_stream-location_vec}
use shoes_on_shuttle.Common.{
  Bytes, [], ◌∷◌, ◌++◌, ◌≡◌, refl, arith, none, some, true, false, length, replicate,
}
use shoes_on_shuttle.Address.{ipv4, NetLocation}
use shoes_on_shuttle.Stream.{Stream, Outcome, ok}
use shoes_on_shuttle.OptionUtil.{NoneOrOne}
use shoes_on_shuttle.TcpHandler.{tcp_forward}
use shoes_on_shuttle.Socks.Location.RoundTrip.{IsWire}
use shoes_on_shuttle.Trojan.{TrojanTcpHandler, create_password_hash}
use shoes_on_shuttle.Trojan.Handshake.{
  setup_client_stream-trojan_request, setup_server_stream-trojan_request,
  setup_server_stream-password, create_password_hash_total,
}
use shoes_on_shuttle.Vless.Server.{VlessTcpHandler, server_response_header}
use shoes_on_shuttle.Vless.Addons.{read_addons}
use shoes_on_shuttle.Vless.Handshake.{
  setup_client_stream-vless_request, setup_server_stream-vless_request,
}
use shoes_on_shuttle.Vless.Safety.{setup_server_stream-user_id, read_addons-panics}
use shoes_on_shuttle.Trojan
use shoes_on_shuttle.Vless

abbrev server : NetLocation
server = record { address = ipv4 (record { a = 10; b = 0; c = 3; d = 7 }); port = 443 }

server-IsWire : IsWire server
server-IsWire = record {
  address_ok = record {
    a_byte = omega arith;
    b_byte = omega arith;
    c_byte = omega arith;
    d_byte = omega arith;
  };
  port_ok = omega arith;
}

abbrev idle : Stream
idle = record { incoming = []; written = 9 ∷ []; flushed = 1 }

abbrev sha224 : Bytes → Bytes
sha224 password = replicate 28 (length password)

abbrev trojan : TrojanTcpHandler
trojan = record { password_hash = replicate 56 48 }

setup_server_stream-trojan_request_example :
    Trojan.setup_server_stream trojan
      (record idle { incoming = Trojan.Handshake.request trojan server ++ (7 ∷ []) })
    ≡ ok
        (tcp_forward server false none none NoneOrOne.unspecified)
        (record idle { incoming = 7 ∷ [] })
setup_server_stream-trojan_request_example =
    setup_server_stream-trojan_request trojan server idle (7 ∷ []) refl server-IsWire

setup_server_stream-password_example :
    (rest : Bytes) × (Trojan.Handshake.request trojan server ++ (7 ∷ [])
      ≡ trojan.password_hash ++ rest)
setup_server_stream-password_example =
    setup_server_stream-password trojan
      (record idle { incoming = Trojan.Handshake.request trojan server ++ (7 ∷ []) })
      (record idle { incoming = 7 ∷ [] }) (tcp_forward server false none none NoneOrOne.unspecified)
      refl (setup_server_stream-trojan_request trojan server idle (7 ∷ []) refl server-IsWire)

abbrev vless : VlessTcpHandler
vless = record { user_id = replicate 16 5 }

setup_server_stream-vless_request_example :
    Vless.Server.setup_server_stream vless
      (record idle { incoming = Vless.Handshake.request vless.user_id server ++ (7 ∷ []) })
    ≡ ok
        (tcp_forward server true (some server_response_header) none NoneOrOne.unspecified)
        (record idle { incoming = 7 ∷ [] })
setup_server_stream-vless_request_example =
    setup_server_stream-vless_request vless server idle (7 ∷ []) refl server-IsWire

setup_server_stream-user_id_example :
    (rest : Bytes) × (Vless.Handshake.request vless.user_id server ++ (7 ∷ [])
      ≡ 0 ∷ (vless.user_id ++ rest))
setup_server_stream-user_id_example =
    setup_server_stream-user_id vless
      (record idle { incoming = Vless.Handshake.request vless.user_id server ++ (7 ∷ []) })
      (record idle { incoming = 7 ∷ [] })
      (tcp_forward server true (some server_response_header) none NoneOrOne.unspecified) refl
      (setup_server_stream-vless_request vless server idle (7 ∷ []) refl server-IsWire)

read_addons-panics_example :
    read_addons 2 (record idle { incoming = 128 ∷ 255 ∷ 7 ∷ [] }) ≡ Outcome.panic
read_addons-panics_example =
    read_addons-panics (128 ∷ 255 ∷ []) (7 ∷ []) idle (omega arith) (omega arith, (omega arith, tt))

setup_server_stream-location_vec_example :
    Shadowsocks.Handler.setup_server_stream true
      (record idle { incoming = location_vec true server (1 ∷ 2 ∷ 3 ∷ []) ++ (7 ∷ []) })
    ≡ ok
        (tcp_forward server false none none NoneOrOne.unspecified)
        (record idle { incoming = 7 ∷ [] })
setup_server_stream-location_vec_example =
    setup_server_stream-location_vec true server (1 ∷ 2 ∷ 3 ∷ []) (7 ∷ []) idle server-IsWire
      (omega arith)
