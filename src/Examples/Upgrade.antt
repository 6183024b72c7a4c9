-- ===== src/Examples/Upgrade.antt =====
-- The theorem on `src/websocket/websocket_handler.rs` at a request that the second target fits.
use shoes_on_shuttle.Common.{
  length-replicate, false, true, ℕ, replicate, ◌≡◌, ◌++◌, List, [], ◌∷◌, none, some, refl, Bytes,
}
use shoes_on_shuttle.Common.Text.{bytes_of, crlf}
use shoes_on_shuttle.Examples.Proxy.{at_once}
use shoes_on_shuttle.Examples.Lines.{search, search-Found}
use shoes_on_shuttle.Stream.{Stream, ok, receiving, pure}
use shoes_on_shuttle.Address.{unspecified}
use shoes_on_shuttle.OptionUtil.{NoneOrOne}
use shoes_on_shuttle.TcpHandler.{tcp_forward}
use shoes_on_shuttle.WebSocket.Handshake.{
  Headers, Library, WebsocketServerTarget, http_response, setup_server_stream,
}
use shoes_on_shuttle.WebSocket.Chosen.{Chosen, setup_server_stream-Chosen}

abbrev library : Library
library = record { base64 = λ b. b; sha1 = λ b. b; trim = λ b. b; to_lowercase = λ b. b }

abbrev upgrade : Bytes
upgrade =
    bytes_of "GET /w HTTP/1.1"
    ++ (crlf ++ (bytes_of "host:a" ++ (crlf ++ (bytes_of "sec-websocket-key:k" ++ (crlf ++ crlf)))))

abbrev host : Headers
host = (bytes_of "host", bytes_of "a") ∷ []

abbrev target_of : Bytes → NoneOrOne ℕ → WebsocketServerTarget
target_of path provider = record {
  matching_path = some path;
  matching_headers = some host;
  handler = λ data_ahead. pure (tcp_forward unspecified false none none NoneOrOne.unspecified);
  override_proxy_provider = provider;
}

abbrev two_targets : List WebsocketServerTarget
two_targets =
    target_of (bytes_of "/v") NoneOrOne.nothing ∷ target_of (bytes_of "/w") (NoneOrOne.one 5) ∷ []

abbrev upgraded : Stream
upgraded = record {
  incoming = [];
  written = http_response library host (bytes_of "k");
  flushed = 0;
}

upgrades_lem :
    setup_server_stream library at_once (replicate 32768 0) two_targets (receiving upgrade)
    ≡ ok (tcp_forward unspecified true none none (NoneOrOne.one 5)) upgraded
unfolding setup_server_stream search
upgrades_lem = refl

setup_server_stream-Chosen_example :
    Chosen library two_targets
      (receiving upgrade)
      upgraded
      (tcp_forward unspecified true none none (NoneOrOne.one 5))
setup_server_stream-Chosen_example =
    setup_server_stream-Chosen library at_once search-Found (replicate 32768 0)
      (length-replicate {A = ℕ} 32768 0) two_targets (receiving upgrade) upgraded
      (tcp_forward unspecified true none none (NoneOrOne.one 5)) upgrades_lem
