-- ===== src/Examples/Proxy.antt =====
-- The theorems on `src/http_handler.rs` at a `CONNECT` request with a token.
use shoes_on_shuttle.Common.{
  ℕ, true, none, some, Bytes, [], ◌∷◌, ◌++◌, refl, ◌≡◌, length-replicate, replicate,
}
use shoes_on_shuttle.Http.Short.{short_line, setup_server_stream-panics}
use shoes_on_shuttle.Http.Ends.{headers_total}
use shoes_on_shuttle.Http.Server.{
  forward_headers, connect_headers, header_fuel, setup_server_stream,
}
use shoes_on_shuttle.Stream.{panic, ok, receiving}
use shoes_on_shuttle.Examples.Lines.{empty_reader, empty_reader-IsValid, search, search-Found}
use shoes_on_shuttle.Net.Parse.{parse_ipv6}
use shoes_on_shuttle.Common.Text.{bytes_of, crlf}
use shoes_on_shuttle.LineReader.{Below}
use shoes_on_shuttle.Address.{hostname}
use shoes_on_shuttle.OptionUtil.{NoneOrOne}
use shoes_on_shuttle.TcpHandler.{TcpServerSetupResult, tcp_forward}
use shoes_on_shuttle.Http.Auth.{Carries}
use shoes_on_shuttle.Http.Safety.{setup_server_stream-Carries}

abbrev pub at_once : Below
at_once = record { memchr = search; pace = λ n. n }

abbrev request : Bytes
request =
    bytes_of "CONNECT a:1 HTTP/1.1"
    ++ (crlf ++ (bytes_of "Proxy-Authorization: Basic xy" ++ (crlf ++ crlf)))

abbrev connected : TcpServerSetupResult
connected =
    tcp_forward (record { address = hostname (bytes_of "a"); port = 1 }) true
      (some (bytes_of "HTTP/1.1 200 Connection established" ++ (crlf ++ crlf))) none
      NoneOrOne.unspecified

connects_lem :
    setup_server_stream at_once
      (replicate 32768 0)
      (record { auth_token = some (bytes_of "xy") })
      (receiving request)
    ≡ ok connected (receiving [])
unfolding setup_server_stream search parse_ipv6
connects_lem = refl

setup_server_stream-Carries_example : Carries (bytes_of "xy") request
setup_server_stream-Carries_example =
    setup_server_stream-Carries at_once search-Found (replicate 32768 0) (bytes_of "xy")
      (length-replicate {A = ℕ} 32768 0) (receiving request) connected (receiving []) connects_lem

-- The headers of a request, which are still to come.
headers_total_example :
    ¬ (
      forward_headers at_once
        (header_fuel empty_reader (receiving request))
        none
        []
        empty_reader
        (receiving request)
      ≡ panic)
    × ¬ (
        connect_headers at_once
          (header_fuel empty_reader (receiving request))
          none
          empty_reader
          (receiving request)
        ≡ panic)
headers_total_example =
    headers_total at_once search-Found empty_reader [] empty_reader-IsValid (receiving request) none
      []

setup_server_stream-panics_example :
    setup_server_stream at_once
      (replicate 32768 0)
      (record { auth_token = none })
      (receiving (short_line ++ (10 ∷ [])))
    ≡ panic
setup_server_stream-panics_example =
    setup_server_stream-panics at_once search-Found (replicate 32768 0)
      (length-replicate {A = ℕ} 32768 0) (record { auth_token = none }) []
      (receiving (short_line ++ (10 ∷ []))) refl
