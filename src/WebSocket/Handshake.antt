-- ===== src/WebSocket/Handshake.antt =====
-- `WebsocketTcpServerHandler` of `src/websocket/websocket_handler.rs`.
use shoes_on_shuttle.Common.{
  ℕ, zero, suc, Bool, true, false, Option, none, some, List, Bytes, [], ◌∷◌, ◌++◌, drop, take,
  length, ◌-◌, ◌==◌, ◌&&◌, if◌then◌else◌, ltb, leb, not, bytes_eq, ◌||◌,
}
use shoes_on_shuttle.Common.Text.{bytes_of, crlf, starts_with, ends_with}
use shoes_on_shuttle.LineReader.{LineReader, Below, read_line, unparsed_data, new}
use shoes_on_shuttle.Address.{split_at_first}
use shoes_on_shuttle.OptionUtil.{NoneOrOne, is_unspecified}
use shoes_on_shuttle.TcpHandler.{
  TcpServerSetupResult, tcp_forward, bidirectional_udp_forward, multidirectional_udp_forward,
}
use shoes_on_shuttle.Stream.{
  Io, panic, pure, fail, ensure, expect, write_all, ◌>>=◌, ◌>>◌, ErrorKind,
}
use Prim.Native.String.{String}

-- The crates `base64` and `sha1`, and the functions of `str` on all of Unicode.
pub record Library : Type 0 where
  pub base64 : Bytes → Bytes
  pub sha1 : Bytes → Bytes
  pub trim : Bytes → Bytes
  pub to_lowercase : Bytes → Bytes

-- A `HashMap` of headers, the last that was inserted first.
abbrev pub Headers : Type 0
Headers = List (Bytes × Bytes)

abbrev pub get : Bytes → Headers → Option Bytes
get key [] = none
get key ((k, value) ∷ headers) =
    let later = get key headers in if bytes_eq k key then some value else later

abbrev pub remove : Bytes → Headers → Headers
remove key [] = []
remove key ((k, value) ∷ headers) =
    let later = remove key headers in if bytes_eq k key then later else (k, value) ∷ later

pub record ParsedHttpData : Type 0 where
  pub first_line : Bytes
  pub headers : Headers
  pub line_reader : LineReader

abbrev pub or_other : {A : Type 0} → String → Option A → Io A
or_other message (some a) = pure a
or_other message none = fail ErrorKind.other message

-- A line that is not empty, behind the lines that gave `first_line` and `headers`.
unfoldable pub parse_line : Library → Option Bytes → Headers → Bytes → Io (Option Bytes × Headers)
unfolding split_at_first
parse_line library none headers line = pure (some line, headers)
parse_line library (some first_line) headers line =
    or_other "invalid http request line" (split_at_first b':' line) >>= λ tokens. pure (
      some first_line,
      (library.to_lowercase (library.trim tokens.0), library.trim tokens.1) ∷ headers,
    )

-- Behind the loop.
abbrev pub head_parsed : Headers → LineReader → Option Bytes → Io ParsedHttpData
head_parsed headers reader (some line) =
    pure (record { first_line = line; headers = headers; line_reader = reader })
head_parsed headers reader none = fail ErrorKind.other "empty http request"

-- The loop; the first number is 40 less `line_count`, which ends it at 40.
unfoldable pub parse_lines :
    Library → Below → ℕ → Option Bytes → Headers → LineReader → Io ParsedHttpData
unfolding read_line parse_line
parse_lines library below zero first_line headers reader = λ s. panic
parse_lines library below (suc left) first_line headers reader = read_line below reader >>= λ read.
    if length read.0 == 0
    then head_parsed headers read.1 first_line
    else ensure (ltb (length read.0) 4096) ErrorKind.other "http request line is too long"
      >> (parse_line library first_line headers read.0 >>= λ parsed.
          ensure (ltb 0 left) ErrorKind.other "http request is too long"
          >> parse_lines library below left parsed.0 parsed.1 read.1)

-- `ParsedHttpData::parse`; `buf` is the buffer of its line reader.
unfoldable pub parse : Library → Below → Bytes → Io ParsedHttpData
unfolding parse_lines
parse library below buf = parse_lines library below 40 none [] (new buf)

abbrev pub create_websocket_key_response : Library → Bytes → Bytes
create_websocket_key_response library key =
    library.base64 (library.sha1 (key ++ bytes_of "258EAFA5-E914-47DA-95CA-C5AB0DC85B11"))

-- `handler` is the step of the target's handler on the `WebsocketStream` around the stream, from its
-- unprocessed data.
pub record WebsocketServerTarget : Type 0 where
  pub matching_path : Option Bytes
  pub matching_headers : Option Headers
  pub handler : Bytes → Io TcpServerSetupResult
  pub override_proxy_provider : NoneOrOne ℕ

abbrev pub has_value : Option Bytes → Bytes → Bool
has_value none value = false
has_value (some v) value = bytes_eq v value

abbrev pub has_headers : Headers → Headers → Bool
has_headers [] headers = true
has_headers ((key, value) ∷ wanted) headers =
    has_value (get key headers) value && has_headers wanted headers

abbrev pub path_fits : Option Bytes → Bytes → Bool
path_fits none request_path = true
path_fits (some path) request_path = bytes_eq path request_path

abbrev pub headers_fit : Option Headers → Headers → Bool
headers_fit none headers = true
headers_fit (some wanted) headers = has_headers wanted headers

abbrev pub fits : Bytes → Headers → WebsocketServerTarget → Bool
fits request_path headers target =
    path_fits target.matching_path request_path && headers_fit target.matching_headers headers

-- The loop over the targets.
unfoldable pub find_target :
    Bytes → Headers → List WebsocketServerTarget → Option WebsocketServerTarget
find_target request_path headers [] = none
find_target request_path headers (target ∷ targets) =
    let later = find_target request_path headers targets in
    if fits request_path headers target then some target else later

-- `first_line.truncate(len - 9)` and `split_off(4)`, which panics behind the end.
unfoldable pub request_path_of : Bytes → Io Bytes
unfolding starts_with ends_with
request_path_of first_line =
    ensure
      (ends_with (bytes_of " HTTP/1.0") first_line || ends_with (bytes_of " HTTP/1.1") first_line)
      ErrorKind.other "invalid http request version"
    >> (ensure (starts_with (bytes_of "GET ") first_line) ErrorKind.other "invalid http request"
        >> expect (
            if leb 13 (length first_line)
            then some (drop 4 (take (length first_line - 9) first_line))
            else none))

abbrev pub header_line : Bytes → Option Bytes → Bytes
header_line name none = []
header_line name (some value) = name ++ (value ++ crlf)

abbrev pub http_response : Library → Headers → Bytes → Bytes
http_response library headers key =
    bytes_of "HTTP/1.1 101 Switching Protocol"
    ++ (crlf
        ++ (header_line (bytes_of "Host: ") (get (bytes_of "host") headers)
            ++ (bytes_of "Upgrade: websocket"
                ++ (crlf
                    ++ (bytes_of "Connection: Upgrade"
                        ++ (crlf
                            ++ (header_line (bytes_of "Sec-WebSocket-Version: ")
                                  (get (bytes_of "sec-websocket_version") headers)
                                ++ (bytes_of "Sec-WebSocket-Accept: "
                                    ++ (create_websocket_key_response library key
                                        ++ (crlf ++ crlf))))))))))

-- What is changed in a result of the target's handler.
abbrev pub finish : NoneOrOne ℕ → TcpServerSetupResult → TcpServerSetupResult
finish provider (tcp_forward location need_initial_flush response initial inner) =
    tcp_forward location true response initial
      (if is_unspecified inner && not (is_unspecified provider) then provider else inner)
finish provider (bidirectional_udp_forward location) = bidirectional_udp_forward location
finish provider (multidirectional_udp_forward flush) = multidirectional_udp_forward flush

-- The buffer of the new `WebsocketStream` has 16384 bytes.
abbrev pub run_target :
    Library → Headers → Bytes → Bytes → WebsocketServerTarget → Io TcpServerSetupResult
run_target library headers key unparsed target =
    write_all (http_response library headers key)
    >> (expect (if leb (length unparsed) 16384 then some unparsed else none)
        >>= target.handler
        >>= λ result. pure (finish target.override_proxy_provider result))

unfoldable pub setup_server_stream :
    Library → Below → Bytes → List WebsocketServerTarget → Io TcpServerSetupResult
unfolding parse request_path_of find_target
setup_server_stream library below buf server_targets = parse library below buf >>= λ parsed.
    request_path_of parsed.first_line >>= λ request_path.
    or_other "missing websocket key header" (get (bytes_of "sec-websocket-key") parsed.headers)
    >>= λ websocket_key.
        (let headers = remove (bytes_of "sec-websocket-key") parsed.headers in
          or_other "No matching websocket targets" (find_target request_path headers server_targets)
          >>= run_target library headers websocket_key (unparsed_data parsed.line_reader))
