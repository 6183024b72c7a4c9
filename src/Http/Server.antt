-- ===== src/Http/Server.antt =====
-- `HttpTcpServerHandler` of `src/http_handler.rs`. The loops over the header lines run on fuel.
use shoes_on_shuttle.Common.{
  not, ℕ, zero, suc, Bool, true, false, Option, none, some, Bytes, [], ◌∷◌, ◌++◌, drop, take,
  length, ◌+◌, ◌-◌, ◌==◌, ◌&&◌, if◌then◌else◌, ltb, leb, ◌||◌, bytes_eq,
}
use Prim.Native.String.{String}
use shoes_on_shuttle.Common.Text.{
  bytes_of, crlf, starts_with, ends_with, to_ascii_lowercase, is_char_boundary,
}
use shoes_on_shuttle.LineReader.{LineReader, Below, read_line, unparsed_data, new}
use shoes_on_shuttle.Net.Parse.{parse_uint}
use shoes_on_shuttle.Address.{NetLocation, address_from, split_at_first}
use shoes_on_shuttle.OptionUtil.{NoneOrOne}
use shoes_on_shuttle.TcpHandler.{TcpServerSetupResult, tcp_forward}
use shoes_on_shuttle.Stream.{
  panic, Io, Stream, pure, fail, ensure, expect, lift, write_all, flush, ◌>>=◌, ◌>>◌, ErrorKind,
}

abbrev pub proxy_auth_header_prefix : Bytes
proxy_auth_header_prefix = bytes_of "proxy-authorization: basic "

abbrev pub connection_header_prefix : Bytes
connection_header_prefix = bytes_of "connection: "

abbrev pub proxy_connection_header_prefix : Bytes
proxy_connection_header_prefix = bytes_of "proxy-connection: "

-- `create_http_auth_token`, with the encoder of the `base64` crate.
abbrev pub create_http_auth_token : (Bytes → Bytes) → Bytes → Bytes → Bytes
create_http_auth_token base64 username password = base64 (username ++ (b':' ∷ password))

pub record HttpTcpServerHandler : Type 0 where
  pub auth_token : Option Bytes

abbrev pub new_server : (Bytes → Bytes) → Option (Bytes × Bytes) → HttpTcpServerHandler
new_server base64 none = record { auth_token = none }
new_server base64 (some (username, password)) = record {
  auth_token = some (create_http_auth_token base64 username password);
}

-- The loops hold whether a token is still needed, and which.
abbrev pub Needed : Type 0
Needed = Option Bytes

-- `e?` on an error of `InvalidInput` or `InvalidData`.
abbrev pub or_fail : {A : Type 0} → ErrorKind → String → Option A → Io A
or_fail kind message (some a) = pure a
or_fail kind message none = fail kind message

-- The port is parsed before the address.
abbrev pub location_of : Bytes → Bytes → Io NetLocation
location_of domain_name port_text =
    or_fail ErrorKind.invalid_data "invalid port" (parse_uint 65535 port_text) >>= λ port.
    lift (address_from domain_name) >>= λ address. pure (record { address = address; port = port })

-- `address` of a `CONNECT` line, from `line[8..line.len() - 9]` on, which panics on a shorter line.
unfoldable pub connect_target : Bytes → Io NetLocation
unfolding split_at_first parse_uint address_from
connect_target line =
    expect (if leb 17 (length line) then some (take (length line - 17) (drop 8 line)) else none)
    >>= λ address.
        or_fail ErrorKind.invalid_input "Invalid address format" (split_at_first b':' address)
        >>= λ parts.
            ensure (ltb 0 (length parts.1)) ErrorKind.invalid_input "Invalid address format"
            >> location_of parts.0 parts.1

abbrev pub compare_token : String → Bytes → Bytes → Io Needed
compare_token message token given =
    if bytes_eq given token then pure none else fail ErrorKind.invalid_input message

-- `line[27..]` panics inside a character and behind the end.
abbrev pub from_27 : Bytes → Option Bytes
from_27 line =
    if leb 27 (length line) && is_char_boundary 27 line then some (drop 27 line) else none

-- A header with the right token ends the need for one.
abbrev pub check_token : String → Bytes → Bytes → Io Needed
check_token message token line = expect (from_27 line) >>= compare_token message token

abbrev pub on_prefix : Bytes → Bytes → Bytes → Io Needed
on_prefix token line prefix =
    if bytes_eq (to_ascii_lowercase prefix) proxy_auth_header_prefix
    then check_token "Incorrect HTTP CONNECT authentication" token line
    else pure (some token)

-- `line[0..27]` panics inside a character.
abbrev pub first_27 : Bytes → Option Bytes
first_27 line = if is_char_boundary 27 line then some (take 27 line) else none

-- The body of the loop over the headers of `CONNECT`.
unfoldable pub connect_header : Needed → Bytes → Io Needed
unfolding to_ascii_lowercase
connect_header none line = pure none
connect_header (some token) line =
    if ltb 28 (length line)
    then expect (first_27 line) >>= on_prefix token line
    else pure (some token)

unfoldable pub connect_headers : Below → ℕ → Needed → LineReader → Io (Needed × LineReader)
unfolding read_line connect_header
connect_headers below zero needed reader = λ s. panic
connect_headers below (suc fuel) needed reader = read_line below reader >>= λ read.
    if length read.0 == 0
    then pure (needed, read.1)
    else connect_header needed read.0 >>= λ still. connect_headers below fuel still read.1

-- A header with a token is not kept.
abbrev pub take_token : Needed → Bytes → Io (Needed × Bool)
take_token none line = pure (none, false)
take_token (some token) line =
    check_token "Incorrect HTTP GET authentication" token line >>= λ still. pure (still, false)

abbrev pub is_connection_header : Bytes → Bool
is_connection_header lowercase_line =
    starts_with connection_header_prefix lowercase_line
    || starts_with proxy_connection_header_prefix lowercase_line

-- The body of the loop over the headers of a forwarded request: the need, and whether the line is kept.
unfoldable pub forward_header : Needed → Bytes → Io (Needed × Bool)
unfolding to_ascii_lowercase starts_with
forward_header needed line =
    let lowercase_line = to_ascii_lowercase line in
    if ltb 28 (length line) && starts_with proxy_auth_header_prefix lowercase_line
    then take_token needed line
    else pure (needed, not (is_connection_header lowercase_line))

-- What is behind the body for a line that is kept.
abbrev pub push_line : Bytes → Bytes → Bool → Io Bytes
push_line request line false = pure request
push_line request line true =
    let request' = request ++ (line ++ crlf) in
    ensure (leb (length request') 16384) ErrorKind.invalid_data "HTTP GET request is too long"
    >> pure request'

unfoldable pub forward_headers :
    Below → ℕ → Needed → Bytes → LineReader → Io (Needed × Bytes × LineReader)
unfolding read_line forward_header
forward_headers below zero needed request reader = λ s. panic
forward_headers below (suc fuel) needed request reader = read_line below reader >>= λ read.
    if length read.0 == 0
    then pure (needed, request, read.1)
    else forward_header needed read.0 >>= λ done. push_line request read.0 done.1 >>= λ request'.
        forward_headers below fuel done.0 request' read.1

abbrev pub auth_required : Bytes → Bytes
auth_required http_version =
    http_version
    ++ (bytes_of " 407 Proxy Authentication Required"
        ++ (crlf
            ++ (bytes_of "Proxy-Authenticate: Basic realm="
                ++ (34 ∷ bytes_of "proxy")
                ++ (34 ∷ crlf)
                ++ (bytes_of "Content-Length: 0"
                    ++ (crlf ++ (bytes_of "Connection: close" ++ (crlf ++ crlf)))))))

-- The end of both branches where a token is still needed.
abbrev pub refuse_without : String → Bytes → Needed → Io (Unit {0})
refuse_without message http_version none = pure tt
refuse_without message http_version (some token) =
    write_all (auth_required http_version) >> (flush >> fail ErrorKind.invalid_input message)

-- A line takes a byte of what is to come, so this is enough for the loops.
abbrev pub header_fuel : LineReader → Stream → ℕ
header_fuel reader s = suc (length (unparsed_data reader) + length s.incoming)

abbrev pub some_data : Bytes → Option Bytes
some_data [] = none
some_data (b ∷ bytes) = some (b ∷ bytes)

unfoldable pub connect_request :
    Below → HttpTcpServerHandler → Bytes → Bytes → LineReader → Io TcpServerSetupResult
unfolding connect_target connect_headers
connect_request below handler http_version line reader = connect_target line >>= λ remote_location.
    (λ s. connect_headers below (header_fuel reader s) handler.auth_token reader s) >>= λ read.
    refuse_without "Missing HTTP CONNECT authentication" http_version read.0
    >> pure (
        tcp_forward remote_location true
          (some (http_version ++ (bytes_of " 200 Connection established" ++ (crlf ++ crlf))))
          (some_data (unparsed_data read.1)) NoneOrOne.unspecified)

-- The address of a forwarded request, with 80 as the port where none is given.
abbrev pub location_at : Bytes → Option (Bytes × Bytes) → Io NetLocation
location_at address (some parts) = location_of parts.0 parts.1
location_at address none =
    lift (address_from address) >>= λ parsed. pure (record { address = parsed; port = 80 })

abbrev pub forward_location : Bytes → Io NetLocation
forward_location address = location_at address (split_at_first b':' address)

-- The url without its scheme, at the first `/`.
abbrev pub split_url : Bytes → Bytes × Bytes
split_url url = elim (split_at_first b'/' url) [
  | some parts ↦ (parts.0, b'/' ∷ parts.1)
  | none ↦ (url, b'/' ∷ [])
]

unfoldable pub forward_request :
    Below → HttpTcpServerHandler → Bytes → Bytes → LineReader → Io TcpServerSetupResult
unfolding split_at_first parse_uint address_from starts_with forward_headers
forward_request below handler http_version line reader =
    or_fail ErrorKind.invalid_input "Unrecognized http request"
      (split_at_first 32 (take (length line - 9) line))
    >>= λ parts.
        ensure (starts_with (bytes_of "http://") parts.1) ErrorKind.invalid_input
          "Unsupported http forward url"
        >> (let (address, location) = split_url (drop 7 parts.1) in
            let request = parts.0 ++ (32 ∷ (location ++ (32 ∷ (http_version ++ crlf)))) in
            forward_location address >>= λ remote_location.
            (λ s. forward_headers below (header_fuel reader s) handler.auth_token request reader s)
            >>= λ read.
                refuse_without "Missing HTTP GET authentication" http_version read.0
                >> pure (
                    tcp_forward remote_location false none
                      (some (
                        read.1
                        ++ (bytes_of "Connection: close" ++ (crlf ++ crlf))
                        ++ unparsed_data read.2))
                      NoneOrOne.unspecified))

-- `setup_server_stream`; `buf` is the buffer of its line reader.
unfoldable pub setup_server_stream : Below → Bytes → HttpTcpServerHandler → Io TcpServerSetupResult
unfolding read_line starts_with ends_with connect_request forward_request
setup_server_stream below buf handler = read_line below (new buf) >>= λ read.
    let line = read.0 in
    let http_version = drop (length line - 8) line in
    ensure (ends_with (bytes_of " HTTP/1.0") line || ends_with (bytes_of " HTTP/1.1") line)
      ErrorKind.invalid_input "Unrecognized http request"
    >> (if starts_with (bytes_of "CONNECT ") line
        then connect_request below handler http_version line read.1
        else forward_request below handler http_version line read.1)
