-- ===== src/WebSocket/Answer.antt =====
-- The request line and the response of `src/websocket/websocket_handler.rs`, written out.
use shoes_on_shuttle.Common.{
  both, not, ◌⊎◌, ◌||◌, ◌&&◌, ℕ, Bool, true, false, Option, none, some, Bytes, ◌++◌, [], ◌∙◌, sym,
  ap, refl, arith, ◌≡◌, ◌-◌, inl, inr, leb, length, take, drop, if◌then◌else◌, Option-cases,
  append_assoc, bytes_eq, bytes_eq→eq,
}
use mathlib.Core.Path.{subst}
use shoes_on_shuttle.Common.Holds.{take-drop, take-take}
use shoes_on_shuttle.Common.Text.{bytes_of, crlf, starts_with, ends_with}
use shoes_on_shuttle.Stream.{ensure, expect, ErrorKind, Stream, ok, pure, ◌>>◌}
use shoes_on_shuttle.Stream.Laws.{ensure-eq-ok, bind-eq-ok}
use shoes_on_shuttle.OptionUtil.{NoneOrOne, is_unspecified}
use shoes_on_shuttle.TcpHandler.{
  TcpServerSetupResult, tcp_forward, bidirectional_udp_forward, multidirectional_udp_forward,
}
use shoes_on_shuttle.WebSocket.Handshake.{
  Library, Headers, get, remove, or_other, request_path_of, header_line, http_response, finish,
}
use shoes_on_shuttle.WebSocket.Entries.{IsEntry, get-IsEntry, IsEntry-get, get-remove}
use shoes_on_shuttle.WebSocket.Target.{key_name}
use Prim.Native.String.{String}

pub or_other-eq-ok :
    {A : Type 0} (message : String) (o : Option A) (s t : Stream) (a : A)
    → or_other message o s ≡ ok a t
    → (o ≡ some a) × (s ≡ t)
or_other-eq-ok message (some x) s t a e = (cc, cc)
or_other-eq-ok message none s t a e = cc

pub expect-eq-ok :
    {A : Type 0} (o : Option A) (s t : Stream) (a : A)
    → expect o s ≡ ok a t
    → (o ≡ some a) × (s ≡ t)
expect-eq-ok (some x) s t a e = (cc, cc)
expect-eq-ok none s t a e = cc

pub pure-eq-ok : {A : Type 0} (x a : A) (s t : Stream) → pure x s ≡ ok a t → (x ≡ a) × (s ≡ t)
pure-eq-ok x a s t e = (cc, cc)

-- `GET`, the path, and the version.
pub record IsRequest (line path : Bytes) : Type 0 where
  pub version : Bytes
  pub version_is : (version ≡ bytes_of " HTTP/1.0") ⊎ (version ≡ bytes_of " HTTP/1.1")
  pub there : line ≡ bytes_of "GET " ++ (path ++ version)

pub taken_is :
    (b : Bool) (xs ys : Bytes) → (if b then some xs else none) ≡ some ys → (b ≡ true) × (xs ≡ ys)
taken_is true xs ys e = (refl, cc)
taken_is false xs ys e = cc

-- The last nine bytes are one of the versions.
version_cases :
    (line : Bytes)
    → (ends_with (bytes_of " HTTP/1.0") line || ends_with (bytes_of " HTTP/1.1") line) ≡ true
    → (drop (length line - 9) line ≡ bytes_of " HTTP/1.0")
      ⊎ (drop (length line - 9) line ≡ bytes_of " HTTP/1.1")
unfolding ends_with
version_cases line e =
    let last = drop (length line - 9) line in
    let long = leb 9 (length line) in
    by_cases long (bytes_eq last (bytes_of " HTTP/1.0")) (bytes_eq last (bytes_of " HTTP/1.1")) e
      (bytes_eq→eq last (bytes_of " HTTP/1.0")) (bytes_eq→eq last (bytes_of " HTTP/1.1"))
  where
    by_cases :
        {A B : Type 0} (l a b : Bool)
        → ((l && a) || (l && b)) ≡ true
        → (a ≡ true → A)
        → (b ≡ true → B)
        → A ⊎ B
    by_cases true true b e f g = inl (f refl)
    by_cases true false true e f g = inr (g refl)
    by_cases true false false e f g = ground arith
    by_cases false a b e f g = ground arith

starts_with-take :
    (line : Bytes) → starts_with (bytes_of "GET ") line ≡ true → take 4 line ≡ bytes_of "GET "
unfolding starts_with
starts_with-take line e =
    bytes_eq→eq (take 4 line) (bytes_of "GET ")
      (both (leb 4 (length line)) (bytes_eq (take 4 line) (bytes_of "GET ")) e).1

pub request_path_of-IsRequest :
    (line path : Bytes) (s t : Stream)
    → request_path_of line s ≡ ok path t
    → IsRequest line path × (s ≡ t)
unfolding request_path_of
request_path_of-IsRequest line path s t e =
    let known = ends_with (bytes_of " HTTP/1.0") line || ends_with (bytes_of " HTTP/1.1") line in
    let is_get = starts_with (bytes_of "GET ") line in
    let n = length line - 9 in
    let middle : Bytes = drop 4 (take n line) in
    let slice : Option Bytes = if leb 13 (length line) then some middle else none in
    let (_, u, first, later) =
      bind-eq-ok (ensure known ErrorKind.other "invalid http request version")
        (λ _. ensure is_get ErrorKind.other "invalid http request" >> expect slice) s t path e in
    let (_, v, second, last) =
      bind-eq-ok (ensure is_get ErrorKind.other "invalid http request") (λ _. expect slice) u t path
        later in
    let (is_known, same) =
      ensure-eq-ok known ErrorKind.other "invalid http request version" s u first in
    let (gets, same') = ensure-eq-ok is_get ErrorKind.other "invalid http request" u v second in
    let (cut, same'') = expect-eq-ok slice v t path last in
    let (long, path_is) = taken_is (leb 13 (length line)) middle path cut in
    let front : take 4 (take n line) ≡ bytes_of "GET " =
      take-take 4 n line (ground (arith, long)) ∙ starts_with-take line gets in
    (
      record {
        version = drop n line;
        version_is = version_cases line is_known;
        there =
            sym (take-drop n line)
            ∙ ap (λ (b : Bytes). b ++ drop n line) (sym (take-drop 4 (take n line)))
            ∙ append_assoc (take 4 (take n line)) middle (drop n line)
            ∙ ap (λ (b : Bytes). b ++ (middle ++ drop n line)) front
            ∙ ap (λ (b : Bytes). bytes_of "GET " ++ (b ++ drop n line)) path_is;
      },
      same ∙ same' ∙ same'',
    )

-- The line that repeats a header under a name, where the request has that header.
abbrev pub Repeats : Bytes → Bytes → Headers → Bytes → Type 0
Repeats name field headers line =
    ((value : Bytes) × IsEntry field value headers × (line ≡ name ++ (value ++ crlf)))
    ⊎ (((value : Bytes) → ¬ IsEntry field value headers) × (line ≡ []))

-- The response to a request with the headers and the key.
pub record Answers (library : Library) (headers : Headers) (key response : Bytes) : Type 0 where
  pub host : Bytes
  pub host_is : Repeats (bytes_of "Host: ") (bytes_of "host") headers host
  pub version : Bytes
  pub version_is :
      Repeats
        (bytes_of "Sec-WebSocket-Version: ")
        (bytes_of "sec-websocket_version")
        headers
        version
  pub response_is :
      response
      ≡ bytes_of "HTTP/1.1 101 Switching Protocol"
        ++ (crlf
            ++ (host
                ++ (bytes_of "Upgrade: websocket"
                    ++ (crlf
                        ++ (bytes_of "Connection: Upgrade"
                            ++ (crlf
                                ++ (version
                                    ++ (bytes_of "Sec-WebSocket-Accept: "
                                        ++ (library.base64 (
                                              library.sha1 (
                                                key
                                                ++ bytes_of "258EAFA5-E914-47DA-95CA-C5AB0DC85B11"))
                                            ++ (crlf ++ crlf))))))))))

header_line-Repeats :
    (name field : Bytes) (headers : Headers)
    → ¬ (field ≡ key_name)
    → Repeats name field headers (header_line name (get field (remove key_name headers)))
header_line-Repeats name field headers other =
    let same = get-remove field key_name headers other in
    let Goal : Option Bytes → Type 0 = λ o. Repeats name field headers (header_line name o) in
    subst Goal (sym same) (elim (Option-cases (get field headers)) [
      | inl nothing ↦
          subst Goal (sym nothing)
            (inr (λ value entry. cc (sym nothing ∙ IsEntry-get field value headers entry), refl))
      | inr (value, found) ↦
          subst Goal (sym found) (inl (value, get-IsEntry field value headers found, refl))
    ])

pub http_response-Answers :
    (library : Library) (headers : Headers) (key : Bytes)
    → Answers library headers key (http_response library (remove key_name headers) key)
http_response-Answers library headers key = record {
  host = header_line (bytes_of "Host: ") (get (bytes_of "host") (remove key_name headers));
  host_is =
      header_line-Repeats (bytes_of "Host: ") (bytes_of "host") headers
        (λ same. absurd (omega (arith, ap length same)));
  version =
      header_line (bytes_of "Sec-WebSocket-Version: ")
        (get (bytes_of "sec-websocket_version") (remove key_name headers));
  version_is =
      header_line-Repeats (bytes_of "Sec-WebSocket-Version: ") (bytes_of "sec-websocket_version")
        headers (λ same. absurd (omega (arith, ap length same)));
  response_is = refl;
}

-- What the handler of a target gives, or what the target has where it leaves that open.
abbrev pub or_else : NoneOrOne ℕ → NoneOrOne ℕ → NoneOrOne ℕ
or_else NoneOrOne.unspecified provider = provider
or_else NoneOrOne.nothing provider = NoneOrOne.nothing
or_else (NoneOrOne.one x) provider = NoneOrOne.one x

-- The result of the target's handler, with an initial flush and the proxies where it forwards.
abbrev pub Completes : NoneOrOne ℕ → TcpServerSetupResult → TcpServerSetupResult → Type 0
Completes provider (tcp_forward location flush response initial inner) result =
    result ≡ tcp_forward location true response initial (or_else inner provider)
Completes provider (bidirectional_udp_forward location) result =
    result ≡ bidirectional_udp_forward location
Completes provider (multidirectional_udp_forward flush) result =
    result ≡ multidirectional_udp_forward flush

or_else-lem :
    (inner provider : NoneOrOne ℕ)
    → (if is_unspecified inner && not (is_unspecified provider) then provider else inner)
      ≡ or_else inner provider
or_else-lem NoneOrOne.unspecified NoneOrOne.unspecified = refl
or_else-lem NoneOrOne.unspecified NoneOrOne.nothing = refl
or_else-lem NoneOrOne.unspecified (NoneOrOne.one x) = refl
or_else-lem NoneOrOne.nothing provider = refl
or_else-lem (NoneOrOne.one x) provider = refl

pub finish-Completes :
    (provider : NoneOrOne ℕ) (inner : TcpServerSetupResult)
    → Completes provider inner (finish provider inner)
finish-Completes provider (tcp_forward location flush response initial inner) =
    ap (tcp_forward location true response initial) (or_else-lem inner provider)
finish-Completes provider (bidirectional_udp_forward location) = refl
finish-Completes provider (multidirectional_udp_forward flush) = refl
