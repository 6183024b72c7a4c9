-- ===== src/Http/Safety.antt =====
-- What `setup_server_stream` of `src/http_handler.rs` asks for before it forwards.
use shoes_on_shuttle.Common.{
  length-append, [], ◌∷◌, ◌<◌, ◌||◌, none, some, true, Bytes, ◌++◌, ◌∙◌, sym, refl, arith, drop,
  take, length, ◌≡◌, ◌-◌,
}
use shoes_on_shuttle.LineReader.Sequence.{
  new-IsValid, AtLeast, read_line-Taken, Taken→Rest, Taken, Rest,
}
use shoes_on_shuttle.Http.Keeps.{
  or_fail-Keeps, ensure-Keeps, connect_target-Keeps, location_at-Keeps,
}
use shoes_on_shuttle.Http.Tokens.{connect_headers-Given, forward_headers-Given}
use shoes_on_shuttle.Http.Server.{
  split_url, or_fail, HttpTcpServerHandler, Needed, connect_headers, forward_headers,
  refuse_without, connect_request, forward_request, setup_server_stream, connect_target,
  header_fuel, forward_location,
}
use shoes_on_shuttle.Common.Text.{bytes_of, starts_with, ends_with, crlf}
use shoes_on_shuttle.Stream.{Io, Outcome, Stream, ok, ensure, ErrorKind}
use shoes_on_shuttle.Address.{split_at_first}
use mathlib.Core.Path.{subst}
use shoes_on_shuttle.Stream.Post.{ensure-Post, Post, then-Post, if-Post}
use shoes_on_shuttle.Http.Auth.{Given, Carries}
use shoes_on_shuttle.LineReader.{LineReader, Below, read_line, new}
use shoes_on_shuttle.LineReader.Lines.{Finds}
use shoes_on_shuttle.TcpHandler.{TcpServerSetupResult}
use Prim.Native.String.{String}

refuse_without-Carries :
    (token pending : Bytes) (message : String) (http_version : Bytes) (needed : Needed) (s : Stream)
    → Given token pending needed
    → Post (λ _ s'. Carries token pending) (refuse_without message http_version needed s)
refuse_without-Carries token pending message http_version none s g = g
refuse_without-Carries token pending message http_version (some t) s g = tt

-- A line that ends with its version is not empty.
known_length :
    (line : Bytes)
    → (ends_with (bytes_of " HTTP/1.0") line || ends_with (bytes_of " HTTP/1.1") line) ≡ true
    → 0 < length line
unfolding ends_with
known_length [] known = ground (arith, known)
known_length (b ∷ line) known = omega arith

module _ (below : Below) (finds : Finds below) (pending written token : Bytes)
    (http_version line : Bytes) (reader : LineReader) where
  connect_request-Carries :
      (s : Stream)
      → Rest pending written (AtLeast 1) reader s
      → Post
          (λ result s'. Carries token pending)
          (connect_request below (record { auth_token = some token }) http_version line reader s)
  unfolding connect_request
  connect_request-Carries s rest =
      let Q = λ (result : TcpServerSetupResult) (s' : Stream). Carries token pending in
      let headers : Io (Needed × LineReader) =
        λ t. connect_headers below (header_fuel reader t) (some token) reader t in
      then-Post (λ location t. t ≡ s) Q (connect_target line s) _ (connect_target-Keeps line s)
        (λ location t same.
          then-Post (λ read t'. Given token pending read.0) Q (headers t) _
            (connect_headers-Given below finds pending written token (header_fuel reader t)
              (some token) reader t
              (subst (λ (u : Stream). Rest pending written (AtLeast 1) reader u) (sym same) rest)
              refl)
            (λ read t' g.
              then-Post (λ _ t''. Carries token pending) Q
                (refuse_without "Missing HTTP CONNECT authentication" http_version read.0 t') _
                (refuse_without-Carries token pending "Missing HTTP CONNECT authentication"
                  http_version read.0 t' g)
                (λ _ t'' carries. carries)))

  forward_request-Carries :
      (s : Stream)
      → Rest pending written (AtLeast 1) reader s
      → Post
          (λ result s'. Carries token pending)
          (forward_request below (record { auth_token = some token }) http_version line reader s)
  unfolding forward_request
  forward_request-Carries s rest =
      let Q = λ (result : TcpServerSetupResult) (s' : Stream). Carries token pending in
      let message : String = "Unrecognized http request" in
      let found = split_at_first 32 (take (length line - 9) line) in
      then-Post (λ parts t. t ≡ s) Q (or_fail ErrorKind.invalid_input message found s) _
        (or_fail-Keeps ErrorKind.invalid_input message found s)
        (λ parts t same.
          let is_http = starts_with (bytes_of "http://") parts.1 in
          let url = split_url (drop 7 parts.1) in
          let request = parts.0 ++ (32 ∷ (url.1 ++ (32 ∷ (http_version ++ crlf)))) in
          then-Post (λ _ u. u ≡ t) Q
            (ensure is_http ErrorKind.invalid_input "Unsupported http forward url" t) _
            (ensure-Keeps is_http ErrorKind.invalid_input "Unsupported http forward url" t)
            (λ _ u same'.
              then-Post (λ location v. v ≡ u) Q (forward_location url.0 u) _
                (location_at-Keeps url.0 (split_at_first b':' url.0) u)
                (λ location v same''.
                  then-Post (λ read w. Given token pending read.0) Q
                    (forward_headers below (header_fuel reader v) (some token) request reader v) _
                    (forward_headers-Given below finds pending written token (header_fuel reader v)
                      (some token) request reader v
                      (subst (λ (x : Stream). Rest pending written (AtLeast 1) reader x)
                        (sym (same'' ∙ same' ∙ same)) rest)
                      refl)
                    (λ read w g.
                      then-Post (λ _ x. Carries token pending) Q
                        (refuse_without "Missing HTTP GET authentication" http_version read.0 w) _
                        (refuse_without-Carries token pending "Missing HTTP GET authentication"
                          http_version read.0 w g)
                        (λ _ x carries. carries)))))

module _ (below : Below) (finds : Finds below) (buf token : Bytes) (size : length buf ≡ 32768)
    (s : Stream) where
  setup_server_stream-Post :
      Post
        (λ result s'. Carries token s.incoming)
        (setup_server_stream below buf (record { auth_token = some token }) s)
  unfolding setup_server_stream
  setup_server_stream-Post =
      let pending = s.incoming in
      let written = s.written in
      let Q = λ (result : TcpServerSetupResult) (s' : Stream). Carries token pending in
      let handler : HttpTcpServerHandler = record { auth_token = some token } in
      let start : Rest pending written (AtLeast 0) (new buf) s = record {
        lines = [];
        are_lines = tt;
        known = omega arith;
        bytes = [];
        valid = new-IsValid buf size;
        same_written = refl;
        whole = refl;
      } in
      then-Post (λ read t. Taken pending written (AtLeast 0) read.0 read.1 t) Q
        (read_line below (new buf) s) _
        (read_line-Taken below finds pending written (AtLeast 0) (new buf) s start)
        (λ read t taken.
          let line = read.0 in
          let version = drop (length line - 8) line in
          let known =
            ends_with (bytes_of " HTTP/1.0") line || ends_with (bytes_of " HTTP/1.1") line in
          then-Post (λ _ u. (u ≡ t) × (known ≡ true)) Q
            (ensure known ErrorKind.invalid_input "Unrecognized http request" t) _
            (ensure-Post known ErrorKind.invalid_input "Unrecognized http request" t)
            (λ _ u (same, is_known).
              let behind =
                Taken→Rest pending written (AtLeast 0) (AtLeast 1) line read.1 t
                  (known_length line is_known) taken
                  (λ _. omega (arith, length-append taken.before (taken.whole_line ∷ []))) in
              let rest =
                subst (λ (x : Stream). Rest pending written (AtLeast 1) read.1 x) (sym same)
                  behind in
              if-Post Q (starts_with (bytes_of "CONNECT ") line)
                (connect_request below handler version line read.1)
                (forward_request below handler version line read.1) u
                (λ _.
                  connect_request-Carries below finds pending written token version line read.1 u
                    rest)
                (λ _.
                  forward_request-Carries below finds pending written token version line read.1 u
                    rest)))

  -- Whenever the HTTP proxy server that has a token returns with success, what its client has sent
  -- begins with whole lines, none of them blank, of which one behind the first is `Proxy-Authorization:
  -- Basic`, in any case of its letters, with a space and exactly that token behind it, less a carriage
  -- return at the end of the line; so for `CONNECT` and for other requests, in whatever pieces it
  -- comes. Conditions: the buffer of the line reader has its 32768 bytes, and `memchr` finds the first
  -- of the bytes it is asked for.
  pub setup_server_stream-Carries :
      (result : TcpServerSetupResult) (s' : Stream)
      → setup_server_stream below buf (record { auth_token = some token }) s ≡ ok result s'
      → Carries token s.incoming
  setup_server_stream-Carries result s' e =
      subst (λ (o : Outcome TcpServerSetupResult). Post (λ r t. Carries token s.incoming) o) e
        setup_server_stream-Post
