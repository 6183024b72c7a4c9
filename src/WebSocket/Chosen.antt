-- ===== src/WebSocket/Chosen.antt =====
-- What `setup_server_stream` of `src/websocket/websocket_handler.rs` does where it succeeds.
use shoes_on_shuttle.Common.{
  none, some, List, Bytes, ◌++◌, ◌∙◌, sym, ap, ◌≡◌, ◌≤◌, length, leb, if◌then◌else◌, arith,
}
use mathlib.Core.Path.{subst}
use shoes_on_shuttle.Common.Text.{bytes_of}
use shoes_on_shuttle.Stream.{Outcome, Stream, ok, pure, expect, ◌>>=◌}
use shoes_on_shuttle.Stream.Laws.{bind-eq-ok}
use shoes_on_shuttle.Stream.Post.{Post}
use shoes_on_shuttle.LineReader.{Below, unparsed_data}
use shoes_on_shuttle.LineReader.Lines.{Finds}
use shoes_on_shuttle.TcpHandler.{TcpServerSetupResult}
use shoes_on_shuttle.WebSocket.Head.{Head, parse-Head}
use shoes_on_shuttle.WebSocket.Entries.{IsEntry, get-IsEntry}
use shoes_on_shuttle.WebSocket.Target.{key_name, First, find_target-First}
use shoes_on_shuttle.WebSocket.Answer.{
  or_other-eq-ok, expect-eq-ok, pure-eq-ok, taken_is, IsRequest, request_path_of-IsRequest, Answers,
  http_response-Answers, Completes, finish-Completes,
}
use shoes_on_shuttle.WebSocket.Handshake.{
  Library, Headers, ParsedHttpData, WebsocketServerTarget, get, remove, parse, request_path_of,
  find_target, or_other, run_target, finish, http_response, setup_server_stream,
}

-- The head of the request, the first target that fits it, the response, and what the target's handler
-- has returned.
pub record Chosen (library : Library) (targets : List WebsocketServerTarget) (s s' : Stream)
    (result : TcpServerSetupResult) : Type 0 where
  pub parsed : ParsedHttpData
  pub behind : Stream
  pub head : Head library s.incoming s.written parsed behind
  pub path : Bytes
  pub path_is : IsRequest parsed.first_line path
  pub key : Bytes
  pub key_is : IsEntry (bytes_of "sec-websocket-key") key parsed.headers
  pub target : WebsocketServerTarget
  pub first : First path parsed.headers targets target
  pub response : Bytes
  pub answers : Answers library parsed.headers key response
  pub in_buffer : length (unparsed_data parsed.line_reader) ≤ 16384
  pub inner : TcpServerSetupResult
  pub handled :
      target.handler
        (unparsed_data parsed.line_reader)
        (record behind { written = behind.written ++ response })
      ≡ ok inner s'
  pub completed : Completes target.override_proxy_provider inner result

run_target-ran :
    (library : Library) (headers : Headers) (key unparsed : Bytes) (target : WebsocketServerTarget)
    (s s' : Stream) (result : TcpServerSetupResult)
    → run_target library headers key unparsed target s ≡ ok result s'
    → (inner : TcpServerSetupResult) × (target.handler unparsed
          (record s { written = s.written ++ http_response library headers key })
        ≡ ok inner s')
      × (result ≡ finish target.override_proxy_provider inner)
      × (length unparsed ≤ 16384)
run_target-ran library headers key unparsed target s s' result e =
    let s1 : Stream = record s { written = s.written ++ http_response library headers key } in
    let room = if leb (length unparsed) 16384 then some unparsed else none in
    let (inner, t, ran, done) =
      bind-eq-ok (expect room >>= target.handler)
        (λ inner. pure (finish target.override_proxy_provider inner)) s1 s' result e in
    let (passed, u, fits_in, handled) = bind-eq-ok (expect room) target.handler s1 t inner ran in
    let (is_room, same) = expect-eq-ok room s1 u passed fits_in in
    let (finished, same') =
      pure-eq-ok (finish target.override_proxy_provider inner) result t s' done in
    let (fits, whole) = taken_is (leb (length unparsed) 16384) unparsed passed is_room in
    (
      inner,
      ap (λ (x : Bytes). target.handler x s1) whole
          ∙ ap (target.handler passed) same
          ∙ handled
          ∙ ap (ok inner) same',
      sym finished,
      ground (arith, fits),
    )

-- Whenever the WebSocket server handler returns with success, the bytes to come begin with the lines
-- of a head, none of them blank, and a blank line behind them: a line with `GET`, a path and a version,
-- and lines that have a name before their first colon and a value behind it, of which the last with a
-- name counts. The head has a key. The target taken is the first one, in their order, whose path, if
-- it has one, is that path and whose headers, if it has some, stand in the request, the key not
-- counted among them. Its handler ran on what stands behind the head, of which at most 16384 bytes were
-- read before, after the response was written, and nothing before that. The response repeats the
-- request's `host` and `sec-websocket_version`, and accepts it by the BASE64 of the SHA-1 of the
-- key and the GUID of WebSocket. The result is what that handler returned, but where it forwards, with
-- an initial flush, and with the target's own proxies where it leaves them open. Conditions: the buffer
-- of the line reader has its 32768 bytes, and `memchr` finds the first of the bytes it is asked for.
pub setup_server_stream-Chosen :
    (library : Library) (below : Below) (finds : Finds below) (buf : Bytes)
    → length buf ≡ 32768
    → (targets : List WebsocketServerTarget) (s s' : Stream) (result : TcpServerSetupResult)
    → setup_server_stream library below buf targets s ≡ ok result s'
    → Chosen library targets s s' result
unfolding setup_server_stream
setup_server_stream-Chosen library below finds buf size targets s s' result e =
    let with_key = λ (p : ParsedHttpData) (path key : Bytes).
      or_other "No matching websocket targets"
        (find_target path (remove key_name p.headers) targets)
      >>= run_target library (remove key_name p.headers) key (unparsed_data p.line_reader) in
    let with_path = λ (p : ParsedHttpData) (path : Bytes).
      or_other "missing websocket key header" (get key_name p.headers) >>= with_key p path in
    let with_head = λ (p : ParsedHttpData). request_path_of p.first_line >>= with_path p in
    let (parsed, s1, head, e1) = bind-eq-ok (parse library below buf) with_head s s' result e in
    let (path, s2, path_is, e2) =
      bind-eq-ok (request_path_of parsed.first_line) (with_path parsed) s1 s' result e1 in
    let (key, s3, has_key, e3) =
      bind-eq-ok (or_other "missing websocket key header" (get key_name parsed.headers))
        (with_key parsed path) s2 s' result e2 in
    let headers = remove key_name parsed.headers in
    let (target, s4, found, e4) =
      bind-eq-ok (or_other "No matching websocket targets" (find_target path headers targets))
        (run_target library headers key (unparsed_data parsed.line_reader)) s3 s' result e3 in
    let (key_is, same3) =
      or_other-eq-ok "missing websocket key header" (get key_name parsed.headers) s2 s3 key
        has_key in
    let (target_is, same4) =
      or_other-eq-ok "No matching websocket targets" (find_target path headers targets) s3 s4 target
        found in
    let (is_request, same2) = request_path_of-IsRequest parsed.first_line path s1 s2 path_is in
    let back : s4 ≡ s1 = sym (same2 ∙ same3 ∙ same4) in
    let (inner, handled, finished, fits) =
      run_target-ran library headers key (unparsed_data parsed.line_reader) target s1 s' result (
        ap (run_target library headers key (unparsed_data parsed.line_reader) target) (sym back)
        ∙ e4) in
    let provider = target.override_proxy_provider in
    record {
      parsed = parsed;
      behind = s1;
      head =
          subst
            (λ (o : Outcome ParsedHttpData). Post (λ p t. Head library s.incoming s.written p t) o)
            head (parse-Head library below finds buf size s);
      path = path;
      path_is = is_request;
      key = key;
      key_is = get-IsEntry key_name key parsed.headers key_is;
      target = target;
      first = find_target-First path parsed.headers targets target target_is;
      response = http_response library headers key;
      answers = http_response-Answers library parsed.headers key;
      in_buffer = fits;
      inner = inner;
      handled = handled;
      completed = subst (Completes provider inner) (sym finished) (finish-Completes provider inner);
    }
