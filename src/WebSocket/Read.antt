-- ===== src/WebSocket/Read.antt =====
-- `poll_read` of `WebsocketStream` of `src/websocket/websocket_stream.rs`.
use shoes_on_shuttle.Common.{
  ℕ, zero, suc, Bool, true, false, Option, none, some, Bytes, [], ◌∷◌, length, ◌+◌, ◌-◌, ◌&&◌,
  if◌then◌else◌, ltb, leb, splice, ◌*◌,
}
use shoes_on_shuttle.Stream.{Result, success, failure, ErrorKind}
use shoes_on_shuttle.Poll.{Poll, ready, pending, poll_read}
use shoes_on_shuttle.WebSocket.Types.{WebsocketStream, ReadState, unprocessed, unprocessed_len}
use shoes_on_shuttle.WebSocket.Content.{
  Reading, Pull, Pulled, with_ws, step_skip_content, step_read_ping_content,
  step_read_binary_content,
}
use shoes_on_shuttle.WebSocket.Decode.{step_init, step_read_length, step_read_mask}

-- What `poll_read` returns, with the stream and the `ReadBuf` of the caller after it.
pub data PolledRead : Type 0 where
  returned : Result (Poll (Unit {0})) → Reading → PolledRead
  panic : PolledRead
  out_of_fuel : PolledRead

-- `None` is the failed assertion.
unfoldable pub reset_unprocessed_buf_offset : WebsocketStream → Option WebsocketStream
reset_unprocessed_buf_offset s =
    if ltb 0 s.unprocessed_start_offset && ltb s.unprocessed_start_offset s.unprocessed_end_offset
    then some (record s {
      unprocessed_buf = splice s.unprocessed_buf 0 (unprocessed s);
      unprocessed_start_offset = 0;
      unprocessed_end_offset = unprocessed_len s;
    })
    else none

-- The steps run with as much fuel as there is to process, which is enough.
abbrev pub run_state : ReadState → Pull
run_state ReadState.init r = step_init (suc (unprocessed_len r.ws)) r
run_state (ReadState.read_length n) r =
    step_read_length (step_init (suc (unprocessed_len r.ws))) n r
run_state ReadState.read_mask r = step_read_mask (step_init (suc (unprocessed_len r.ws))) r
run_state ReadState.skip_content r = step_skip_content (step_init (suc (unprocessed_len r.ws))) r
run_state ReadState.read_binary_content r =
    step_read_binary_content (step_init (suc (unprocessed_len r.ws))) r
run_state ReadState.read_ping_content r =
    step_read_ping_content (step_init (suc (unprocessed_len r.ws))) r

-- `match this.read_state`.
unfoldable pub run_steps : Pull
unfolding step_init step_read_length step_read_mask step_skip_content step_read_binary_content
    step_read_ping_content
run_steps r = run_state r.ws.read_state r

-- The end of the loop, behind the steps. All errors of the steps are of the kind `Other`.
abbrev pub after_steps : (Reading → PolledRead) → Pulled → PolledRead
after_steps again (Pulled.done r) =
    if ltb 0 (length r.filled) then returned (success (ready tt)) r else again r
after_steps again (Pulled.failed message r) =
    returned (failure (record { kind = ErrorKind.other; message = message })) r
after_steps again Pulled.panic = panic
after_steps again Pulled.out_of_fuel = out_of_fuel

-- `poll_read` of the stream below has answered.
abbrev pub on_read : (Reading → PolledRead) → Result (Poll Bytes) → Reading → PolledRead
on_read again (success pending) r = returned (success pending) r
on_read again (failure e) r = returned (failure e) r
on_read again (success (ready [])) r = returned (success (ready tt)) r
on_read again (success (ready (x ∷ bytes))) r =
    let came =
      with_ws
        (λ s. record s {
          unprocessed_buf = splice s.unprocessed_buf s.unprocessed_end_offset (x ∷ bytes);
          unprocessed_end_offset = s.unprocessed_end_offset + length (x ∷ bytes);
        })
        r in
    after_steps again (run_steps came)

-- The middle of the loop: the initial data, or a read from the stream below.
unfoldable pub pull_more : (Reading → PolledRead) → Reading → PolledRead
unfolding run_steps
pull_more again r =
    let s = r.ws in
    let (result, peer) = poll_read (length s.unprocessed_buf - s.unprocessed_end_offset) s.stream in
    if s.pending_initial_data
    then after_steps again (run_steps (with_ws (λ s. record s { pending_initial_data = false }) r))
    else if leb (length s.unprocessed_buf) s.unprocessed_start_offset
    then panic
    else on_read again result (with_ws (λ s. record s { stream = peer }) r)

abbrev pub after_reset : (Reading → PolledRead) → Reading → Option WebsocketStream → PolledRead
after_reset again r none = panic
after_reset again r (some s) = pull_more again (record r { ws = s })

unfoldable pub read_loop : ℕ → Reading → PolledRead
unfolding pull_more reset_unprocessed_buf_offset
read_loop zero r = out_of_fuel
read_loop (suc fuel) r =
    if ltb (length r.ws.unprocessed_buf) (r.ws.unprocessed_start_offset * 2)
    then after_reset (read_loop fuel) r (reset_unprocessed_buf_offset r.ws)
    else pull_more (read_loop fuel) r

abbrev pub reads_content : ReadState → Bool
reads_content ReadState.read_binary_content = true
reads_content _ = false

-- `assert!(buf.filled().len() > 0)`.
abbrev pub assert_filled : Pulled → PolledRead
assert_filled (Pulled.done r) =
    if ltb 0 (length r.filled) then returned (success (ready tt)) r else panic
assert_filled p = after_steps (λ r. panic) p

unfoldable pub poll_frames : ℕ → Reading → PolledRead
unfolding read_loop run_steps
poll_frames fuel r =
    if ltb 0 r.ws.unprocessed_end_offset && reads_content r.ws.read_state
    then assert_filled (run_steps r)
    else read_loop fuel r
