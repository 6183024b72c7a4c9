-- ===== src/WebSocket/Decode.antt =====
-- The steps by which `WebsocketStream` of `src/websocket/websocket_stream.rs` takes the head of frames.
-- The source's steps end by calling the next one, `step_init` in the end again: `again` is that last
-- call, on one unit of fuel less.
use shoes_on_shuttle.Net.Types.{be_number}
use shoes_on_shuttle.Common.{
  not, ◌&&◌, leb, Bool, false, suc, ◌%◌, ltb, true, ◌==◌, if◌then◌else◌, length, ℕ, zero,
}
use shoes_on_shuttle.WebSocket.Types.{
  read_binary_content, skip_content, OpCode, op_code_from, read_ping_content, init, advance,
  ReadState, unprocessed_len,
}
use shoes_on_shuttle.WebSocket.Content.{
  failed, enter, byte_ahead, with_ws, bytes_ahead, step_read_ping_content, step_skip_content, done,
  step_read_binary_content, out_of_fuel, Pull,
}

-- The arms of `match self.read_frame_opcode`.
unfoldable pub check_data : Pull → Pull
unfolding step_read_binary_content
check_data again r =
    if r.ws.read_frame_length == 0
    then again (with_ws (enter init) r)
    else step_read_binary_content again (with_ws (enter read_binary_content) r)

unfoldable pub check_ping : Pull → Pull
unfolding step_read_ping_content
check_ping again r =
    let reset = with_ws (λ s. record s { ping_data_size = 0 }) r in
    if r.ws.read_frame_length == 0
    then again (with_ws (λ s. record s { read_state = init; pending_write_pong = true }) reset)
    else if ltb (length r.ws.ping_data) r.ws.read_frame_length
    then failed "cannot handle ping data length" reset
    else step_read_ping_content again (
        with_ws (λ s. record s { read_state = read_ping_content; pending_write_pong = false })
          reset)

unfoldable pub check_pong : Pull → Pull
check_pong again r =
    if r.ws.read_frame_length == 0
    then again (with_ws (enter init) r)
    else failed "unexpected pong data length" r

unfoldable pub check_other : Pull → Pull
unfolding step_skip_content
check_other again r =
    if r.ws.read_frame_length == 0
    then again (with_ws (enter init) r)
    else step_skip_content again (with_ws (enter skip_content) r)

abbrev pub check_content : OpCode → Pull → Pull
check_content OpCode.binary again r = check_data again r
check_content OpCode.continue again r = check_data again r
check_content OpCode.ping again r = check_ping again r
check_content OpCode.pong again r = check_pong again r
check_content OpCode.text again r = check_other again r
check_content OpCode.close again r = check_other again r
check_content (OpCode.unknown code) again r = check_other again r

unfoldable pub step_check_content : Pull → Pull
unfolding check_data check_ping check_pong check_other
step_check_content again r = check_content r.ws.read_frame_opcode again r

unfoldable pub step_read_mask : Pull → Pull
unfolding advance step_check_content
step_read_mask again r =
    if ltb (unprocessed_len r.ws) 4
    then done r
    else step_check_content again
        (with_ws (λ s. record (advance 4 s) { read_frame_mask = bytes_ahead s 4 }) r)

-- What follows the length, in `step_init` and in `step_read_length`.
unfoldable pub after_length : Pull → Pull
unfolding step_read_mask step_check_content
after_length again r =
    if r.ws.read_frame_masked
    then step_read_mask again (with_ws (enter ReadState.read_mask) r)
    else step_check_content again r

unfoldable pub step_read_length : Pull → ℕ → Pull
unfolding advance after_length
step_read_length again length_bytes_len r =
    let length = be_number (bytes_ahead r.ws length_bytes_len) 0 in
    let read =
      with_ws (λ s. record (advance length_bytes_len s) { read_frame_length = length }) r in
    if ltb (unprocessed_len r.ws) length_bytes_len
    then done r
    else if ltb 0x7fffffffffffffff length
    then failed "Invalid frame length" read
    else after_length again read

-- `step_init` behind the first two bytes of a frame.
abbrev pub is_data : OpCode → Bool
is_data OpCode.binary = true
is_data OpCode.continue = true
is_data _ = false

unfoldable pub start_length : Pull → ℕ → Pull
unfolding step_read_length after_length
start_length again length r =
    if length == 126
    then step_read_length again 2 (with_ws (enter (ReadState.read_length 2)) r)
    else if length == 127
    then step_read_length again 8 (with_ws (enter (ReadState.read_length 8)) r)
    else after_length again (with_ws (λ s. record s { read_frame_length = length }) r)

unfoldable pub start_frame : Pull → ℕ → ℕ → Pull
unfolding start_length
start_frame again first second r =
    let opcode = op_code_from (first % 16) in
    let started =
      with_ws (λ s. record s { read_frame_masked = leb 128 second; read_frame_opcode = opcode })
        r in
    if ltb first 128 && not (is_data opcode)
    then failed "cannot handle non-final frames of type" started
    else start_length again (second % 128) started

unfoldable pub step_init : ℕ → Pull
unfolding advance start_frame
step_init zero r = out_of_fuel
step_init (suc fuel) r =
    if ltb (unprocessed_len r.ws) 2
    then done r
    else start_frame (step_init fuel) (byte_ahead r.ws 0) (byte_ahead r.ws 1)
        (with_ws (advance 2) r)
