-- ===== src/WebSocket/Encode.antt =====
-- The side of `WebsocketStream` of `src/websocket/websocket_stream.rs` that writes: `AsyncWrite` and
-- `AsyncPing`. The argument `rng` is `rand::thread_rng`: `rng n` is the mask that the draw number `n`
-- of the stream fills.
use shoes_on_shuttle.Common.{
  ℕ, Bool, true, false, Option, none, some, List, Bytes, [], ◌∷◌, drop, take, length, ◌+◌, ◌-◌,
  ◌==◌, if◌then◌else◌, ltb, min, splice,
}
use shoes_on_shuttle.Stream.{Result, success, failure, ErrorKind}
use shoes_on_shuttle.Poll.{Poll, ready, pending, poll_write, WriteAnswer}
use shoes_on_shuttle.WebSocket.Types.{WebsocketStream}
use shoes_on_shuttle.WebSocket.Frame.{pack_frame}

-- `use_mask` is `is_client`.
abbrev pub drawn_mask : (ℕ → Bytes) → WebsocketStream → Option Bytes
drawn_mask rng s = if s.is_client then some (rng s.draws) else none

-- `pack_frame` into the rest of `write_frame`, and `write_frame_end_offset += written`.
unfoldable pub append_frame : (ℕ → Bytes) → ℕ → Bytes → WebsocketStream → WebsocketStream
unfolding pack_frame
append_frame rng opcode input s =
    let frame = pack_frame opcode (drawn_mask rng s) input in
    record s {
      write_frame = splice s.write_frame s.write_frame_end_offset frame;
      write_frame_end_offset = s.write_frame_end_offset + length frame;
      draws = if s.is_client then s.draws + 1 else s.draws;
    }

abbrev pub available_space : WebsocketStream → ℕ
available_space s = length s.write_frame - s.write_frame_end_offset

unfoldable pub pack_write_ping_frame : (ℕ → Bytes) → WebsocketStream → Bool × WebsocketStream
unfolding append_frame
pack_write_ping_frame rng s =
    if ltb (available_space s) 6 then (false, s) else (true, append_frame rng 0x09 [] s)

unfoldable pub pack_write_empty_frame : (ℕ → Bytes) → WebsocketStream → Bool × WebsocketStream
unfolding append_frame
pack_write_empty_frame rng s =
    if ltb (available_space s) 6 then (false, s) else (true, append_frame rng 0x02 [] s)

unfoldable pub pack_write_pong_frame : (ℕ → Bytes) → WebsocketStream → Bool × WebsocketStream
unfolding append_frame
pack_write_pong_frame rng s =
    if ltb (available_space s) (s.ping_data_size + 14)
    then (false, s)
    else (true, append_frame rng 0x0a (take s.ping_data_size s.ping_data) s)

unfoldable pub pack_write_frame : (ℕ → Bytes) → Bytes → WebsocketStream → ℕ × WebsocketStream
unfolding append_frame
pack_write_frame rng input s =
    let pack_amount = min (length input) (available_space s - 14) in
    if ltb (available_space s) 40
    then (0, s)
    else (pack_amount, append_frame rng 0x02 (take pack_amount input) s)

-- `write_frame[write_frame_start_offset..write_frame_end_offset]`.
abbrev pub remaining_data : WebsocketStream → Bytes
remaining_data s =
    take (s.write_frame_end_offset - s.write_frame_start_offset)
      (drop s.write_frame_start_offset s.write_frame)

-- `write_frame_start_offset += written`, and both offsets back to 0 at the end.
unfoldable pub frame_written : ℕ → WebsocketStream → WebsocketStream
frame_written written s =
    let start = s.write_frame_start_offset + written in
    let at_end = start == s.write_frame_end_offset in
    record s {
      write_frame_start_offset = if at_end then 0 else start;
      write_frame_end_offset = if at_end then 0 else s.write_frame_end_offset;
    }

-- The body of the loop on what `poll_write` has answered; `again` is the loop on what is left.
unfoldable pub on_written :
    (WebsocketStream → Result (Unit {0}) × WebsocketStream)
    → Result (Poll ℕ)
    → WebsocketStream
    → Result (Unit {0}) × WebsocketStream
unfolding frame_written
on_written again (success (ready written)) s =
    if written == 0
    then (failure (record { kind = ErrorKind.unexpected_eof; message = "write frame eof" }), s)
    else if s.write_frame_start_offset + written == s.write_frame_end_offset
    then (success tt, frame_written written s)
    else again (frame_written written s)
on_written again (success pending) s = (success tt, s)
on_written again (failure e) s = (failure e, s)

-- The loop ends at the last answer of the stream below, where `poll_write` is pending: it runs along
-- the answers that are left, the first argument.
unfoldable pub write_loop : List WriteAnswer → WebsocketStream → Result (Unit {0}) × WebsocketStream
unfolding on_written
write_loop [] s = (success tt, s)
write_loop (answer ∷ later) s =
    let (result, peer) = poll_write (remaining_data s) s.stream in
    on_written (write_loop later) result (record s { stream = peer })

unfoldable pub do_write_frame : WebsocketStream → Result (Unit {0}) × WebsocketStream
unfolding write_loop
do_write_frame s = write_loop s.stream.accepting s
