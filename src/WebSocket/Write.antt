-- ===== src/WebSocket/Write.antt =====
-- `poll_write`, `poll_flush` and `poll_write_ping` of `WebsocketStream` of
-- `src/websocket/websocket_stream.rs`.
use shoes_on_shuttle.Common.{
  ℕ, zero, suc, Bool, true, false, Bytes, drop, length, ◌+◌, ◌==◌, if◌then◌else◌, ltb, leb,
}
use shoes_on_shuttle.Stream.{Result, success, failure}
use shoes_on_shuttle.Poll.{Poll, ready, pending, poll_flush}
use shoes_on_shuttle.WebSocket.Types.{WebsocketStream, WebsocketPingType}
use shoes_on_shuttle.WebSocket.Encode.{
  do_write_frame, pack_write_frame, pack_write_pong_frame, pack_write_ping_frame,
  pack_write_empty_frame,
}

-- What a `poll_…` function returns, with the stream after it. `panic` is its assertion or its `panic!`.
pub data Polled {ℓ} (A : Type ℓ) : Type ℓ where
  returned : Result (Poll A) → WebsocketStream → Polled A
  panic : Polled A
  out_of_fuel : Polled A

-- The end of `poll_write`.
abbrev pub total_written : ℕ → WebsocketStream → Polled ℕ
total_written written s = returned (success (if ltb 0 written then ready written else pending)) s

-- The body of the loop of `poll_write` behind `do_write_frame`.
abbrev pub after_write :
    (WebsocketStream → Polled ℕ) → ℕ → Result (Unit {0}) × WebsocketStream → Polled ℕ
after_write again written (failure e, s) = returned (failure e) s
after_write again written (success _, s) =
    if ltb 0 s.write_frame_end_offset then total_written written s else again s

-- The loop of `poll_write`. Each round but the first two packs a byte or ends.
unfoldable pub write_input : (ℕ → Bytes) → Bytes → ℕ → ℕ → WebsocketStream → Polled ℕ
unfolding do_write_frame pack_write_frame
write_input rng buf zero written s = out_of_fuel
write_input rng buf (suc fuel) written s =
    let input = drop written buf in
    let (packed, s') = pack_write_frame rng input s in
    if leb (length buf) written
    then total_written written s
    else after_write (λ t. write_input rng buf fuel (written + packed) t) (written + packed)
        (do_write_frame s')

abbrev pub not_pending : WebsocketStream → WebsocketStream
not_pending s = record s { pending_write_pong = false }

-- The second attempt to pack a pong, behind `do_write_frame`.
abbrev pub retry_pong :
    (ℕ → Bytes) → (WebsocketStream → Polled ℕ) → Result (Unit {0}) × WebsocketStream → Polled ℕ
retry_pong rng next (failure e, s) = returned (failure e) s
retry_pong rng next (success _, s) =
    let (packed, s') = pack_write_pong_frame rng s in
    if packed then next (not_pending s') else returned (success pending) s'

unfoldable pub poll_write : (ℕ → Bytes) → Bytes → WebsocketStream → Polled ℕ
unfolding write_input do_write_frame pack_write_pong_frame
poll_write rng buf s =
    let write = write_input rng buf (suc (suc (length buf))) 0 in
    let (packed, s') = pack_write_pong_frame rng s in
    if s.pending_write_pong
    then if packed then write (not_pending s') else retry_pong rng write (do_write_frame s')
    else write s

-- `poll_flush` of the stream below.
abbrev pub below_flushed : WebsocketStream → Result (Poll (Unit {0})) × WebsocketStream
below_flushed s = let (result, peer) = poll_flush s.stream in (result, record s { stream = peer })

-- The body of the loop of `poll_flush`: it runs at most once, since it goes on only with an empty
-- frame.
abbrev pub flush_written :
    Result (Unit {0}) × WebsocketStream → Result (Poll (Unit {0})) × WebsocketStream
flush_written (failure e, s) = (failure e, s)
flush_written (success _, s) =
    if ltb 0 s.write_frame_end_offset then (success pending, s) else below_flushed s

unfoldable pub flush_frame : WebsocketStream → Result (Poll (Unit {0})) × WebsocketStream
unfolding do_write_frame
flush_frame s =
    if s.write_frame_end_offset == 0 then below_flushed s else flush_written (do_write_frame s)

abbrev is_enabled : WebsocketPingType → Bool
is_enabled WebsocketPingType.disabled = false
is_enabled _ = true

abbrev pub supports_ping : WebsocketStream → Bool
supports_ping s = is_enabled s.ping_type

-- `assert!(written)`.
abbrev pub assert_written : Bool × WebsocketStream → Polled Bool
assert_written (true, s) = returned (success (ready true)) s
assert_written (false, s) = panic

abbrev pub write_ping_type : (ℕ → Bytes) → WebsocketPingType → WebsocketStream → Polled Bool
write_ping_type rng WebsocketPingType.ping_frame s = assert_written (pack_write_ping_frame rng s)
write_ping_type rng WebsocketPingType.empty_frame s = assert_written (pack_write_empty_frame rng s)
write_ping_type rng WebsocketPingType.disabled s = panic

unfoldable pub poll_write_ping : (ℕ → Bytes) → WebsocketStream → Polled Bool
unfolding pack_write_pong_frame pack_write_ping_frame pack_write_empty_frame
poll_write_ping rng s =
    let (packed, s') = pack_write_pong_frame rng s in
    if s.pending_write_pong
    then if packed
      then returned (success (ready true)) (not_pending s')
      else returned (success (ready false)) s'
    else if ltb 0 s.write_frame_end_offset
    then returned (success (ready false)) s
    else write_ping_type rng s.ping_type s
