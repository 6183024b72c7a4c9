-- ===== src/WebSocket/Pings.antt =====
-- Pings of `src/websocket/websocket_stream.rs`, and the pongs that answer them.
use shoes_on_shuttle.WebSocket.Frame.{pack_frame}
use shoes_on_shuttle.Poll.{ready}
use shoes_on_shuttle.Stream.{success}
use shoes_on_shuttle.WebSocket.Outbox.{Outgoing}
use shoes_on_shuttle.WebSocket.Accept.{length-pack_frame, drawn_mask-Key, append_frame-Outgoing}
use shoes_on_shuttle.WebSocket.Write.{poll_write_ping, returned, Polled, not_pending}
use shoes_on_shuttle.WebSocket.Encode.{
  drawn_mask, available_space, append_frame, pack_write_pong_frame,
}
use shoes_on_shuttle.Common.{
  if◌then◌else◌, length-take, take_front, ℕ, Bool, true, false, Bytes, ◌++◌, ◌∙◌, ap, refl, arith,
  take, length, ◌≡◌, ◌+◌, ◌-◌, ◌≤◌, ◌<◌, ◌==◌, ltb, min, splice,
}
use shoes_on_shuttle.WebSocket.Ahead.{Ahead}
use shoes_on_shuttle.WebSocket.Types.{WebsocketStream, init, unprocessed_len}
use shoes_on_shuttle.WebSocket.Content.{
  Reading, Pull, Pulled, unmasked_content, unmask_in_place, step_read_ping_content,
}
use shoes_on_shuttle.WebSocket.Taken.{Headed, size_ahead, unmasked, unmask_in_place-Ahead}

-- The reading goes on behind a ping, whose content is to be answered.
pub record Pinged (again : Pull) (p : Pulled) (answer bytes : Bytes) : Type 0 where
  pub next : Reading
  pub goes : p ≡ again next
  pub answer_is : take next.ws.ping_data_size next.ws.ping_data ≡ answer
  pub pong_pending : next.ws.pending_write_pong ≡ true
  pub ahead : Ahead next.ws bytes

-- When the whole content of a ping has come and is not empty, it is kept for the pong, unmasked, and
-- the reading of frames goes on with that same content, unmasked, still in front of what is
-- unprocessed. Conditions: the head of the ping was read, none of its content yet, the content is no
-- longer than the room for it, and the caller has room for as many bytes.
pub step_read_ping_content-all :
    (again : Pull) (r : Reading) (masked : Bool) (key payload rest : Bytes)
    → Headed r masked key payload rest
    → 0 < length payload
    → r.ws.ping_data_size ≡ 0
    → length payload ≤ length r.ws.ping_data
    → Pinged again (step_read_ping_content again r) payload (payload ++ rest)
unfolding step_read_ping_content
step_read_ping_content-all again r masked key payload rest h some_bytes no_data fits =
    let n = min (unprocessed_len r.ws) r.ws.read_frame_length in
    let size = size_ahead r masked key payload rest h in
    let amount : n ≡ length payload = omega (arith, size, h.whole_length) in
    let content = unmasked_content r.ws n in
    let same : content ≡ payload = unmasked r masked key payload rest h n amount in
    let any : (n == 0) ≡ false = ground (arith, amount) in
    let room : ltb (length r.ws.ping_data) (r.ws.ping_data_size + n) ≡ false =
      ground (arith, amount, no_data) in
    let none_left : (r.ws.read_frame_length - n == 0) ≡ true =
      ground (arith, amount, h.whole_length) in
    let whole : Reading = record r {
      ws = record (unmask_in_place n r.ws) {
        ping_data = splice r.ws.ping_data r.ws.ping_data_size content;
        ping_data_size = r.ws.ping_data_size + n;
        read_frame_length = r.ws.read_frame_length - n;
        read_frame_mask_offset = 0;
        read_state = init;
        pending_write_pong = true;
      };
    } in
    record {
      next = whole;
      goes = rw (any, if◌then◌else◌, room, none_left) refl;
      answer_is =
          ap (λ (k : ℕ). take (k + n) (splice r.ws.ping_data k content)) no_data
          ∙ take_front (0 + n) content _ (omega (arith, ap length same, amount))
          ∙ same;
      pong_pending = refl;
      ahead = unmask_in_place-Ahead r masked key payload rest h n amount;
    }

-- A ping call has packed `frame` behind what was outgoing, and no pong is pending.
pub record Packs (p : Polled Bool) (outgoing : Bytes) : Type 0 where
  pub after : WebsocketStream
  pub answered : p ≡ returned (success (ready true)) after
  pub outgoing_is : Outgoing after outgoing
  pub settled : after.pending_write_pong ≡ false

module _ (rng : ℕ → Bytes) (draws : (n : ℕ) → length (rng n) ≡ 4) (s : WebsocketStream)
    (total : Bytes) (o : Outgoing s total) where
  -- A ping call while a pong is pending packs one frame, a pong with the content of the ping, behind
  -- all that was outgoing, reports a write, and leaves no pong pending, if there is room for the
  -- content and 14 bytes, the masks are of four bytes, and the frame buffer has its 32768 bytes and its
  -- offsets in order.
  pub poll_write_ping-pong :
      s.pending_write_pong ≡ true
      → s.ping_data_size + 14 ≤ available_space s
      → Packs
          (poll_write_ping rng s)
          (total ++ pack_frame 0x0a (drawn_mask rng s) (take s.ping_data_size s.ping_data))
  unfolding poll_write_ping pack_write_pong_frame append_frame
  poll_write_ping-pong is_pending space =
      let answer : Bytes = take s.ping_data_size s.ping_data in
      let (fits, _) =
        length-pack_frame 0x0a (drawn_mask rng s) answer (drawn_mask-Key rng draws s) in
      let enough : ltb (available_space s) (s.ping_data_size + 14) ≡ false =
        ground (arith, space) in
      let size = length-take s.ping_data_size s.ping_data in
      let moved =
        append_frame-Outgoing rng draws 0x0a answer s total o (omega (arith, fits, space, size))
          (omega (arith, space)) in
      record {
        after = not_pending (append_frame rng 0x0a answer s);
        answered = rw (enough, if◌then◌else◌, is_pending) refl;
        outgoing_is = record {
          size = moved.size;
          rest = moved.rest;
          waiting = moved.waiting;
          total_is = moved.total_is;
        };
        settled = refl;
      }
