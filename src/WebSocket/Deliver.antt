-- ===== src/WebSocket/Deliver.antt =====
-- `poll_read` of `src/websocket/websocket_stream.rs` on frames that `pack_frame` has packed.
use shoes_on_shuttle.Common.Holds.{Holds-length}
use shoes_on_shuttle.WebSocket.Types.{
  started, init, WebsocketStream, WebsocketPingType, Buffers, unprocessed_len, ReadState,
}
use shoes_on_shuttle.WebSocket.Read.{
  reads_content, assert_filled, after_reset, reset_unprocessed_buf_offset, PolledRead, returned,
  run_steps, after_steps, pull_more, read_loop, poll_frames, run_state,
}
use shoes_on_shuttle.Common.Splice.{length-splice}
use shoes_on_shuttle.Common.{
  take_front, length-append, ℕ, suc, Bool, true, false, Bytes, [], ◌∷◌, ◌++◌, ◌∙◌, ap, refl, arith,
  length, ◌≡◌, ◌+◌, ◌-◌, ◌≤◌, ◌<◌, ◌&&◌, if◌then◌else◌, ltb, ◌*◌,
}
use shoes_on_shuttle.Stream.{success}
use shoes_on_shuttle.Poll.{ready, Peer}
use shoes_on_shuttle.WebSocket.Ahead.{Ahead}
use shoes_on_shuttle.WebSocket.Frame.{pack_frame}
use shoes_on_shuttle.WebSocket.Content.{Reading, done, with_ws}
use shoes_on_shuttle.WebSocket.Taken.{Between}
use shoes_on_shuttle.WebSocket.Roundtrip.{Frames, AreFrames, packed, payloads, step_init-packed}

pub record Delivers (p : PolledRead) (bytes filled : Bytes) (capacity : ℕ) : Type 0 where
  pub next : Reading
  pub delivered : p ≡ returned (success (ready tt)) next
  pub between : Between next bytes filled capacity

pub length-packed : (frames : Frames) → length frames ≤ length (packed frames)
unfolding pack_frame
length-packed [] = omega arith
length-packed ((key, payload) ∷ frames) =
    omega (arith, length-packed frames, length-append (pack_frame 2 key payload) (packed frames))

positive : (n : ℕ) → 0 < n → ltb 0 n ≡ true
positive n h = ground arith

module _ (again : Reading → PolledRead) (frames : Frames) (r : Reading) (filled : Bytes)
    (capacity : ℕ) (valid : AreFrames frames) where
  pub after_steps-packed :
      r.ws.read_state ≡ init
      → 0 < length filled + length (payloads frames)
      → length filled + length (payloads frames) ≤ capacity
      → Between r (packed frames) filled capacity
      → Delivers (after_steps again (run_steps r)) [] (filled ++ payloads frames) capacity
  unfolding run_steps
  after_steps-packed at_init some_bytes fits h =
      let fuel = suc (unprocessed_len r.ws) in
      let size =
        Holds-length r.ws.unprocessed_buf r.ws.unprocessed_start_offset r.ws.unprocessed_end_offset
          (packed frames) h.ahead in
      let taken =
        step_init-packed frames fuel r filled capacity valid
          (omega (arith, size, length-packed frames)) fits h in
      let count : length taken.next.filled ≡ length filled + length (payloads frames) =
        ap length taken.between.filled_so_far ∙ length-append filled (payloads frames) in
      let some_filled = positive (length taken.next.filled) (omega (arith, count, some_bytes)) in
      let runs : run_state r.ws.read_state r ≡ done taken.next =
        ap (λ (state : ReadState). run_state state r) at_init ∙ taken.goes in
      record {
        next = taken.next;
        delivered =
            ap (after_steps again) runs
            ∙ ap
                (λ (b : Bool).
                  if b then returned (success (ready tt)) taken.next else again taken.next)
                some_filled;
        between = taken.between;
      }

-- A stream at the start of a frame, with `bytes` from the handshake or with nothing unprocessed.
pub record Fresh (s : WebsocketStream) (bytes : Bytes) (initial : Bool) : Type 0 where
  pub at_init : s.read_state ≡ init
  pub offset : s.read_frame_mask_offset ≡ 0
  pub start : s.unprocessed_start_offset ≡ 0
  pub has_initial : s.pending_initial_data ≡ initial
  pub ahead : Ahead s bytes

pub started-Fresh :
    (buffers : Buffers) (stream : Peer) (is_client : Bool) (ping_type : WebsocketPingType)
    (bytes : Bytes)
    → length bytes ≤ length buffers.unprocessed
    → Fresh (started buffers stream is_client ping_type bytes) bytes (ltb 0 (length bytes))
unfolding started
started-Fresh buffers stream is_client ping_type bytes fits = record {
  at_init = refl;
  offset = refl;
  start = refl;
  has_initial = refl;
  ahead = record {
    ordered = omega arith;
    in_buf = omega (arith, length-splice buffers.unprocessed bytes 0 (omega arith));
    same = take_front (length bytes - 0) bytes _ (omega arith);
  };
}

and_false : (b : Bool) → (b && false) ≡ false
and_false true = refl
and_false false = refl

module _ (fuel : ℕ) (r : Reading) where
  pub enters_loop : r.ws.read_state ≡ init → poll_frames fuel r ≡ read_loop fuel r
  unfolding poll_frames
  enters_loop at_init =
      let tested : (ltb 0 r.ws.unprocessed_end_offset && reads_content r.ws.read_state) ≡ false =
        ap (λ (state : ReadState). ltb 0 r.ws.unprocessed_end_offset && reads_content state) at_init
        ∙ and_false (ltb 0 r.ws.unprocessed_end_offset) in
      ap (λ (b : Bool). if b then assert_filled (run_steps r) else read_loop fuel r) tested

  pub keeps_offset :
      r.ws.unprocessed_start_offset ≡ 0 → read_loop (suc fuel) r ≡ pull_more (read_loop fuel) r
  unfolding read_loop
  keeps_offset start =
      let tested : ltb (length r.ws.unprocessed_buf) (r.ws.unprocessed_start_offset * 2) ≡ false =
        ground (arith, start) in
      ap
        (λ (b : Bool).
          if b
          then after_reset (read_loop fuel) r (reset_unprocessed_buf_offset r.ws)
          else pull_more (read_loop fuel) r)
        tested

module _ (frames : Frames) (s : WebsocketStream) (capacity fuel : ℕ) (valid : AreFrames frames)
    (some_bytes : 0 < length (payloads frames)) (fits : length (payloads frames) ≤ capacity) where
  -- A poll of a stream whose initial data are packed data frames returns at once with the payloads in
  -- their order, and leaves nothing unprocessed, whatever the stream below does. Conditions: the frames
  -- are well-formed, there is a byte of payload, and the caller, who has none yet, has room for all.
  pub poll_frames-initial :
      Fresh s (packed frames) true
      → Delivers
          (poll_frames (suc fuel) (record { ws = s; filled = []; capacity = capacity }))
          []
          (payloads frames)
          capacity
  unfolding pull_more
  poll_frames-initial f =
      let r : Reading = record { ws = s; filled = []; capacity = capacity } in
      let r' : Reading = with_ws (λ s. record s { pending_initial_data = false }) r in
      let h : Between r' (packed frames) [] capacity = record {
        ahead = f.ahead;
        offset = f.offset;
        filled_so_far = refl;
        same_capacity = refl;
      } in
      let steps =
        after_steps-packed (read_loop fuel) frames r' [] capacity valid f.at_init
          (omega (arith, some_bytes)) (omega (arith, fits)) h in
      let initial : pull_more (read_loop fuel) r ≡ after_steps (read_loop fuel) (run_steps r') =
        rw (f.has_initial, if◌then◌else◌) refl in
      record {
        next = steps.next;
        delivered =
            enters_loop (suc fuel) r f.at_init
            ∙ keeps_offset fuel r f.start
            ∙ initial
            ∙ steps.delivered;
        between = steps.between;
      }
