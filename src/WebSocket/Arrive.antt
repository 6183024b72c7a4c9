-- ===== src/WebSocket/Arrive.antt =====
-- A read of `poll_read` of `src/websocket/websocket_stream.rs` from the stream below.
use shoes_on_shuttle.Common.Holds.{Holds-append, Holds-length}
use shoes_on_shuttle.Common.{
  List, leb, take, drop, splice, ℕ, suc, Bool, true, false, Bytes, [], ◌∷◌, ◌∙◌, ap, refl, arith,
  length, ◌≡◌, ◌+◌, ◌-◌, ◌≤◌, ◌<◌, if◌then◌else◌,
}
use shoes_on_shuttle.Stream.{Result, success}
use shoes_on_shuttle.Poll.{arrived, ReadAnswer, Poll, poll_read, answer_read, ready, Peer}
use shoes_on_shuttle.WebSocket.Read.{
  on_read, PolledRead, run_steps, after_steps, pull_more, read_loop, poll_frames,
}
use shoes_on_shuttle.WebSocket.Types.{WebsocketStream}
use shoes_on_shuttle.WebSocket.Frame.{pack_frame}
use shoes_on_shuttle.WebSocket.Content.{Reading, with_ws}
use shoes_on_shuttle.WebSocket.Taken.{Between}
use shoes_on_shuttle.WebSocket.Roundtrip.{Frames, AreFrames, packed, payloads}
use shoes_on_shuttle.WebSocket.Deliver.{
  Delivers, Fresh, length-packed, enters_loop, keeps_offset, after_steps-packed,
}

abbrev came : Bytes → Reading → Reading
came bytes r =
    with_ws
      (λ s. record s {
        unprocessed_buf = splice s.unprocessed_buf s.unprocessed_end_offset bytes;
        unprocessed_end_offset = s.unprocessed_end_offset + length bytes;
      })
      r

on_read_some :
    (again : Reading → PolledRead) (bytes : Bytes) (r : Reading)
    → 0 < length bytes
    → on_read again (success (ready bytes)) r ≡ after_steps again (run_steps (came bytes r))
on_read_some again [] r h = absurd (omega arith)
on_read_some again (x ∷ bytes) r h = refl

poll_read_arrived :
    (bytes : Bytes) (later : List ReadAnswer) (room : ℕ) (p : Peer)
    → p.arriving ≡ arrived bytes ∷ later
    → length bytes ≤ room
    → poll_read room p ≡ (success (ready bytes), record p { arriving = later })
poll_read_arrived bytes later room p e fits =
    let enough : leb (length bytes) room ≡ true = ground arith in
    ap (λ (answers : List ReadAnswer). answer_read answers room p) e
    ∙ ap
        (λ (b : Bool). if b then (success (ready bytes), record p { arriving = later }) else (
          success (ready (take room bytes)),
          record p { arriving = arrived (drop room bytes) ∷ later },
        ))
        enough

above : (n m : ℕ) → m < n → leb n m ≡ false
above n m h = ground arith

payloads_below : (frames : Frames) → 0 < length (payloads frames) → 0 < length (packed frames)
unfolding pack_frame
payloads_below [] h = absurd (omega arith)
payloads_below ((key, payload) ∷ frames) h = omega (arith, length-packed ((key, payload) ∷ frames))

module _ (frames : Frames) (s : WebsocketStream) (later : List ReadAnswer) (capacity fuel : ℕ)
    (valid : AreFrames frames) (some_bytes : 0 < length (payloads frames))
    (fits : length (payloads frames) ≤ capacity) where
  -- A poll of a stream between two frames, with nothing unprocessed, to which packed data frames have
  -- come in one piece, returns with the payloads in their order and leaves nothing unprocessed.
  -- Conditions: the frames are well-formed and fit in the buffer, there is a byte of payload, and the
  -- caller, who has none yet, has room for all.
  pub poll_frames-arrived :
      Fresh s [] false
      → s.stream.arriving ≡ arrived (packed frames) ∷ later
      → length (packed frames) ≤ length s.unprocessed_buf
      → Delivers
          (poll_frames (suc fuel) (record { ws = s; filled = []; capacity = capacity }))
          []
          (payloads frames)
          capacity
  unfolding pull_more
  poll_frames-arrived f arriving room =
      let bytes = packed frames in
      let end_0 : s.unprocessed_end_offset ≡ 0 = omega (
        arith,
        Holds-length s.unprocessed_buf s.unprocessed_start_offset s.unprocessed_end_offset []
            f.ahead,
        f.ahead.ordered,
        f.start,
      ) in
      let some_packed = payloads_below frames some_bytes in
      let space = length s.unprocessed_buf - s.unprocessed_end_offset in
      let peer : Peer = record s.stream { arriving = later } in
      let r : Reading = record { ws = s; filled = []; capacity = capacity } in
      let read : Reading = with_ws (λ s. record s { stream = peer }) r in
      let next = s.unprocessed_end_offset + length bytes in
      let h : Between (came bytes read) bytes [] capacity = record {
        ahead =
            Holds-append s.unprocessed_buf s.unprocessed_start_offset s.unprocessed_end_offset next
              [] bytes refl (omega (arith, end_0, room)) f.ahead;
        offset = f.offset;
        filled_so_far = refl;
        same_capacity = refl;
      } in
      let steps =
        after_steps-packed (read_loop fuel) frames (came bytes read) [] capacity valid f.at_init
          (omega (arith, some_bytes)) (omega (arith, fits)) h in
      let answer = poll_read_arrived bytes later space s.stream arriving (omega (arith, end_0)) in
      let in_buf : leb (length s.unprocessed_buf) s.unprocessed_start_offset ≡ false =
        above (length s.unprocessed_buf) s.unprocessed_start_offset
          (omega (arith, f.start, some_packed, room)) in
      let Then = λ (i p : Bool) (a : Result (Poll Bytes) × Peer).
        if i
        then after_steps (read_loop fuel)
            (run_steps (with_ws (λ s. record s { pending_initial_data = false }) r))
        else if p
        then PolledRead.panic
        else on_read (read_loop fuel) a.0 (with_ws (λ s. record s { stream = a.1 }) r) in
      let pulled : pull_more (read_loop fuel) r
          ≡ on_read (read_loop fuel) (success (ready bytes)) read =
        ap
          (λ (i : Bool).
            Then i (leb (length s.unprocessed_buf) s.unprocessed_start_offset)
              (poll_read space s.stream))
          f.has_initial
        ∙ ap (λ (p : Bool). Then false p (poll_read space s.stream)) in_buf
        ∙ ap (λ (a : Result (Poll Bytes) × Peer). Then false false a) answer in
      record {
        next = steps.next;
        delivered =
            enters_loop (suc fuel) r f.at_init
            ∙ keeps_offset fuel r f.start
            ∙ pulled
            ∙ on_read_some (read_loop fuel) bytes read some_packed
            ∙ steps.delivered;
        between = steps.between;
      }
