-- ===== src/WebSocket/Outbox.antt =====
-- What `WebsocketStream` of `src/websocket/websocket_stream.rs` still has to write, as bytes.
use shoes_on_shuttle.Poll.Sends.{written_by, answer_write-Sends, Sends}
use shoes_on_shuttle.Common.Holds.{take-drop, Holds, Holds-drop, Holds-length, drop-all}
use shoes_on_shuttle.Stream.{ErrorKind, Result, success, failure}
use shoes_on_shuttle.Common.{
  append_assoc, append-nil, ℕ, Bool, List, Bytes, [], ◌∷◌, ◌++◌, ◌∙◌, sym, ap, refl, arith, drop,
  take, length, ◌≡◌, ◌+◌, ◌≤◌, ◌==◌, if◌then◌else◌, inl, inr, Bool-cases,
}
use mathlib.Core.Path.{subst}
use shoes_on_shuttle.Poll.{Poll, ready, pending, Peer, poll_write, WriteAnswer}
use shoes_on_shuttle.WebSocket.Types.{WebsocketStream}
use shoes_on_shuttle.WebSocket.Encode.{
  remaining_data, frame_written, on_written, write_loop, do_write_frame,
}

abbrev pub Waiting : WebsocketStream → Bytes → Type 0
Waiting s bytes = Holds s.write_frame s.write_frame_start_offset s.write_frame_end_offset bytes

frame_written-Waiting :
    (n : ℕ) (s : WebsocketStream) (bytes : Bytes)
    → Waiting s bytes
    → n ≤ length bytes
    → Waiting (frame_written n s) (drop n bytes)
unfolding frame_written
frame_written-Waiting n s bytes h l =
    let start = s.write_frame_start_offset in
    let end = s.write_frame_end_offset in
    let size = Holds-length s.write_frame start end bytes h in
    elim (Bool-cases (start + n == end)) [
      | inl all ↦
          rw (all, if◌then◌else◌)
            (record {
              ordered = omega arith;
              in_buf = omega arith;
              same = sym (drop-all n bytes (ground (arith, size)));
            })
      | inr some_left ↦
          rw (some_left, if◌then◌else◌) (Holds-drop s.write_frame start end bytes h n l)
    ]

-- The frame buffer has its size, and what was sent with what waits in it is `total`.
pub record Outgoing (s : WebsocketStream) (total : Bytes) : Type 0 where
  pub size : length s.write_frame ≡ 32768
  pub rest : Bytes
  pub waiting : Waiting s rest
  pub total_is : s.stream.sent ++ rest ≡ total

nothing_sent :
    (s : WebsocketStream) (answer : Result (Poll ℕ) × Peer) (total : Bytes) (o : Outgoing s total)
    → Sends o.rest s.stream answer
    → written_by answer.0 ≡ 0
    → Outgoing (record s { stream = answer.1 }) total
nothing_sent s answer total o sends no_byte = record {
  size = o.size;
  rest = o.rest;
  waiting = o.waiting;
  total_is =
      ap (λ (b : Bytes). b ++ o.rest)
        (sends.sent_now
          ∙ ap (λ (k : ℕ). s.stream.sent ++ take k o.rest) no_byte
          ∙ append-nil s.stream.sent)
      ∙ o.total_is;
}

on_written-Outgoing :
    (again : WebsocketStream → Result (Unit {0}) × WebsocketStream) (s : WebsocketStream)
    (answer : Result (Poll ℕ) × Peer) (total : Bytes) (o : Outgoing s total)
    → ((t : WebsocketStream) → Outgoing t total → Outgoing (again t).1 total)
    → Sends o.rest s.stream answer
    → Outgoing (on_written again answer.0 (record s { stream = answer.1 })).1 total
unfolding on_written frame_written
on_written-Outgoing again s (success (ready n), peer) total o h sends =
    let s' : WebsocketStream = record s { stream = peer } in
    let t : WebsocketStream = frame_written n s' in
    let at_end = s.write_frame_start_offset + n == s.write_frame_end_offset in
    let moved : Outgoing t total = record {
      size = o.size;
      rest = drop n o.rest;
      waiting = frame_written-Waiting n s' o.rest o.waiting sends.some_of;
      total_is =
          ap (λ (b : Bytes). b ++ drop n o.rest) sends.sent_now
          ∙ append_assoc s.stream.sent (take n o.rest) (drop n o.rest)
          ∙ ap (◌++◌ s.stream.sent) (take-drop n o.rest)
          ∙ o.total_is;
    } in
    let Goal = λ (r : Result (Unit {0}) × WebsocketStream). Outgoing r.1 total in
    let after : Goal (if at_end then (success tt, t) else again t) = elim (Bool-cases at_end) [
      | inl whole ↦ subst (λ b. Goal (if b then (success tt, t) else again t)) (sym whole) moved
      | inr part ↦ subst (λ b. Goal (if b then (success tt, t) else again t)) (sym part) (h t moved)
    ] in
    let Fails = λ (b : Bool). Goal (
      if b
      then (failure (record { kind = ErrorKind.unexpected_eof; message = "write frame eof" }), s')
      else if at_end
      then (success tt, t)
      else again t) in
    elim (Bool-cases (n == 0)) [
      | inl stopped ↦
          subst Fails (sym stopped)
            (nothing_sent s (success (ready n), peer) total o sends (ground arith))
      | inr some_bytes ↦ subst Fails (sym some_bytes) after
    ]
on_written-Outgoing again s (success pending, peer) total o h sends =
    nothing_sent s (success pending, peer) total o sends refl
on_written-Outgoing again s (failure e, peer) total o h sends =
    nothing_sent s (failure e, peer) total o sends refl

write_loop-Outgoing :
    (answers : List WriteAnswer) (s : WebsocketStream) (total : Bytes)
    → Outgoing s total
    → Outgoing (write_loop answers s).1 total
unfolding write_loop
write_loop-Outgoing [] s total o = o
write_loop-Outgoing (answer ∷ later) s total o =
    let result = poll_write (remaining_data s) s.stream in
    let sends : Sends o.rest s.stream result =
      subst (λ (b : Bytes). Sends b s.stream result) o.waiting.same
        (answer_write-Sends s.stream.accepting (remaining_data s) s.stream) in
    on_written-Outgoing (write_loop later) s result total o (λ t. write_loop-Outgoing later t total)
      sends

-- `do_write_frame` loses and reorders nothing: what was sent, with what waits behind it, stays.
pub do_write_frame-Outgoing :
    (s : WebsocketStream) (total : Bytes) → Outgoing s total → Outgoing (do_write_frame s).1 total
unfolding do_write_frame
do_write_frame-Outgoing s total o = write_loop-Outgoing s.stream.accepting s total o
