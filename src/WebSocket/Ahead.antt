-- ===== src/WebSocket/Ahead.antt =====
-- The unprocessed data of `WebsocketStream` of `src/websocket/websocket_stream.rs`, as a list of bytes.
use shoes_on_shuttle.Common.Holds.{Holds, Holds-drop, Holds-length, drop-all}
use shoes_on_shuttle.Common.{
  Bool-cases, inl, inr, if◌then◌else◌, ◌==◌, ◌+◌, length, drop, ◌≤◌, ℕ, Bytes, sym, arith,
}
use shoes_on_shuttle.WebSocket.Types.{advance, WebsocketStream}

abbrev pub Ahead : WebsocketStream → Bytes → Type 0
Ahead s bytes = Holds s.unprocessed_buf s.unprocessed_start_offset s.unprocessed_end_offset bytes

pub advance-Ahead :
    (n : ℕ) (s : WebsocketStream) (bytes : Bytes)
    → Ahead s bytes
    → n ≤ length bytes
    → Ahead (advance n s) (drop n bytes)
unfolding advance
advance-Ahead n s bytes h l =
    let start = s.unprocessed_start_offset in
    let end = s.unprocessed_end_offset in
    let size = Holds-length s.unprocessed_buf start end bytes h in
    elim (Bool-cases (start + n == end)) [
      | inl all ↦
          rw (all, if◌then◌else◌)
            (record {
              ordered = omega arith;
              in_buf = omega arith;
              same = sym (drop-all n bytes (ground (arith, size)));
            })
      | inr some_left ↦
          rw (some_left, if◌then◌else◌) (Holds-drop s.unprocessed_buf start end bytes h n l)
    ]
