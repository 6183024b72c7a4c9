-- ===== src/Shadowsocks/Delivery.antt =====
-- `poll_read` of `src/shadowsocks/shadowsocks_stream.rs` on packets that come in one piece.
use shoes_on_shuttle.Shadowsocks.Batch.{
  decrypt_loop-packets, length-packets, key_after, payloads, ArePayloads, packets,
}
use shoes_on_shuttle.Common.Splice.{length-splice}
use shoes_on_shuttle.Common.{
  ℕ, suc, Bool, true, false, none, some, List, Bytes, [], ◌∷◌, ◌∙◌, ap, refl, arith, drop, take,
  length, ◌≡◌, ◌+◌, ◌-◌, ◌≤◌, ◌<◌, ◌==◌, ◌&&◌, if◌then◌else◌, ltb, leb, min, splice, not,
}
use shoes_on_shuttle.Stream.{Result, success}
use shoes_on_shuttle.Poll.{answer_read, Poll, ready, Peer, arrived, ReadAnswer}
use shoes_on_shuttle.Common.Holds.{Holds, Holds-length, Holds-append}
use shoes_on_shuttle.Shadowsocks.Types.{
  Cipher, BoundKey, ShadowsocksStream, available_len, max_payload_len,
}
use shoes_on_shuttle.Shadowsocks.Decrypt.{read_processed, reset_unprocessed_buf_offset}
use shoes_on_shuttle.Shadowsocks.Header.{process_read_header, Clock}
use shoes_on_shuttle.Shadowsocks.Read.{
  with_step, wait_header, PolledRead, returned, drained, decrypt_loop, make_room, after_reset,
  after_room, after_drain, drain, hand_over, read_more, on_read, read_loop, read_packets,
  poll_read_inner, to_come,
}
use shoes_on_shuttle.Shadowsocks.Packets.{Aead}
use shoes_on_shuttle.Shadowsocks.Roundtrip.{max_below, Between}

-- The stream has read the header, and stands between two packets with nothing left of what came.
pub record Idle (s : ShadowsocksStream) (k : BoundKey) : Type 0 where
  pub header_read : s.is_initial_read ≡ false
  pub not_eof : s.is_eof ≡ false
  pub has_key : s.opening_key ≡ some k
  pub no_pending : s.unprocessed_pending_len ≡ none
  pub unprocessed_start : s.unprocessed_start_offset ≡ 0
  pub unprocessed_end : s.unprocessed_end_offset ≡ 0
  pub processed_start : s.processed_start_offset ≡ 0
  pub processed_end : s.processed_end_offset ≡ 0

module _ (c : Cipher) (lawful : Aead c) (room : ℕ) where
  -- All that was processed is handed over.
  hand_over-all :
      (s : ShadowsocksStream) (bytes : Bytes)
      → Holds s.processed_buf s.processed_start_offset s.processed_end_offset bytes
      → 0 < length bytes
      → length bytes ≤ room
      → hand_over (read_processed room s)
        ≡ returned
            (success (ready bytes))
            (record s { processed_start_offset = 0; processed_end_offset = 0 })
  unfolding read_processed
  hand_over-all s bytes h some_byte fits =
      let start = s.processed_start_offset in
      let end = s.processed_end_offset in
      let amount = min room (end - start) in
      let size = Holds-length s.processed_buf start end bytes h in
      let whole : amount ≡ end - start = omega (arith, size, fits) in
      let test : (ltb 0 end && ltb 0 amount) ≡ true = ground (arith, whole, size, some_byte) in
      let ends : (start + amount == end) ≡ true = ground (arith, whole, h.ordered) in
      let at = λ (x : Bool). record s {
        processed_start_offset = if x then 0 else start + amount;
        processed_end_offset = if x then 0 else end;
      } in
      let out =
        λ (b : Bytes) (x : Bool) (y : Bool). hand_over (if y then some (b, at x) else none) in
      ap (out (take amount (drop start s.processed_buf)) (start + amount == end)) test
      ∙ ap (λ (x : Bool). out (take amount (drop start s.processed_buf)) x true) ends
      ∙ ap (λ (n : ℕ). out (take n (drop start s.processed_buf)) true true) whole
      ∙ ap (λ (b : Bytes). out b true true) h.same

  on_read-bytes :
      (at_eof at_bytes : ShadowsocksStream → PolledRead) (bytes : Bytes) (s : ShadowsocksStream)
      → 0 < length bytes
      → on_read at_eof at_bytes (success (ready bytes)) s
        ≡ at_bytes (record s {
          unprocessed_buf = splice s.unprocessed_buf s.unprocessed_end_offset bytes;
          unprocessed_end_offset = s.unprocessed_end_offset + length bytes;
        })
  on_read-bytes at_eof at_bytes [] s l = absurd (omega arith)
  on_read-bytes at_eof at_bytes (x ∷ bytes) s l = refl

  Holds-none : (buf : Bytes) (start end : ℕ) → start ≡ 0 → end ≡ 0 → Holds buf start end []
  Holds-none buf start end e e' = record {
    ordered = omega arith;
    in_buf = omega arith;
    same =
        let none_left : end - start ≡ 0 = omega arith in
        ap (λ (n : ℕ). take n (drop start buf)) none_left;
  }

  -- A round of the loop with nothing unprocessed behind the inner loop.
  make_room-idle :
      (s : ShadowsocksStream)
      → s.unprocessed_end_offset ≡ 0
      → 0 < length s.unprocessed_buf
      → make_room s ≡ some s
  unfolding make_room
  make_room-idle s e l =
      let part : (s.unprocessed_end_offset == length s.unprocessed_buf) ≡ false =
        ground (arith, e, l) in
      ap (λ (b : Bool). if b then after_reset (reset_unprocessed_buf_offset s) else some s) part

  -- A round in which the stream below has packets for an idle stream.
  round_reads :
      (again : ShadowsocksStream → PolledRead) (s : ShadowsocksStream) (k : BoundKey)
      (bytes : Bytes) (later : List ReadAnswer)
      → Idle s k
      → s.stream.arriving ≡ arrived bytes ∷ later
      → length bytes ≤ length s.unprocessed_buf
      → 0 < length bytes
      → after_drain again room (drain true c s)
        ≡ again (record s {
          stream = record s.stream { arriving = later };
          unprocessed_buf = splice s.unprocessed_buf s.unprocessed_end_offset bytes;
          unprocessed_end_offset = s.unprocessed_end_offset + length bytes;
        })
  round_reads again s k bytes later idle comes fits some_byte =
      let space = length s.unprocessed_buf - s.unprocessed_end_offset in
      let loop = decrypt_loop true c (suc (available_len s)) s in
      let nothing : ltb 0 s.unprocessed_end_offset ≡ false = ground (arith, idle.unprocessed_end) in
      let unread : ltb 0 s.processed_end_offset ≡ false = ground (arith, idle.processed_end) in
      let handed = hand_over (read_processed room s) in
      let ended : PolledRead = returned (success (ready [])) s in
      let more = read_more again again s in
      let use_answer =
        λ (r : Result (Poll Bytes) × Peer). on_read again again r.0 (record s { stream = r.1 }) in
      let whole : Result (Poll Bytes) × Peer =
        (success (ready bytes), record s.stream { arriving = later }) in
      let part : Result (Poll Bytes) × Peer = (
        success (ready (take space bytes)),
        record s.stream { arriving = arrived (drop space bytes) ∷ later },
      ) in
      let enough : leb (length bytes) space ≡ true = ground (arith, fits, idle.unprocessed_end) in
      ap (λ (b : Bool). after_drain again room (if b then loop else drained s)) nothing
      ∙ ap (after_room again room)
          (make_room-idle s idle.unprocessed_end (omega (arith, fits, some_byte)))
      ∙ ap (λ (b : Bool). if b then handed else if s.is_eof then ended else more) unread
      ∙ ap (λ (b : Bool). if b then ended else more) idle.not_eof
      ∙ ap (λ (a : List ReadAnswer). use_answer (answer_read a space s.stream)) comes
      ∙ ap (λ (b : Bool). use_answer (if b then whole else part)) enough
      ∙ on_read-bytes again again bytes (record s { stream = record s.stream { arriving = later } })
          some_byte

  -- A round that ends with processed data.
  round_hands :
      (again : ShadowsocksStream → PolledRead) (s t : ShadowsocksStream) (bytes : Bytes)
      → 0 < s.unprocessed_end_offset
      → decrypt_loop true c (suc (available_len s)) s ≡ drained t
      → t.unprocessed_end_offset ≡ 0
      → 0 < length t.unprocessed_buf
      → Holds t.processed_buf t.processed_start_offset t.processed_end_offset bytes
      → 0 < length bytes
      → length bytes ≤ room
      → after_drain again room (drain true c s)
        ≡ returned
            (success (ready bytes))
            (record t { processed_start_offset = 0; processed_end_offset = 0 })
  round_hands again s t bytes some_data loop end l h some_byte fits =
      let there : ltb 0 s.unprocessed_end_offset ≡ true = ground (arith, some_data) in
      let size =
        Holds-length t.processed_buf t.processed_start_offset t.processed_end_offset bytes h in
      let processed : ltb 0 t.processed_end_offset ≡ true = ground (arith, size, some_byte) in
      let ended : PolledRead = returned (success (ready [])) t in
      let more = read_more again again t in
      ap
        (λ (b : Bool).
          after_drain again room
            (if b then decrypt_loop true c (suc (available_len s)) s else drained s))
        there
      ∙ ap (after_drain again room) loop
      ∙ ap (after_room again room) (make_room-idle t end l)
      ∙ ap
          (λ (b : Bool).
            if b then hand_over (read_processed room t) else if t.is_eof then ended else more)
          processed
      ∙ hand_over-all t bytes h some_byte fits

  -- `poll_read` of a stream between two packets, to which packets have come in one piece, gives their
  -- payloads in order, and leaves the stream between two packets with the next nonces. Conditions: the
  -- packets are no longer than the buffer for what is unprocessed, which they may fill; their payloads,
  -- with a byte at least, fit in the one for what is processed and in the room of the caller; and the
  -- payloads are bytes that a packet can hold.
  pub poll_read_inner-packets :
      (clock : Clock) (s : ShadowsocksStream) (k : BoundKey) (ms : List Bytes)
      (later : List ReadAnswer)
      → Idle s k
      → s.stream.arriving ≡ arrived (packets c k ms) ∷ later
      → ArePayloads (max_payload_len s.stream_type) ms
      → length (packets c k ms) ≤ length s.unprocessed_buf
      → length (payloads ms) ≤ length s.processed_buf
      → length (payloads ms) ≤ room
      → 0 < length (payloads ms)
      → (t : ShadowsocksStream) × (poll_read_inner true c clock room s
          ≡ returned (success (ready (payloads ms))) t)
        × Idle t (key_after k ms)
        × (t.stream.arriving ≡ later)
  unfolding poll_read_inner read_loop decrypt_loop make_room
  poll_read_inner-packets clock s k ms later idle comes valid fits space small some_byte =
      let bytes = packets c k ms in
      let below = max_below s.stream_type in
      let some_bytes : 0 < length bytes = omega (
        arith,
        length-packets c lawful k (max_payload_len s.stream_type) ms below valid,
        some_byte,
      ) in
      let u : ShadowsocksStream = record s {
        stream = record s.stream { arriving = later };
        unprocessed_buf = splice s.unprocessed_buf s.unprocessed_end_offset bytes;
        unprocessed_end_offset = s.unprocessed_end_offset + length bytes;
      } in
      let inside : s.unprocessed_end_offset + length bytes ≤ length s.unprocessed_buf =
        omega (arith, fits, idle.unprocessed_end) in
      let between : Between u k bytes [] = record {
        has_key = idle.has_key;
        no_pending = idle.no_pending;
        unprocessed =
            Holds-append s.unprocessed_buf s.unprocessed_start_offset s.unprocessed_end_offset
              u.unprocessed_end_offset [] bytes refl inside
              (Holds-none s.unprocessed_buf s.unprocessed_start_offset s.unprocessed_end_offset
                idle.unprocessed_start idle.unprocessed_end);
        processed =
            Holds-none s.processed_buf s.processed_start_offset s.processed_end_offset
              idle.processed_start idle.processed_end;
      } in
      let long = length-packets c lawful k (max_payload_len s.stream_type) ms below valid in
      let (t, loop, after, kept) =
        decrypt_loop-packets c lawful (suc (available_len u)) k ms [] u valid
          (omega (arith, space, idle.processed_end))
          (omega (arith, idle.unprocessed_start, idle.unprocessed_end, long))
          (λ e. absurd (omega (arith, e, idle.unprocessed_start, idle.unprocessed_end, some_bytes)))
          between in
      let none_left =
        Holds-length t.unprocessed_buf t.unprocessed_start_offset t.unprocessed_end_offset []
          after.unprocessed in
      let end : t.unprocessed_end_offset ≡ 0 = kept.8 none_left in
      let buf_size = length-splice s.unprocessed_buf bytes s.unprocessed_end_offset inside in
      let n = to_come s.stream.arriving in
      let waiting =
        wait_header (suc n)
          (λ r.
            with_step (λ q. read_packets true c room (record q { is_initial_read = false }))
              (process_read_header c clock r))
          s in
      let test : (s.is_initial_read && not s.is_eof) ≡ false = ground (arith, idle.header_read) in
      (
        record t { processed_start_offset = 0; processed_end_offset = 0 },
        ap (λ (b : Bool). if b then waiting else read_packets true c room s) test
            ∙ round_reads (read_loop true c room (suc n)) s k bytes later idle comes fits some_bytes
            ∙ round_hands (read_loop true c room n) u t (payloads ms) (omega (arith, some_bytes))
                loop end (omega (arith, kept.2, buf_size, fits, some_bytes)) after.processed
                some_byte small,
        record {
          header_read = kept.7 ∙ idle.header_read;
          not_eof = kept.6 ∙ idle.not_eof;
          has_key = after.has_key;
          no_pending = after.no_pending;
          unprocessed_start = omega (arith, end, after.unprocessed.ordered);
          unprocessed_end = end;
          processed_start = refl;
          processed_end = refl;
        },
        ap (λ (p : Peer). p.arriving) kept.0,
      )
