-- ===== src/Shadowsocks/Contract.antt =====
-- `poll_read` and `poll_read_message` of `ShadowsocksStream` of `src/shadowsocks/shadowsocks_stream.rs`
-- as a whole, from the first call on.
use shoes_on_shuttle.Shadowsocks.Headers.{process_read_header-Ensures}
use shoes_on_shuttle.Shadowsocks.Rounds.{answer_read-Answers, Answers, read_packets-Reads}
use shoes_on_shuttle.Stream.{failure, Result, success}
use shoes_on_shuttle.Poll.{ready, Poll, pending, Peer, poll_read}
use shoes_on_shuttle.Common.{
  ◌⊎◌, ℕ, zero, suc, Bool, true, false, Bytes, [], ◌∷◌, ◌∙◌, sym, ap, refl, arith, length, ◌≡◌, ◌+◌,
  ◌-◌, ◌≤◌, ◌<◌, ◌&&◌, if◌then◌else◌, leb, inl, inr, Bool-cases, splice, not,
}
use mathlib.Core.Path.{subst}
use shoes_on_shuttle.Common.Splice.{length-splice}
use shoes_on_shuttle.Shadowsocks.Types.{
  Cipher, ShadowsocksStream, ShadowsocksStreamType, metadata_size, max_payload_len, Step, ok,
}
use shoes_on_shuttle.Shadowsocks.Header.{Clock, header_len, read_header_len, process_read_header}
use shoes_on_shuttle.Shadowsocks.Fits.{Opens, IsValid}
use shoes_on_shuttle.Shadowsocks.Heads.{Keys, Headed, Ensures}
use shoes_on_shuttle.Shadowsocks.Reads.{Reads}
use shoes_on_shuttle.Shadowsocks.Read.{
  PolledRead, returned, panic, out_of_fuel, to_come, on_read, with_step, wait_header, read_packets,
  poll_read_inner,
}

-- A stream that waits for the header, as `new` leaves it.
abbrev pub Waits : ShadowsocksStreamType → ℕ → ShadowsocksStream → Type 0
Waits type salt_len s =
    Headed type salt_len 0 s
    × (s.is_initial_read ≡ true)
    × (s.is_eof ≡ false)
    × (s.unprocessed_end_offset < header_len type salt_len)

-- A stream that may be read: it waits for the header, or has read it and is in order.
abbrev pub Readable : ShadowsocksStreamType → ℕ → ShadowsocksStream → Type 0
Readable type salt_len s = Waits type salt_len s ⊎ IsValid s

-- A read of at most `room` bytes neither panics nor runs out of its fuel. Ready it gives a byte at
-- least, or the stream has ended and it gives none; but for an end and an error, the stream may be
-- read again.
abbrev pub Returns : ShadowsocksStreamType → ℕ → ℕ → PolledRead → Type 0
Returns type salt_len room (returned (success (ready bytes)) s) =
    (Readable type salt_len s × (0 < length bytes) × (length bytes ≤ room))
    ⊎ ((s.is_eof ≡ true) × (length bytes ≡ 0))
Returns type salt_len room (returned (success pending) s) = Readable type salt_len s
Returns type salt_len room (returned (failure e) s) = Unit
Returns type salt_len room panic = ⊥
Returns type salt_len room out_of_fuel = ⊥

Reads→Returns :
    (type : ShadowsocksStreamType) (salt_len room : ℕ) (r : PolledRead)
    → Reads room r
    → Returns type salt_len room r
Reads→Returns type salt_len room (returned (success (ready [])) s) (v, l, inl some_byte) =
    absurd (omega arith)
Reads→Returns type salt_len room (returned (success (ready [])) s) (v, l, inr eof) = inr (eof, refl)
Reads→Returns type salt_len room (returned (success (ready (x ∷ bytes))) s) (v, l, _) =
    inl (inr v, omega arith, l)
Reads→Returns type salt_len room (returned (success pending) s) v = inr v
Reads→Returns type salt_len room (returned (failure e) s) v = tt
Reads→Returns type salt_len room panic v = absurd v
Reads→Returns type salt_len room out_of_fuel v = absurd v

module _ (fill_buffer : Bool) (c : Cipher) (opens : Opens c) (clock : Clock)
    (type : ShadowsocksStreamType) (salt_len : ℕ) (keys : Keys c salt_len) (short : salt_len ≤ 32)
    (room : ℕ) (some_room : 0 < room) where
  -- The header is read, and then packets.
  next : ShadowsocksStream → PolledRead
  next s =
      with_step (λ t. read_packets fill_buffer c room (record t { is_initial_read = false }))
        (process_read_header c clock s)

  next-Returns :
      (s : ShadowsocksStream)
      → Headed type salt_len (header_len type salt_len) s
      → Returns type salt_len room (next s)
  unfolding next
  next-Returns s h =
      after_header (process_read_header c clock s)
        (process_read_header-Ensures c opens clock salt_len keys short type s h)
    where
      after_header :
          (m : Step)
          → Ensures (λ t. IsValid (record t { is_initial_read = false })) m
          → Returns type salt_len room (
              with_step
                (λ t. read_packets fill_buffer c room (record t { is_initial_read = false }))
                m)
      after_header (ok t) v =
          let u : ShadowsocksStream = record t { is_initial_read = false } in
          Reads→Returns type salt_len room (read_packets fill_buffer c room u)
            (read_packets-Reads fill_buffer c opens room some_room u v)
      after_header (Step.failed e t) v = tt
      after_header Step.panic v = absurd v

  header_fits : header_len type salt_len < max_payload_len type + metadata_size
  header_fits = by_type type
    where
      by_type :
          (y : ShadowsocksStreamType) → header_len y salt_len < max_payload_len y + metadata_size
      by_type ShadowsocksStreamType.aead = omega (arith, short)
      by_type ShadowsocksStreamType.aead2022_server = omega (arith, short)
      by_type ShadowsocksStreamType.aead2022_client = omega (arith, short)

  -- More of the header has come.
  arrived-Returns :
      (again : ShadowsocksStream → PolledRead) (s : ShadowsocksStream) (p : Peer) (new : Bytes)
      → Waits type salt_len s
      → length new ≤ length s.unprocessed_buf - s.unprocessed_end_offset
      → to_come p.arriving < to_come s.stream.arriving
      → ((t : ShadowsocksStream)
          → Waits type salt_len t
          → to_come t.stream.arriving < to_come s.stream.arriving
          → Returns type salt_len room (again t))
      → let t : ShadowsocksStream = record s {
        stream = p;
        unprocessed_buf = splice s.unprocessed_buf s.unprocessed_end_offset new;
        unprocessed_end_offset = s.unprocessed_end_offset + length new;
      } in
        Returns type salt_len room
          (if leb (read_header_len t) t.unprocessed_end_offset then next t else again t)
  arrived-Returns again s p new
        ((same_type, same_len, size, processed, _, inside, rest), initial, not_eof, less) fits fewer
        goes_on =
      let t : ShadowsocksStream = record s {
        stream = p;
        unprocessed_buf = splice s.unprocessed_buf s.unprocessed_end_offset new;
        unprocessed_end_offset = s.unprocessed_end_offset + length new;
      } in
      let there : s.unprocessed_end_offset + length new ≤ length s.unprocessed_buf =
        omega (arith, fits, inside) in
      let left = length-splice s.unprocessed_buf new s.unprocessed_end_offset there in
      let now_inside : t.unprocessed_end_offset ≤ length t.unprocessed_buf =
        omega (arith, left, there) in
      let same : read_header_len t ≡ header_len type salt_len =
        ap (λ (y : ShadowsocksStreamType). header_len y s.salt_len) same_type
        ∙ ap (header_len type) same_len in
      let Goal = λ (b : Bool). Returns type salt_len room (if b then next t else again t) in
      elim (Bool-cases (leb (read_header_len t) t.unprocessed_end_offset)) [
        | inl whole ↦ subst Goal (sym whole) (
            next-Returns t (
              same_type,
              same_len,
              left ∙ size,
              processed,
              ground (arith, whole, same),
              now_inside,
              rest,
            ))
        | inr part ↦ subst Goal (sym part) (
            goes_on t
              (
                (same_type, same_len, left ∙ size, processed, omega arith, now_inside, rest),
                initial,
                not_eof,
                ground (arith, part, same),
              )
              fewer)
      ]

  wait_header-Returns :
      (fuel : ℕ) (s : ShadowsocksStream)
      → Waits type salt_len s
      → to_come s.stream.arriving < fuel
      → Returns type salt_len room (wait_header fuel next s)
  unfolding wait_header
  wait_header-Returns zero s w l = absurd (omega arith)
  wait_header-Returns (suc fuel) s w l =
      let space = length s.unprocessed_buf - s.unprocessed_end_offset in
      on_answer (poll_read space s.stream)
        (answer_read-Answers s.stream.arriving space s.stream
          (omega (arith, w.0.2, w.3, header_fits)))
        (λ t w' less. wait_header-Returns fuel t w' (omega (arith, less, l)))
    where
      body : ShadowsocksStream → PolledRead
      body t =
          if leb (read_header_len t) t.unprocessed_end_offset
          then next t
          else wait_header fuel next t

      on_answer :
          (answer : Result (Poll Bytes) × Peer)
          → Answers
              (length s.unprocessed_buf - s.unprocessed_end_offset)
              (to_come s.stream.arriving)
              answer
          → ((t : ShadowsocksStream)
              → Waits type salt_len t
              → to_come t.stream.arriving < to_come s.stream.arriving
              → Returns type salt_len room (wait_header fuel next t))
          → Returns type salt_len room (
              on_read
                (λ t. returned (success (ready [])) t)
                body
                answer.0
                (record s { stream = answer.1 }))
      on_answer (success pending, p) a again = inl w
      on_answer (failure x, p) a again = tt
      on_answer (success (ready []), p) a again = inr (refl, refl)
      on_answer (success (ready (x ∷ bytes)), p) (fits, less) again =
          arrived-Returns (wait_header fuel next) s p (x ∷ bytes) w fits less again

  -- `poll_read`, with room for a byte at least, of a stream that may be read, keeps the contract of
  -- an `AsyncRead`: it returns, and does not panic; ready, it gives at least one byte and at most the
  -- room, or the stream has ended, and it gives none; and but for that end and errors, the stream may
  -- be read again afterwards. So does `poll_read_message`. Conditions: opening keeps the number of the
  -- bytes and leaves bytes, the salt has at most 32 bytes, and a salt of that length has a key.
  pub poll_read_inner-Returns :
      (s : ShadowsocksStream)
      → Readable type salt_len s
      → Returns type salt_len room (poll_read_inner fill_buffer c clock room s)
  unfolding poll_read_inner next
  poll_read_inner-Returns s (inl w) =
      let fuel = suc (to_come s.stream.arriving) in
      let waiting = wait_header fuel next s in
      let read = read_packets fill_buffer c room s in
      let test : (s.is_initial_read && not s.is_eof) ≡ true = ground (arith, w.1, w.2) in
      subst (λ (b : Bool). Returns type salt_len room (if b then waiting else read)) (sym test)
        (wait_header-Returns fuel s w (omega arith))
  poll_read_inner-Returns s (inr v) =
      let waiting = wait_header (suc (to_come s.stream.arriving)) next s in
      let read = read_packets fill_buffer c room s in
      let test : (s.is_initial_read && not s.is_eof) ≡ false =
        ground (arith, v.in_order.header_read) in
      subst (λ (b : Bool). Returns type salt_len room (if b then waiting else read)) (sym test)
        (Reads→Returns type salt_len room read
          (read_packets-Reads fill_buffer c opens room some_room s v))
