-- ===== src/Shadowsocks/Read.antt =====
-- `poll_read_inner` of `ShadowsocksStream` of `src/shadowsocks/shadowsocks_stream.rs`.
use shoes_on_shuttle.Common.{
  ℕ, zero, suc, Bool, true, false, Option, none, some, List, Bytes, [], ◌∷◌, ◌+◌, ◌-◌, ◌&&◌, ◌==◌,
  not, if◌then◌else◌, ltb, leb, length, splice,
}
use shoes_on_shuttle.Stream.{Result, success, failure, IoError, ErrorKind}
use shoes_on_shuttle.Poll.{Poll, ready, pending, poll_read, ReadAnswer, arrived}
use shoes_on_shuttle.Shadowsocks.Types.{Cipher, ShadowsocksStream, available_len, Step, ok}
use shoes_on_shuttle.Shadowsocks.Decrypt.{
  Decrypted, need_data, buffer_full, try_decrypt, read_processed, reset_unprocessed_buf_offset,
}
use shoes_on_shuttle.Shadowsocks.Header.{Clock, process_read_header, read_header_len}

-- What `poll_read` returns, with the bytes that it has put into the `ReadBuf` of the caller, and the
-- stream after it.
pub data PolledRead : Type 0 where
  returned : Result (Poll Bytes) → ShadowsocksStream → PolledRead
  panic : PolledRead
  out_of_fuel : PolledRead

-- The answers that the stream below has left, and their bytes: each answer is of use once, or for a
-- byte at least.
abbrev pub to_come : List ReadAnswer → ℕ
to_come [] = 0
to_come (arrived bytes ∷ later) = suc (length bytes + to_come later)
to_come (ReadAnswer.not_yet ∷ later) = suc (to_come later)
to_come (ReadAnswer.failed e ∷ later) = suc (to_come later)

-- `poll_read` of the stream below into the rest of `unprocessed_buf` has answered. Without a byte the
-- stream has ended.
abbrev pub on_read :
    (ShadowsocksStream → PolledRead)
    → (ShadowsocksStream → PolledRead)
    → Result (Poll Bytes)
    → ShadowsocksStream
    → PolledRead
on_read at_eof at_bytes (success pending) s = returned (success pending) s
on_read at_eof at_bytes (failure e) s = returned (failure e) s
on_read at_eof at_bytes (success (ready [])) s = at_eof (record s { is_eof = true })
on_read at_eof at_bytes (success (ready (x ∷ bytes))) s = at_bytes (record s {
  unprocessed_buf = splice s.unprocessed_buf s.unprocessed_end_offset (x ∷ bytes);
  unprocessed_end_offset = s.unprocessed_end_offset + length (x ∷ bytes);
})

abbrev pub read_more :
    (ShadowsocksStream → PolledRead)
    → (ShadowsocksStream → PolledRead)
    → ShadowsocksStream
    → PolledRead
read_more at_eof at_bytes s =
    let (result, peer) = poll_read (length s.unprocessed_buf - s.unprocessed_end_offset) s.stream in
    on_read at_eof at_bytes result (record s { stream = peer })

abbrev pub with_step : (ShadowsocksStream → PolledRead) → Step → PolledRead
with_step next (ok s) = next s
with_step next (Step.failed e s) = returned (failure e) s
with_step next Step.panic = panic

-- The loop that waits for the whole header.
unfoldable pub wait_header : ℕ → (ShadowsocksStream → PolledRead) → ShadowsocksStream → PolledRead
wait_header zero next s = out_of_fuel
wait_header (suc fuel) next s =
    read_more (λ s. returned (success (ready [])) s)
      (λ s.
        let rest = wait_header fuel next s in
        if leb (read_header_len s) s.unprocessed_end_offset then next s else rest)
      s

-- What the inner loop of decryption leaves.
pub data Drained : Type 0 where
  drained : ShadowsocksStream → Drained
  failed : IoError → ShadowsocksStream → Drained
  panic : Drained
  out_of_fuel : Drained

abbrev pub on_decrypted : Bool → (ShadowsocksStream → Drained) → Decrypted → Drained
on_decrypted fill_buffer again (need_data s) = drained s
on_decrypted fill_buffer again (buffer_full s) =
    if ltb 0 s.processed_end_offset then drained s else Drained.panic
on_decrypted fill_buffer again (Decrypted.success s) =
    if not fill_buffer && ltb 0 s.processed_end_offset then drained s else again s
on_decrypted fill_buffer again (Decrypted.failed message s) =
    failed (record { kind = ErrorKind.invalid_data; message = message }) s
on_decrypted fill_buffer again Decrypted.panic = Drained.panic

unfoldable pub decrypt_loop : Bool → Cipher → ℕ → ShadowsocksStream → Drained
unfolding try_decrypt
decrypt_loop fill_buffer c zero s = Drained.out_of_fuel
decrypt_loop fill_buffer c (suc fuel) s =
    on_decrypted fill_buffer (decrypt_loop fill_buffer c fuel) (try_decrypt c s)

-- `assert!(unprocessed_end_offset < unprocessed_buf.len())` behind the reset.
abbrev pub after_reset : Option ShadowsocksStream → Option ShadowsocksStream
after_reset none = none
after_reset (some s) =
    if ltb s.unprocessed_end_offset (length s.unprocessed_buf) then some s else none

-- Room for more unprocessed data. `none` is a failed assertion.
unfoldable pub make_room : ShadowsocksStream → Option ShadowsocksStream
unfolding reset_unprocessed_buf_offset
make_room s =
    if s.unprocessed_end_offset == length s.unprocessed_buf
    then after_reset (reset_unprocessed_buf_offset s)
    else some s

abbrev pub hand_over : Option (Bytes × ShadowsocksStream) → PolledRead
hand_over none = panic
hand_over (some (bytes, s)) = returned (success (ready bytes)) s

-- The end of the loop, behind `make_room`.
abbrev pub after_room : (ShadowsocksStream → PolledRead) → ℕ → Option ShadowsocksStream → PolledRead
after_room again room none = panic
after_room again room (some s) =
    if ltb 0 s.processed_end_offset
    then hand_over (read_processed room s)
    else if s.is_eof
    then returned (success (ready [])) s
    else read_more again again s

abbrev pub after_drain : (ShadowsocksStream → PolledRead) → ℕ → Drained → PolledRead
after_drain again room (drained s) = after_room again room (make_room s)
after_drain again room (failed e s) = returned (failure e) s
after_drain again room Drained.panic = panic
after_drain again room Drained.out_of_fuel = out_of_fuel

-- The inner loop, each round of which but the last takes a tag at least.
abbrev pub drain : Bool → Cipher → ShadowsocksStream → Drained
drain fill_buffer c s =
    if ltb 0 s.unprocessed_end_offset
    then decrypt_loop fill_buffer c (suc (available_len s)) s
    else drained s

unfoldable pub read_loop : Bool → Cipher → ℕ → ℕ → ShadowsocksStream → PolledRead
unfolding decrypt_loop make_room read_processed
read_loop fill_buffer c room zero s = out_of_fuel
read_loop fill_buffer c room (suc fuel) s =
    after_drain (read_loop fill_buffer c room fuel) room (drain fill_buffer c s)

-- The loop has two rounds more than the stream below has answers and bytes.
abbrev pub read_packets : Bool → Cipher → ℕ → ShadowsocksStream → PolledRead
read_packets fill_buffer c room s =
    read_loop fill_buffer c room (suc (suc (to_come s.stream.arriving))) s

-- `poll_read` with `fill_buffer`, and `poll_read_message` without.
unfoldable pub poll_read_inner : Bool → Cipher → Clock → ℕ → ShadowsocksStream → PolledRead
unfolding wait_header process_read_header read_loop
poll_read_inner fill_buffer c clock room s =
    let read = read_packets fill_buffer c room in
    if s.is_initial_read && not s.is_eof
    then wait_header (suc (to_come s.stream.arriving))
        (λ s.
          with_step (λ s. read (record s { is_initial_read = false }))
            (process_read_header c clock s))
        s
    else read s
