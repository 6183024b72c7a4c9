-- ===== src/Shadowsocks/Write.antt =====
-- `AsyncWrite` and `AsyncWriteMessage` of `ShadowsocksStream` of
-- `src/shadowsocks/shadowsocks_stream.rs`.
use shoes_on_shuttle.Common.{
  ℕ, Bool, true, false, Bytes, ◌-◌, ◌+◌, ◌==◌, ◌&&◌, if◌then◌else◌, ltb, leb, min, take, length,
}
use shoes_on_shuttle.Stream.{Result, success, failure}
use shoes_on_shuttle.Poll.{Poll, ready, pending, poll_flush}
use shoes_on_shuttle.Shadowsocks.Types.{Cipher, ShadowsocksStream, metadata_size, max_payload_len}
use shoes_on_shuttle.Shadowsocks.Header.{Clock}
use shoes_on_shuttle.Shadowsocks.Encrypt.{
  Written, returned, map_err, encrypt_single, process_write_header, do_write_cache,
}

abbrev pub started : ShadowsocksStream → ShadowsocksStream
started s = record s { is_initial_write = false }

-- What `do_write_cache` could not write waits for a later call.
abbrev pub report : ℕ → Result Bool × ShadowsocksStream → Written (Poll ℕ)
report n (failure e, s) = returned (failure e) s
report n (success _, s) = returned (success (ready n)) s

-- The first write: `process_write_header` has returned.
abbrev pub on_first : Written ℕ → Written (Poll ℕ)
unfolding do_write_cache
on_first Written.panic = Written.panic
on_first (returned (failure e) s) = returned (failure e) s
on_first (returned (success handled_len) s) =
    if ltb 0 handled_len && ltb 0 s.write_cache_end_offset
    then report handled_len (do_write_cache (started s))
    else Written.panic

-- `packet_data_size`.
abbrev pub packet_size : Bytes → ShadowsocksStream → ℕ
packet_size buf s =
    let space = length s.write_cache - s.write_cache_end_offset in
    min (min (length buf) (space - metadata_size)) (max_payload_len s.stream_type)

-- The end of `poll_write`.
unfoldable pub write_packet : Cipher → Bytes → ShadowsocksStream → Written (Poll ℕ)
unfolding encrypt_single do_write_cache
write_packet c buf s =
    map_err "failed to encrypt packet" (encrypt_single c (take (packet_size buf s) buf) true s)
      (λ t. report (packet_size buf s) (do_write_cache t))

-- `do_write_cache` has made room.
abbrev pub on_room :
    (ShadowsocksStream → Written (Poll ℕ)) → Result Bool × ShadowsocksStream → Written (Poll ℕ)
on_room next (failure e, s) = returned (failure e) s
on_room next (success false, s) = returned (success pending) s
on_room next (success true, s) =
    if s.write_cache_start_offset == 0 && s.write_cache_end_offset == 0
    then next s
    else Written.panic

unfoldable pub poll_write : Cipher → Clock → Bytes → ShadowsocksStream → Written (Poll ℕ)
unfolding process_write_header write_packet do_write_cache
poll_write c clock buf s =
    if s.is_initial_write
    then on_first (process_write_header c clock buf s)
    else if leb (length s.write_cache - s.write_cache_end_offset) metadata_size
    then on_room (write_packet c buf) (do_write_cache s)
    else write_packet c buf s

-- `poll_flush` of the stream below.
abbrev pub below_flushed : ShadowsocksStream → Result (Poll (Unit {0})) × ShadowsocksStream
below_flushed s = let (result, peer) = poll_flush s.stream in (result, record s { stream = peer })

-- The body of the loop of `poll_flush`. It runs once: all was written, so the cache is empty then.
abbrev pub flush_written :
    Result Bool × ShadowsocksStream → Result (Poll (Unit {0})) × ShadowsocksStream
flush_written (failure e, s) = (failure e, s)
flush_written (success false, s) = (success pending, s)
flush_written (success true, s) = below_flushed s

unfoldable pub flush_cache : ShadowsocksStream → Result (Poll (Unit {0})) × ShadowsocksStream
unfolding do_write_cache
flush_cache s =
    if s.write_cache_end_offset == 0 then below_flushed s else flush_written (do_write_cache s)

abbrev pub on_first_message : Bytes → Written ℕ → Written (Poll (Unit {0}))
on_first_message buf Written.panic = Written.panic
on_first_message buf (returned (failure e) s) = returned (failure e) s
on_first_message buf (returned (success handled_len) s) =
    if handled_len == length buf then returned (success (ready tt)) (started s) else Written.panic

-- A message is packed whole, or waits until there is room.
abbrev pub pack_message : Cipher → Bytes → ShadowsocksStream → Written (Poll (Unit {0}))
unfolding encrypt_single
pack_message c buf s =
    let packet_size = length buf + metadata_size in
    let packed =
      map_err "failed to encrypt packet" (encrypt_single c buf true s)
        (returned (success (ready tt))) in
    if leb packet_size (length s.write_cache)
    then if ltb (length s.write_cache - s.write_cache_end_offset) packet_size
      then returned (success pending) s
      else packed
    else Written.panic

unfoldable pub poll_write_message :
    Cipher → Clock → Bytes → ShadowsocksStream → Written (Poll (Unit {0}))
unfolding process_write_header encrypt_single
poll_write_message c clock buf s =
    if s.is_initial_write
    then on_first_message buf (process_write_header c clock buf s)
    else pack_message c buf s
