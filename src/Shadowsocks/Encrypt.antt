-- ===== src/Shadowsocks/Encrypt.antt =====
-- How `ShadowsocksStream` of `src/shadowsocks/shadowsocks_stream.rs` encrypts packets:
-- `encrypt_single`, `process_write_header` and `do_write_cache`.
use shoes_on_shuttle.Common.{
  ℕ, Bool, true, false, Option, none, some, List, [], ◌∷◌, ◌++◌, Bytes, ◌+◌, ◌-◌, ◌==◌,
  if◌then◌else◌, ltb, leb, min, take, drop, length, splice,
}
use Prim.Native.String.{String}
use shoes_on_shuttle.Stream.{IoError, Result, success, failure, ErrorKind}
use shoes_on_shuttle.Poll.{Poll, ready, pending, poll_write, WriteAnswer}
use shoes_on_shuttle.Net.Types.{to_be_bytes, u64_bytes}
use shoes_on_shuttle.Shadowsocks.Types.{
  Cipher, ShadowsocksStream, ShadowsocksStreamType, aead, aead2022_server, aead2022_client, tag_len,
  metadata_size,
}
use shoes_on_shuttle.Shadowsocks.Decrypt.{advanced}
use shoes_on_shuttle.Shadowsocks.Header.{Clock}

-- What the calls of `ring` and the slices around them give; `unspecified` is `ring`'s error.
pub data Sealing : Type 0 where
  done unspecified : ShadowsocksStream → Sealing
  panic : Sealing

abbrev pub then_seal : Sealing → (ShadowsocksStream → Sealing) → Sealing
then_seal (done s) k = k s
then_seal (unspecified s) k = unspecified s
then_seal Sealing.panic k = Sealing.panic

-- The sealed bytes stand at `at`, and the tag goes behind them.
abbrev pub put_tag : ℕ → Bytes → Option Bytes → ShadowsocksStream → Sealing
put_tag at text none s = unspecified (record s { write_cache = splice s.write_cache at text })
put_tag at text (some tag) s =
    if leb (at + length text + tag_len) (length s.write_cache)
    then done (record s { write_cache = splice s.write_cache at (text ++ take tag_len tag) })
    else Sealing.panic

-- The input is put into the cache at `at`, and sealed there with the next nonce.
unfoldable pub seal_at : Cipher → ℕ → Bytes → ShadowsocksStream → Sealing
seal_at c at input s =
    let (tag, text) = c.seal s.sealing_key.key s.sealing_key.nonce input in
    if leb (at + length input) (length s.write_cache)
    then put_tag at text tag (record s { sealing_key = advanced s.sealing_key })
    else Sealing.panic

-- The part behind the header: it stands `offset` behind the end of the cache.
abbrev pub encrypt_content : Cipher → ℕ → Bytes → ShadowsocksStream → Sealing
unfolding seal_at
encrypt_content c offset input s =
    then_seal (seal_at c (s.write_cache_end_offset + offset) input s) (λ s. done (record s {
      write_cache_end_offset = s.write_cache_end_offset + (offset + (length input + tag_len));
    }))

unfoldable pub encrypt_single : Cipher → Bytes → Bool → ShadowsocksStream → Sealing
unfolding seal_at
encrypt_single c input write_length_header s =
    if write_length_header
    then then_seal (seal_at c s.write_cache_end_offset (to_be_bytes (length input)) s)
        (encrypt_content c (2 + tag_len) input)
    else encrypt_content c 0 input s

-- What a step of writing returns, with the stream after it.
pub data Written {ℓ} (A : Type ℓ) : Type ℓ where
  returned : Result A → ShadowsocksStream → Written A
  panic : Written A

abbrev pub fail {ℓ} : {A : Type ℓ} → ErrorKind → String → ShadowsocksStream → Written A
fail kind message s = returned (failure (record { kind = kind; message = message })) s

-- `map_err(…)?`.
abbrev pub map_err {ℓ} :
    {A : Type ℓ} → String → Sealing → (ShadowsocksStream → Written A) → Written A
map_err message (done s) k = k s
map_err message (unspecified s) k = fail ErrorKind.other message s
map_err message Sealing.panic k = Written.panic

-- The salt at the front of the cache.
abbrev pub put_salt : ShadowsocksStream → ShadowsocksStream
put_salt s = record s {
  write_cache = splice s.write_cache 0 s.encrypt_iv;
  write_cache_end_offset = s.salt_len;
}

abbrev write_aead : Cipher → Bytes → ShadowsocksStream → Written ℕ
unfolding encrypt_single
write_aead c buf s =
    let s' = put_salt s in
    let handled_len = min (length buf) (length s.write_cache - s.salt_len - metadata_size) in
    if ltb 0 handled_len
    then map_err "failed to encrypt initial packet"
        (encrypt_single c (take handled_len buf) true s') (returned (success handled_len))
    else Written.panic

-- The header and the packet without a length of its own behind it, which the header gives.
abbrev write_both : Cipher → String → Bytes → Bytes → ShadowsocksStream → Written ℕ
unfolding encrypt_single
write_both c message header input s =
    map_err "failed to encrypt response header"
      (encrypt_single c (header ++ to_be_bytes (length input)) false (put_salt s))
      (λ s. map_err message (encrypt_single c input false s) (returned (success (length input))))

-- What the cache holds beside the salt, the header of `header_len` bytes, and both tags.
abbrev pub space_behind : ℕ → ShadowsocksStream → ℕ
space_behind header_len s = length s.write_cache - s.salt_len - (header_len + tag_len) - tag_len

abbrev pub response_header : Clock → Bytes → Bytes
response_header clock request_salt = 1 ∷ (u64_bytes clock.unix_secs ++ request_salt)

abbrev pub request_header : Clock → Bytes
request_header clock = 0 ∷ u64_bytes clock.unix_secs

abbrev write_response : Cipher → Clock → Bytes → Option Bytes → ShadowsocksStream → Written ℕ
write_response c clock buf none s = Written.panic
write_response c clock buf (some request_salt) s =
    let handled_len = min (length buf) (space_behind (1 + 8 + s.salt_len + 2) s) in
    if s.is_initial_read
    then Written.panic
    else write_both c "failed to encrypt initial server packet" (response_header clock request_salt)
        (take handled_len buf) (record s { decrypt_iv = none })

abbrev write_request : Cipher → Clock → Bytes → ShadowsocksStream → Written ℕ
write_request c clock buf s =
    if leb (length buf) (space_behind (1 + 8 + 2) s)
    then write_both c "failed to encrypt initial client packet" (request_header clock) buf s
    else Written.panic

abbrev write_header : ShadowsocksStreamType → Cipher → Clock → Bytes → ShadowsocksStream → Written ℕ
write_header aead c clock buf s = write_aead c buf s
write_header aead2022_server c clock buf s = write_response c clock buf s.decrypt_iv s
write_header aead2022_client c clock buf s = write_request c clock buf s

unfoldable pub process_write_header : Cipher → Clock → Bytes → ShadowsocksStream → Written ℕ
unfolding encrypt_single
process_write_header c clock buf s = write_header s.stream_type c clock buf s

-- `write_cache[write_cache_start_offset..write_cache_end_offset]`.
abbrev pub cached : ShadowsocksStream → Bytes
cached s =
    take (s.write_cache_end_offset - s.write_cache_start_offset)
      (drop s.write_cache_start_offset s.write_cache)

-- `write_cache_start_offset += written`, and both offsets back to 0 at the end.
unfoldable pub cache_written : ℕ → ShadowsocksStream → ShadowsocksStream
cache_written written s =
    let start = s.write_cache_start_offset + written in
    let at_end = start == s.write_cache_end_offset in
    record s {
      write_cache_start_offset = if at_end then 0 else start;
      write_cache_end_offset = if at_end then 0 else s.write_cache_end_offset;
    }

-- The body of the loop on what `poll_write` has answered; `again` is the loop on what is left.
unfoldable pub on_written :
    (ShadowsocksStream → Result Bool × ShadowsocksStream)
    → Result (Poll ℕ)
    → ShadowsocksStream
    → Result Bool × ShadowsocksStream
unfolding cache_written
on_written again (success (ready written)) s =
    let eof : IoError = record {
      kind = ErrorKind.unexpected_eof;
      message = "EOF while writing cached encrypted data";
    } in
    if written == 0
    then (failure eof, s)
    else if s.write_cache_start_offset + written == s.write_cache_end_offset
    then (success true, cache_written written s)
    else again (cache_written written s)
on_written again (success pending) s = (success false, s)
on_written again (failure e) s = (failure e, s)

-- The loop ends at the last answer of the stream below, where `poll_write` is pending: it runs along
-- the answers that are left, the first argument.
unfoldable pub write_loop : List WriteAnswer → ShadowsocksStream → Result Bool × ShadowsocksStream
unfolding on_written
write_loop [] s = (success false, s)
write_loop (answer ∷ later) s =
    let (result, peer) = poll_write (cached s) s.stream in
    on_written (write_loop later) result (record s { stream = peer })

-- Whether all was written.
unfoldable pub do_write_cache : ShadowsocksStream → Result Bool × ShadowsocksStream
unfolding write_loop
do_write_cache s = write_loop s.stream.accepting s
