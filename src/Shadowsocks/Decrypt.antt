-- ===== src/Shadowsocks/Decrypt.antt =====
-- How `ShadowsocksStream` of `src/shadowsocks/shadowsocks_stream.rs` decrypts packets: `try_decrypt`,
-- `read_processed` and `reset_unprocessed_buf_offset`.
use shoes_on_shuttle.Common.{
  ℕ, Bool, true, false, Option, none, some, Bytes, ◌+◌, ◌-◌, ◌&&◌, if◌then◌else◌, ltb, leb, ◌==◌,
  min, take, drop, length, get_or, splice,
}
use Prim.Native.String.{String}
use shoes_on_shuttle.Net.Types.{from_be_bytes}
use shoes_on_shuttle.Shadowsocks.Sequence.{advance}
use shoes_on_shuttle.Shadowsocks.Types.{
  Cipher, BoundKey, ShadowsocksStream, available_len, rewind, tag_len, max_payload_len,
}

abbrev pub advanced : BoundKey → BoundKey
advanced k = record k { nonce = advance k.nonce }

-- Whether the tag was right. `panic` is a key that is not there, or a slice out of range.
pub data Opening : Type 0 where
  opened : Bool → ShadowsocksStream → Opening
  panic : Opening

abbrev pub open_with : Cipher → Option BoundKey → ℕ → ℕ → ShadowsocksStream → Opening
open_with c none from len s = panic
open_with c (some k) from len s =
    let (good, text) = c.open_bytes k.key k.nonce (take len (drop from s.unprocessed_buf)) in
    if leb (from + len) (length s.unprocessed_buf)
    then opened good (record s {
      unprocessed_buf = splice s.unprocessed_buf from text;
      opening_key = some (advanced k);
    })
    else panic

-- `open_in_place` on `unprocessed_buf[from..from + len]`.
unfoldable pub open_in_place : Cipher → ℕ → ℕ → ShadowsocksStream → Opening
unfolding advance
open_in_place c from len s = open_with c s.opening_key from len s

-- `std::io::Result<DecryptState>`; each error is of the kind `InvalidData`.
pub data Decrypted : Type 0 where
  need_data buffer_full success : ShadowsocksStream → Decrypted
  failed : String → ShadowsocksStream → Decrypted
  panic : Decrypted

-- A payload of `len` bytes was opened.
abbrev pub on_payload : ℕ → Opening → Decrypted
on_payload len (opened false s) = failed "open failed for data" s
on_payload len (opened true s) =
    if leb (s.processed_end_offset + len) (length s.processed_buf)
    then success (
        rewind (record s {
          processed_buf =
              splice s.processed_buf s.processed_end_offset
                (take len (drop s.unprocessed_start_offset s.unprocessed_buf));
          processed_end_offset = s.processed_end_offset + len;
          unprocessed_start_offset = s.unprocessed_start_offset + (len + tag_len);
        }))
    else panic
on_payload len Opening.panic = panic

-- The end of `try_decrypt`, where `len` is `pending_len`.
unfoldable pub decrypt_payload : Cipher → ℕ → ShadowsocksStream → Decrypted
unfolding open_in_place rewind
decrypt_payload c len s =
    on_payload len (open_in_place c s.unprocessed_start_offset (len + tag_len) s)

abbrev pub data_length_len : ℕ
data_length_len = 2 + tag_len

-- The length of a packet is known, and stands no more in front.
unfoldable pub with_length : Cipher → ℕ → ShadowsocksStream → Decrypted
unfolding decrypt_payload rewind
with_length c len s =
    if ltb (available_len s) (len + tag_len)
    then need_data (rewind (record s { unprocessed_pending_len = some len }))
    else if ltb (length s.processed_buf) (s.processed_end_offset + len)
    then buffer_full s
    else decrypt_payload c len s

-- `data_len_no_tag`.
abbrev pub length_at : ℕ → Bytes → ℕ
length_at i buf = from_be_bytes (get_or buf i 0) (get_or buf (i + 1) 0)

abbrev pub on_length : Cipher → Opening → Decrypted
on_length c (opened false s) = failed "open failed for length" s
on_length c (opened true s) =
    let len = length_at s.unprocessed_start_offset s.unprocessed_buf in
    if ltb (max_payload_len s.stream_type) len
    then failed "data length larger than max allowed size" s
    else with_length c len
        (record s { unprocessed_start_offset = s.unprocessed_start_offset + data_length_len })
on_length c Opening.panic = panic

-- The two branches on `unprocessed_pending_len`.
abbrev pub decrypt_pending : Cipher → Option ℕ → ShadowsocksStream → Decrypted
decrypt_pending c (some len) s =
    if ltb (available_len s) (len + tag_len)
    then need_data s
    else if ltb (length s.processed_buf) (s.processed_end_offset + len)
    then buffer_full s
    else decrypt_payload c len (record s { unprocessed_pending_len = none })
decrypt_pending c none s =
    if ltb (available_len s) data_length_len
    then need_data s
    else on_length c (open_in_place c s.unprocessed_start_offset data_length_len s)

unfoldable pub try_decrypt : Cipher → ShadowsocksStream → Decrypted
unfolding open_in_place with_length decrypt_payload
try_decrypt c s = decrypt_pending c s.unprocessed_pending_len s

-- What is put into the `ReadBuf` of the caller, which has `room` bytes left. `none` is a failed
-- assertion.
unfoldable pub read_processed : ℕ → ShadowsocksStream → Option (Bytes × ShadowsocksStream)
read_processed room s =
    let start = s.processed_start_offset in
    let write_amount = min room (s.processed_end_offset - start) in
    let at_end = start + write_amount == s.processed_end_offset in
    if ltb 0 s.processed_end_offset && ltb 0 write_amount
    then some (
      take write_amount (drop start s.processed_buf),
      record s {
        processed_start_offset = if at_end then 0 else start + write_amount;
        processed_end_offset = if at_end then 0 else s.processed_end_offset;
      },
    )
    else none

-- `none` is a failed assertion.
unfoldable pub reset_unprocessed_buf_offset : ShadowsocksStream → Option ShadowsocksStream
reset_unprocessed_buf_offset s =
    let left = take (available_len s) (drop s.unprocessed_start_offset s.unprocessed_buf) in
    if ltb 0 s.unprocessed_start_offset && ltb s.unprocessed_start_offset s.unprocessed_end_offset
    then some (record s {
      unprocessed_buf = splice s.unprocessed_buf 0 left;
      unprocessed_start_offset = 0;
      unprocessed_end_offset = available_len s;
    })
    else none
