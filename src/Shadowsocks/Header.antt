-- ===== src/Shadowsocks/Header.antt =====
-- The header of the stream that the other side writes: `read_header_len` and `process_read_header` of
-- `ShadowsocksStream` of `src/shadowsocks/shadowsocks_stream.rs`.
use Prim.Native.String.{String}
use shoes_on_shuttle.Common.{
  not, Bool, ℕ, true, false, Option, none, some, Bytes, ◌+◌, ◌-◌, ◌==◌, if◌then◌else◌, ltb, take,
  drop, get_or,
}
use shoes_on_shuttle.Stream.{ErrorKind}
use shoes_on_shuttle.Hex.{zip_eq}
use shoes_on_shuttle.Net.Types.{be_number}
use shoes_on_shuttle.SaltChecker.{TimedSaltChecker, insert_and_check}
use shoes_on_shuttle.Shadowsocks.Types.{
  Cipher, BoundKey, bound_key, ShadowsocksStream, ShadowsocksStreamType, aead, aead2022_server,
  aead2022_client, rewind, tag_len, Step, ok, fail, ensure, ◌>>=◌,
}
use shoes_on_shuttle.Shadowsocks.Decrypt.{open_in_place, Opening, opened, length_at}

-- `current_time_secs`, and the clock of the checker.
pub record Clock : Type 0 where
  pub unix_secs : ℕ
  pub instant : ℕ

abbrev pub header_len : ShadowsocksStreamType → ℕ → ℕ
header_len aead salt_len = salt_len
header_len aead2022_server salt_len = salt_len + 11 + tag_len
header_len aead2022_client salt_len = salt_len + 11 + salt_len + tag_len

-- `read_header_len`.
abbrev pub read_header_len : ShadowsocksStream → ℕ
read_header_len s = header_len s.stream_type s.salt_len

abbrev pub received_salt : ShadowsocksStream → Bytes
received_salt s = take s.salt_len s.unprocessed_buf

abbrev pub with_opening_key : Option BoundKey → ShadowsocksStream → Step
with_opening_key none s = Step.panic
with_opening_key (some k) s = ok (record s { opening_key = some k })

unfoldable pub process_opening_key : Cipher → ShadowsocksStream → Step
process_opening_key c s = with_opening_key (bound_key c (received_salt s)) s

abbrev pub on_checked : ShadowsocksStream → Bool × TimedSaltChecker → Step
on_checked s (true, checker) = ok (record s { salt_checker = some checker })
on_checked s (false, checker) =
    fail ErrorKind.other "got duplicate salt" (record s { salt_checker = some checker })

abbrev pub check_with : Clock → Option TimedSaltChecker → ShadowsocksStream → Step
check_with clock none s = ok s
check_with clock (some checker) s =
    on_checked s (insert_and_check clock.instant (received_salt s) checker)

-- The salt must be new to the checker, where there is one.
unfoldable pub check_salt : Clock → ShadowsocksStream → Step
unfolding insert_and_check
check_salt clock s = check_with clock s.salt_checker s

abbrev pub on_fixed : Opening → Step
on_fixed Opening.panic = Step.panic
on_fixed (opened false s) =
    fail ErrorKind.invalid_data "open failed for fixed length request header" s
on_fixed (opened true s) = ok s

-- The fixed part of the header behind the salt, of `len` bytes and a tag.
unfoldable pub open_fixed : Cipher → ℕ → ShadowsocksStream → Step
unfolding open_in_place
open_fixed c len s = on_fixed (open_in_place c s.salt_len (len + tag_len) s)

-- At most 30 seconds in the past, and at most 2 in the future.
unfoldable pub check_timestamp : Clock → ShadowsocksStream → Step
check_timestamp clock s =
    let timestamp_secs = be_number (take 8 (drop (s.salt_len + 1) s.unprocessed_buf)) 0 in
    if ltb clock.unix_secs timestamp_secs
    then ensure (not (ltb 2 (timestamp_secs - clock.unix_secs))) ErrorKind.other
        "timestamp is in the future" s
    else ensure (not (ltb 30 (clock.unix_secs - timestamp_secs))) ErrorKind.other
        "timestamp is greater than 30 seconds" s

-- The length of the packet that follows the header, which has no length of its own.
abbrev pub expect_length : ℕ → ℕ → ShadowsocksStream → Step
expect_length at start s = ok (record s {
  unprocessed_pending_len = some (length_at at s.unprocessed_buf);
  unprocessed_start_offset = start;
})

abbrev pub behind_salt : ShadowsocksStream → Step
behind_salt s = ok (record s { unprocessed_start_offset = s.unprocessed_start_offset + s.salt_len })

unfoldable pub read_aead_header : Cipher → Clock → ShadowsocksStream → Step
unfolding check_salt process_opening_key
read_aead_header c clock s = check_salt clock s >>= process_opening_key c >>= behind_salt

-- The type of the header, and where it is wrong, the error.
abbrev pub check_type : ℕ → String → ShadowsocksStream → Step
check_type type message s =
    ensure (get_or s.unprocessed_buf s.salt_len 0 == type) ErrorKind.invalid_data message s

-- The response has to send it back.
abbrev pub keep_salt : ShadowsocksStream → Step
keep_salt s = ok (record s { decrypt_iv = some (received_salt s) })

abbrev pub behind_request : ShadowsocksStream → Step
behind_request s =
    expect_length (s.salt_len + 9) (s.unprocessed_start_offset + (s.salt_len + 11 + tag_len)) s

unfoldable pub read_request_header : Cipher → Clock → ShadowsocksStream → Step
unfolding check_salt process_opening_key open_fixed check_timestamp
read_request_header c clock s =
    process_opening_key c s
    >>= open_fixed c 11
    >>= check_type 0 "invalid client header type"
    >>= check_timestamp clock
    >>= check_salt clock
    >>= keep_salt
    >>= behind_request

abbrev pub returned_salt : ShadowsocksStream → Bytes
returned_salt s = take s.salt_len (drop (s.salt_len + 9) s.unprocessed_buf)

abbrev pub check_returned_salt : ShadowsocksStream → Step
check_returned_salt s =
    ensure (zip_eq (returned_salt s) s.encrypt_iv) ErrorKind.invalid_data
      "server returned request salt does not match" s

abbrev pub behind_response : ShadowsocksStream → Step
behind_response s =
    expect_length (s.salt_len + 9 + s.salt_len) (s.salt_len + 11 + s.salt_len + tag_len) s

unfoldable pub read_response_header : Cipher → Clock → ShadowsocksStream → Step
unfolding check_salt process_opening_key open_fixed check_timestamp
read_response_header c clock s =
    process_opening_key c s
    >>= open_fixed c (11 + s.salt_len)
    >>= check_type 1 "invalid server header type"
    >>= check_timestamp clock
    >>= check_salt clock
    >>= check_returned_salt
    >>= behind_response

abbrev pub read_header : ShadowsocksStreamType → Cipher → Clock → ShadowsocksStream → Step
unfolding read_aead_header read_request_header read_response_header
read_header aead c clock s = read_aead_header c clock s
read_header aead2022_server c clock s = read_request_header c clock s
read_header aead2022_client c clock s = read_response_header c clock s

unfoldable pub process_read_header : Cipher → Clock → ShadowsocksStream → Step
unfolding read_aead_header read_request_header read_response_header rewind
process_read_header c clock s = read_header s.stream_type c clock s >>= λ s. ok (rewind s)
