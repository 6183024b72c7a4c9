-- ===== src/Shadowsocks/Types.antt =====
-- The state of `ShadowsocksStream` of `src/shadowsocks/shadowsocks_stream.rs`, and the ciphers of the
-- `ring` crate that it calls.
use shoes_on_shuttle.Common.{
  ℕ, Bool, true, false, Option, none, some, Bytes, ◌+◌, ◌-◌, ◌*◌, ◌==◌, if◌then◌else◌, length,
}
use Prim.Native.String.{String}
use shoes_on_shuttle.Stream.{ErrorKind, IoError}
use shoes_on_shuttle.Poll.{Peer}
use shoes_on_shuttle.SaltChecker.{TimedSaltChecker}
use shoes_on_shuttle.Shadowsocks.Sequence.{first_nonce}

abbrev pub tag_len : ℕ
tag_len = 16

-- A length and a tag, and the tag of the payload.
abbrev pub metadata_size : ℕ
metadata_size = 2 + 2 * tag_len

pub data ShadowsocksStreamType : Type 0 where
  aead aead2022_server aead2022_client : ShadowsocksStreamType

abbrev pub max_payload_len : ShadowsocksStreamType → ℕ
max_payload_len aead = 0x3fff
max_payload_len aead2022_server = 0xffff
max_payload_len aead2022_client = 0xffff

-- A `ShadowsocksKey` and an `Algorithm`. `create_session_key` of a salt may panic, which is `none`. The
-- arguments of the others are the key, the nonce and the bytes; `seal` gives the tag, or fails, and
-- `open` whether the tag is right; both give what is then in the place of the bytes.
pub record Cipher : Type 0 where
  pub key_len : ℕ
  pub create_session_key : Bytes → Option Bytes
  pub seal : Bytes → Bytes → Bytes → Option Bytes × Bytes
  pub open_bytes : Bytes → Bytes → Bytes → Bool × Bytes

-- A `SealingKey` or an `OpeningKey`.
pub record BoundKey : Type 0 where
  pub key : Bytes
  pub nonce : Bytes

abbrev checked_key : ℕ → Option Bytes → Option BoundKey
checked_key key_len none = none
checked_key key_len (some key) =
    if length key == key_len then some (record { key = key; nonce = first_nonce }) else none

-- `UnboundKey::new(algorithm, &session_key).unwrap()` with a new sequence.
abbrev pub bound_key : Cipher → Bytes → Option BoundKey
bound_key c salt = checked_key c.key_len (c.create_session_key salt)

pub record ShadowsocksStream : Type 0 where
  pub stream : Peer
  pub stream_type : ShadowsocksStreamType
  pub salt_len : ℕ
  pub salt_checker : Option TimedSaltChecker
  pub encrypt_iv : Bytes
  pub decrypt_iv : Option Bytes
  pub sealing_key : BoundKey
  pub opening_key : Option BoundKey
  pub unprocessed_buf : Bytes
  pub unprocessed_start_offset : ℕ
  pub unprocessed_end_offset : ℕ
  pub unprocessed_pending_len : Option ℕ
  pub processed_buf : Bytes
  pub processed_start_offset : ℕ
  pub processed_end_offset : ℕ
  pub write_cache : Bytes
  pub write_cache_start_offset : ℕ
  pub write_cache_end_offset : ℕ
  pub is_initial_read : Bool
  pub is_initial_write : Bool
  pub is_eof : Bool

-- The buffers as `allocate_vec` gives them.
pub record Buffers : Type 0 where
  pub unprocessed : Bytes
  pub processed : Bytes
  pub write_cache : Bytes

abbrev pub started :
    Buffers
    → Peer
    → ShadowsocksStreamType
    → ℕ
    → Option TimedSaltChecker
    → Bytes
    → Option BoundKey
    → Option ShadowsocksStream
started buffers stream stream_type salt_len salt_checker encrypt_iv none = none
started buffers stream stream_type salt_len salt_checker encrypt_iv (some sealing_key) =
    some (record {
      stream = stream;
      stream_type = stream_type;
      salt_len = salt_len;
      salt_checker = salt_checker;
      encrypt_iv = encrypt_iv;
      decrypt_iv = none;
      sealing_key = sealing_key;
      opening_key = none;
      unprocessed_buf = buffers.unprocessed;
      unprocessed_start_offset = 0;
      unprocessed_end_offset = 0;
      unprocessed_pending_len = none;
      processed_buf = buffers.processed;
      processed_start_offset = 0;
      processed_end_offset = 0;
      write_cache = buffers.write_cache;
      write_cache_start_offset = 0;
      write_cache_end_offset = 0;
      is_initial_read = true;
      is_initial_write = true;
      is_eof = false;
    })

-- `ShadowsocksStream::new`, with the salt that `generate_iv` fills. `none` is a panic of the key.
unfoldable pub new :
    Cipher
    → Buffers
    → Peer
    → ShadowsocksStreamType
    → ℕ
    → Option TimedSaltChecker
    → Bytes
    → Option ShadowsocksStream
new c buffers stream stream_type salt_len salt_checker encrypt_iv =
    started buffers stream stream_type salt_len salt_checker encrypt_iv (bound_key c encrypt_iv)

abbrev pub available_len : ShadowsocksStream → ℕ
available_len s = s.unprocessed_end_offset - s.unprocessed_start_offset

-- The offsets go back to 0 where nothing is left between them.
unfoldable pub rewind : ShadowsocksStream → ShadowsocksStream
rewind s =
    let at_end = s.unprocessed_start_offset == s.unprocessed_end_offset in
    record s {
      unprocessed_start_offset = if at_end then 0 else s.unprocessed_start_offset;
      unprocessed_end_offset = if at_end then 0 else s.unprocessed_end_offset;
    }

-- What a step that may fail returns, with the stream after it.
pub data Step : Type 0 where
  ok : ShadowsocksStream → Step
  failed : IoError → ShadowsocksStream → Step
  panic : Step

abbrev pub fail : ErrorKind → String → ShadowsocksStream → Step
fail kind message s = failed (record { kind = kind; message = message }) s

infixl 5 ◌>>=◌
abbrev pub ◌>>=◌ : Step → (ShadowsocksStream → Step) → Step
ok s >>= k = k s
failed e s >>= k = failed e s
panic >>= k = panic

-- `if !test { return Err(…) }`
abbrev pub ensure : Bool → ErrorKind → String → ShadowsocksStream → Step
ensure true kind message s = ok s
ensure false kind message s = fail kind message s
