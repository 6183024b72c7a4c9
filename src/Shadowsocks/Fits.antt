-- ===== src/Shadowsocks/Fits.antt =====
-- The state of `ShadowsocksStream` of `src/shadowsocks/shadowsocks_stream.rs` behind its header.
use shoes_on_shuttle.Common.{
  ℕ, Bool, false, Option, none, some, Bytes, sym, refl, arith, length, ◌≡◌, ◌+◌, ◌≤◌, ◌<◌, ◌==◌,
  if◌then◌else◌, inl, inr, Bool-cases, get_or,
}
use mathlib.Core.Path.{subst}
use shoes_on_shuttle.Shadowsocks.Types.{
  Cipher, BoundKey, ShadowsocksStream, available_len, rewind, max_payload_len, metadata_size,
}
use shoes_on_shuttle.Shadowsocks.Decrypt.{
  Decrypted, need_data, buffer_full, success, failed, data_length_len,
}

-- What the ciphers do to what they open: as many are there afterwards, and they are bytes.
pub record Opens (c : Cipher) : Type 0 where
  pub same_length : (k n b : Bytes) → length (c.open_bytes k n b).1 ≡ length b
  pub bytes : (k n b : Bytes) (i : ℕ) → get_or (c.open_bytes k n b).1 i 0 < 256

-- With a length pending, 18 bytes less can follow.
abbrev pub pending_size : Option ℕ → ℕ
pending_size none = 0
pending_size (some len) = data_length_len

abbrev pub Fitting : ℕ → Option ℕ → Type 0
Fitting max none = Unit
Fitting max (some len) = len ≤ max

-- The sizes of the buffers and the order of the offsets. What is processed and what can still be
-- processed of what is there fits in the buffer for it.
pub record InOrder (s : ShadowsocksStream) : Type 0 where
  pub header_read : s.is_initial_read ≡ false
  pub keyed : (k : BoundKey) × (s.opening_key ≡ some k)
  pub unprocessed_size : length s.unprocessed_buf ≡ max_payload_len s.stream_type + metadata_size
  pub processed_size : length s.processed_buf ≡ max_payload_len s.stream_type
  pub unprocessed_in : s.unprocessed_end_offset ≤ length s.unprocessed_buf
  pub unprocessed_none : s.unprocessed_start_offset ≤ s.unprocessed_end_offset
  pub processed_none : s.processed_start_offset ≤ s.processed_end_offset
  pub processed_in : s.processed_end_offset ≤ length s.processed_buf
  pub processed_some :
      0 < s.processed_end_offset → s.processed_start_offset < s.processed_end_offset
  pub pending_in : Fitting (max_payload_len s.stream_type) s.unprocessed_pending_len
  pub room :
      0 < s.processed_end_offset
      → s.processed_end_offset + available_len s + pending_size s.unprocessed_pending_len
        ≤ max_payload_len s.stream_type + data_length_len

pub record IsValid (s : ShadowsocksStream) : Type 0 where
  pub in_order : InOrder s
  pub unprocessed_some :
      0 < s.unprocessed_end_offset → s.unprocessed_start_offset < s.unprocessed_end_offset

abbrev pub max_of : ShadowsocksStream → ℕ
max_of s = max_payload_len s.stream_type

-- What does not change while packets are decrypted.
abbrev pub SameSide : ShadowsocksStream → ShadowsocksStream → Type 0
SameSide s t =
    (t.stream ≡ s.stream) × (t.is_eof ≡ s.is_eof) × (t.is_initial_read ≡ s.is_initial_read)

pub rewind-IsValid :
    (s : ShadowsocksStream)
    → InOrder s
    → IsValid (rewind s) × SameSide s (rewind s) × (available_len (rewind s) ≡ available_len s)
unfolding rewind
rewind-IsValid s o =
    let at_end = s.unprocessed_start_offset == s.unprocessed_end_offset in
    let at = λ (b : Bool). record s {
      unprocessed_start_offset = if b then 0 else s.unprocessed_start_offset;
      unprocessed_end_offset = if b then 0 else s.unprocessed_end_offset;
    } in
    let Goal =
      λ (b : Bool). IsValid (at b) × SameSide s (at b) × (available_len (at b) ≡ available_len s) in
    elim (Bool-cases at_end) [
      | inl ends ↦
          let left : available_len s ≡ 0 = ground arith in
          subst Goal (sym ends) (
            record {
              in_order = record {
                header_read = o.header_read;
                keyed = o.keyed;
                unprocessed_size = o.unprocessed_size;
                processed_size = o.processed_size;
                unprocessed_in = omega arith;
                unprocessed_none = omega arith;
                processed_in = o.processed_in;
                processed_none = o.processed_none;
                processed_some = o.processed_some;
                pending_in = o.pending_in;
                room = λ p. omega (arith, o.room p);
              };
              unprocessed_some = λ p. absurd (omega arith);
            },
            (refl, refl, refl),
            sym left,
          )
      | inr goes_on ↦ subst Goal (sym goes_on) (
        record { in_order = o; unprocessed_some = λ p. ground (arith, o.unprocessed_none) },
        (refl, refl, refl),
        refl,
      )
    ]

-- A step of decryption leaves the stream in order: it never finds the buffer full, and where it needs
-- more data, there is room for them; a success uses up a tag at least.
abbrev pub Decrypts : ShadowsocksStream → Decrypted → Type 0
Decrypts s (need_data t) = IsValid t × SameSide s t × (available_len t < max_of t + metadata_size)
Decrypts s (buffer_full t) = ⊥
Decrypts s (success t) =
    IsValid t
    × SameSide s t
    × (available_len t < available_len s)
    × (available_len t < max_of t + metadata_size)
Decrypts s (failed message t) = Unit
Decrypts s Decrypted.panic = ⊥
