-- ===== src/Shadowsocks/Roundtrip.antt =====
-- `try_decrypt` of `src/shadowsocks/shadowsocks_stream.rs` gives back what was packed.
use shoes_on_shuttle.Common.{
  drop_front, take_front, append_assoc, length-append, IsByte, All, ℕ, Bool, true, false, Option,
  none, some, Bytes, ◌++◌, ◌∙◌, sym, ap, refl, arith, drop, take, length, ◌≡◌, ◌+◌, ◌-◌, ◌≤◌, ◌==◌,
  if◌then◌else◌, ltb, leb, inl, inr, Bool-cases, get_or, splice,
}
use mathlib.Core.Path.{subst}
use shoes_on_shuttle.Common.Holds.{
  Holds, Holds-length, Holds-take, Holds-get_or, Holds-drop, Holds-append,
}
use shoes_on_shuttle.Common.Splice.{length-splice}
use shoes_on_shuttle.Net.Types.{high_byte, to_be_bytes}
use shoes_on_shuttle.Shadowsocks.Types.{
  ShadowsocksStreamType, Cipher, BoundKey, ShadowsocksStream, available_len, rewind, tag_len,
  max_payload_len,
}
use shoes_on_shuttle.Shadowsocks.Decrypt.{
  open_in_place, Decrypted, need_data, buffer_full, on_payload, decrypt_payload, with_length,
  on_length, try_decrypt, length_at, advanced, decrypt_pending, data_length_len,
}
use shoes_on_shuttle.Shadowsocks.Packets.{
  Aead, sealed, packet, behind, length-sealed, open_in_place-sealed,
}

-- What the stream holds: the key that comes next, what is unprocessed, and what is processed.
pub record Between (s : ShadowsocksStream) (k : BoundKey) (ahead out : Bytes) : Type 0 where
  pub has_key : s.opening_key ≡ some k
  pub no_pending : s.unprocessed_pending_len ≡ none
  pub unprocessed :
      Holds s.unprocessed_buf s.unprocessed_start_offset s.unprocessed_end_offset ahead
  pub processed : Holds s.processed_buf s.processed_start_offset s.processed_end_offset out

-- What decrypting changes of the rest: `n` bytes more are processed.
abbrev pub Kept : ℕ → ShadowsocksStream → ShadowsocksStream → Type 0
Kept n s t =
    (t.stream ≡ s.stream)
    × (t.stream_type ≡ s.stream_type)
    × (length t.unprocessed_buf ≡ length s.unprocessed_buf)
    × (length t.processed_buf ≡ length s.processed_buf)
    × (t.processed_end_offset ≡ s.processed_end_offset + n)
    × (t.processed_start_offset ≡ s.processed_start_offset)
    × (t.is_eof ≡ s.is_eof)
    × (t.is_initial_read ≡ s.is_initial_read)
    × (available_len t ≡ 0 → t.unprocessed_end_offset ≡ 0)

rewind-Between :
    (s : ShadowsocksStream) (k : BoundKey) (ahead out : Bytes)
    → Between s k ahead out
    → Between (rewind s) k ahead out × Kept 0 s (rewind s)
unfolding rewind
rewind-Between s k ahead out b =
    let start = s.unprocessed_start_offset in
    let end = s.unprocessed_end_offset in
    let h = b.unprocessed in
    let at =
      λ (x : Bool). Holds s.unprocessed_buf (if x then 0 else start) (if x then 0 else end) ahead in
    let at_end = λ (x : Bool).
      (if x then 0 else end) - (if x then 0 else start) ≡ 0 → (if x then 0 else end) ≡ 0 in
    let back : at_end (start == end) = elim (Bool-cases (start == end)) [
      | inl ends ↦ subst at_end (sym ends) (λ e. refl)
      | inr goes_on ↦
          subst at_end (sym goes_on) (λ e. absurd (ground (arith, goes_on, h.ordered, e)))
    ] in
    let kept : Kept 0 s (rewind s) =
      (refl, refl, refl, refl, omega arith, refl, refl, refl, back) in
    let held : at (start == end) = elim (Bool-cases (start == end)) [
      | inl ends ↦
          let none_left : end - start ≡ 0 = ground (arith, ends) in
          subst at (sym ends) (record {
            ordered = omega arith;
            in_buf = omega arith;
            same = ap (λ (n : ℕ). take n (drop start s.unprocessed_buf)) (sym none_left) ∙ h.same;
          })
      | inr goes_on ↦ subst at (sym goes_on) h
    ] in
    (
      record {
        has_key = b.has_key;
        no_pending = b.no_pending;
        unprocessed = held;
        processed = b.processed;
      },
      kept,
    )

pub max_below : (type : ShadowsocksStreamType) → max_payload_len type ≤ 0xffff
max_below ShadowsocksStreamType.aead = omega arith
max_below ShadowsocksStreamType.aead2022_server = omega arith
max_below ShadowsocksStreamType.aead2022_client = omega arith

module _ (c : Cipher) (lawful : Aead c) where
  decrypt_payload-sealed :
      (k : BoundKey) (m rest out : Bytes) (s : ShadowsocksStream)
      → All IsByte m
      → length m ≤ 0x10000
      → s.processed_end_offset + length m ≤ length s.processed_buf
      → Between s k (sealed c k m ++ rest) out
      → (t : ShadowsocksStream) × (decrypt_payload c (length m) s ≡ Decrypted.success t)
        × Between t (advanced k) rest (out ++ m)
        × Kept (length m) s t
  unfolding decrypt_payload rewind
  decrypt_payload-sealed k m rest out s bytes small space b =
      let len = length m in
      let start = s.unprocessed_start_offset in
      let end = s.unprocessed_end_offset in
      let (tag, buf, tag_size, opening, held, same_size) =
        open_in_place-sealed c lawful k m rest (len + tag_len) s b.has_key bytes small refl
          b.unprocessed in
      let text : Bytes = take len (drop start buf) in
      let is_m : text ≡ m =
        Holds-take buf start end ((m ++ tag) ++ rest) held len
          (omega (arith, length-append (m ++ tag) rest, length-append m tag))
        ∙ ap (take len) (append_assoc m tag rest)
        ∙ take_front len m (tag ++ rest) refl in
      let u : ShadowsocksStream = record s {
        unprocessed_buf = buf;
        opening_key = some (advanced k);
        processed_buf = splice s.processed_buf s.processed_end_offset text;
        processed_end_offset = s.processed_end_offset + len;
        unprocessed_start_offset = start + (len + tag_len);
      } in
      let fits : leb (s.processed_end_offset + len) (length s.processed_buf) ≡ true =
        ground (arith, space) in
      let between : Between u (advanced k) rest (out ++ m) = record {
        has_key = refl;
        no_pending = b.no_pending;
        unprocessed =
            subst (Holds buf (start + (len + tag_len)) end)
              (drop_front (len + tag_len) (m ++ tag) rest
                (omega (arith, length-append m tag, tag_size)))
              (Holds-drop buf start end ((m ++ tag) ++ rest) held (len + tag_len)
                (omega (arith, length-append (m ++ tag) rest, length-append m tag, tag_size)));
        processed =
            subst
              (λ (x : Bytes).
                Holds u.processed_buf s.processed_start_offset u.processed_end_offset (out ++ x))
              is_m
              (Holds-append s.processed_buf s.processed_start_offset s.processed_end_offset
                u.processed_end_offset out text (omega (arith, ap length is_m)) space b.processed);
      } in
      let (after, kept) = rewind-Between u (advanced k) rest (out ++ m) between in
      (
        rewind u,
        ap (on_payload len) opening
            ∙ ap (λ (b : Bool). if b then Decrypted.success (rewind u) else Decrypted.panic) fits,
        after,
        (
          kept.0,
          kept.1,
          kept.2 ∙ same_size,
          kept.3
              ∙ length-splice s.processed_buf text s.processed_end_offset
                  (omega (arith, ap length is_m, space)),
          omega (arith, kept.4),
          kept.5,
          kept.6,
          kept.7,
          kept.8,
        ),
      )

  -- A packet in front of the unprocessed data is opened, its payload put behind what is processed, and
  -- the packet taken away.
  pub try_decrypt-packet :
      (k : BoundKey) (m rest out : Bytes) (s : ShadowsocksStream)
      → All IsByte m
      → length m ≤ max_payload_len s.stream_type
      → s.processed_end_offset + length m ≤ length s.processed_buf
      → Between s k (packet c k m ++ rest) out
      → (t : ShadowsocksStream) × (try_decrypt c s ≡ Decrypted.success t)
        × Between t (behind k) rest (out ++ m)
        × Kept (length m) s t
  unfolding try_decrypt with_length
  try_decrypt-packet k m rest out s bytes small space b =
      let len = length m in
      let start = s.unprocessed_start_offset in
      let end = s.unprocessed_end_offset in
      let below : max_payload_len s.stream_type ≤ 0xffff = max_below s.stream_type in
      let size_bytes = to_be_bytes len in
      let tail : Bytes = sealed c (advanced k) m ++ rest in
      let ahead =
        subst (Holds s.unprocessed_buf start end)
          (append_assoc (sealed c k size_bytes) (sealed c (advanced k) m) rest) b.unprocessed in
      let (tag, buf, tag_size, opening, held, same_size) =
        open_in_place-sealed c lawful k size_bytes tail data_length_len s b.has_key (omega arith)
          (omega arith) refl ahead in
      let size_len = length-sealed c lawful k size_bytes (omega arith) in
      let data_len = length-sealed c lawful (advanced k) m (omega (arith, small, below)) in
      let behind_length : Holds buf (start + data_length_len) end tail =
        subst (Holds buf (start + data_length_len) end)
          (drop_front data_length_len (size_bytes ++ tag) tail
            (omega (arith, length-append size_bytes tag, tag_size)))
          (Holds-drop buf start end ((size_bytes ++ tag) ++ tail) held data_length_len (
            omega (
              arith,
              length-append (size_bytes ++ tag) tail,
              length-append size_bytes tag,
              tag_size,
            ))) in
      let read : length_at start buf ≡ len =
        let first = Holds-get_or buf start end ((size_bytes ++ tag) ++ tail) held 0 (omega arith) in
        let second =
          Holds-get_or buf start end ((size_bytes ++ tag) ++ tail) held 1 (omega arith) in
        let at_start : start + 0 ≡ start = omega arith in
        let high : get_or buf start 0 ≡ high_byte len =
          ap (λ (i : ℕ). get_or buf i 0) (sym at_start) ∙ first in
        omega (arith, high, second, small, below) in
      let u : ShadowsocksStream = record s {
        unprocessed_buf = buf;
        opening_key = some (advanced k);
        unprocessed_start_offset = start + data_length_len;
      } in
      let between : Between u (advanced k) tail out = record {
        has_key = refl;
        no_pending = b.no_pending;
        unprocessed = behind_length;
        processed = b.processed;
      } in
      let max = max_payload_len s.stream_type in
      let too_large : Decrypted =
        Decrypted.failed "data length larger than max allowed size"
          (record s { unprocessed_buf = buf; opening_key = some (advanced k) }) in
      let opening_of = open_in_place c start data_length_len s in
      let full = ltb (length s.processed_buf) (s.processed_end_offset + len) in
      let whole = Holds-length s.unprocessed_buf start end (sealed c k size_bytes ++ tail) ahead in
      let left = Holds-length buf (start + data_length_len) end tail behind_length in
      let enough : ltb (available_len s) data_length_len ≡ false =
        ground (arith, whole, length-append (sealed c k size_bytes) tail, size_len) in
      let there : ltb (available_len u) (len + tag_len) ≡ false =
        ground (arith, left, length-append (sealed c (advanced k) m) rest, data_len) in
      let allowed : ltb max len ≡ false = ground (arith, small) in
      let not_full : full ≡ false = ground (arith, space) in
      let (t, success, after, kept) =
        decrypt_payload-sealed (advanced k) m rest out u bytes (omega (arith, small, below)) space
          between in
      (
        t,
        ap (λ (o : Option ℕ). decrypt_pending c o s) b.no_pending
            ∙ ap (λ (x : Bool). if x then need_data s else on_length c opening_of) enough
            ∙ ap (on_length c) opening
            ∙ ap (λ (n : ℕ). if ltb max n then too_large else with_length c n u) read
            ∙ ap (λ (x : Bool). if x then too_large else with_length c len u) allowed
            ∙ ap
                (λ (x : Bool).
                  if x
                  then need_data (rewind (record u { unprocessed_pending_len = some len }))
                  else if full
                  then buffer_full u
                  else decrypt_payload c len u)
                there
            ∙ ap (λ (x : Bool). if x then buffer_full u else decrypt_payload c len u) not_full
            ∙ success,
        after,
        (kept.0, kept.1, kept.2 ∙ same_size, kept.3, kept.4, kept.5, kept.6, kept.7, kept.8),
      )
