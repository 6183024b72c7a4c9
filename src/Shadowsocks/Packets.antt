-- ===== src/Shadowsocks/Packets.antt =====
-- `try_decrypt` of `src/shadowsocks/shadowsocks_stream.rs` on the packets that `encrypt_single` writes.
use shoes_on_shuttle.Common.{
  length-drop, take-append-drop, IsByte, take_front, length-append, All, append-nil, ℕ, Bool, true,
  Option, none, some, Bytes, [], ◌++◌, ◌∙◌, sym, ap, arith, drop, take, length, ◌≡◌, ◌+◌, ◌≤◌,
  if◌then◌else◌, leb, splice,
}
use shoes_on_shuttle.Common.Splice.{length-splice}
use shoes_on_shuttle.Common.Holds.{Holds, Holds-length, Holds-take, Holds-splice}
use shoes_on_shuttle.Net.Types.{to_be_bytes}
use shoes_on_shuttle.Shadowsocks.Types.{Cipher, BoundKey, ShadowsocksStream, tag_len}
use shoes_on_shuttle.Shadowsocks.Decrypt.{Opening, opened, open_with, open_in_place, advanced}

-- What sealing with a key and a nonce makes of bytes: as many bytes, and a tag.
pub record Sealed (c : Cipher) (k n m : Bytes) : Type 0 where
  pub tag : Bytes
  pub succeeds : (c.seal k n m).0 ≡ some tag
  pub tag_size : length tag ≡ tag_len
  pub text_size : length (c.seal k n m).1 ≡ length m

-- An AEAD: what a key opens keeps its length, what is no longer than a packet can be sealed, and a
-- sealed text of bytes with its tag is opened again under the same key and nonce, in place of the text.
pub record Aead (c : Cipher) : Type 0 where
  pub keeps_length : (k n b : Bytes) → length (c.open_bytes k n b).1 ≡ length b
  pub seals : (k n m : Bytes) → length m ≤ 0x10000 → Sealed c k n m
  pub opens :
      (k n m tag : Bytes)
      → All IsByte m
      → (c.seal k n m).0 ≡ some tag
      → ((c.open_bytes k n ((c.seal k n m).1 ++ tag)).0 ≡ true)
        × (take (length m) (c.open_bytes k n ((c.seal k n m).1 ++ tag)).1 ≡ m)

abbrev pub tag_of : Option Bytes → Bytes
tag_of none = []
tag_of (some tag) = take tag_len tag

-- The sealed text with its tag.
abbrev pub sealed : Cipher → BoundKey → Bytes → Bytes
sealed c k m = let (tag, text) = c.seal k.key k.nonce m in text ++ tag_of tag

-- A packet: its length and its payload, sealed with one nonce and the next.
abbrev pub packet : Cipher → BoundKey → Bytes → Bytes
packet c k payload = sealed c k (to_be_bytes (length payload)) ++ sealed c (advanced k) payload

-- The key behind a packet.
abbrev pub behind : BoundKey → BoundKey
behind k = advanced (advanced k)

take-all : (n : ℕ) (xs : Bytes) → length xs ≡ n → take n xs ≡ xs
take-all n xs e = ap (take n) (sym (append-nil xs)) ∙ take_front n xs [] (sym e)

module _ (c : Cipher) (lawful : Aead c) where
  -- What `sealed` is.
  sealed_lem :
      (k : BoundKey) (m : Bytes) (s : Sealed c k.key k.nonce m)
      → sealed c k m ≡ (c.seal k.key k.nonce m).1 ++ s.tag
  sealed_lem k m s =
      let text = (c.seal k.key k.nonce m).1 in
      ap (λ (o : Option Bytes). text ++ tag_of o) s.succeeds
      ∙ ap (◌++◌ text) (take-all tag_len s.tag s.tag_size)

  pub length-sealed :
      (k : BoundKey) (m : Bytes) → length m ≤ 0x10000 → length (sealed c k m) ≡ length m + tag_len
  length-sealed k m small =
      let s = lawful.seals k.key k.nonce m small in
      let text = (c.seal k.key k.nonce m).1 in
      ap length (sealed_lem k m s)
      ∙ omega (arith, length-append text s.tag, s.text_size, s.tag_size)

  -- Opening what was sealed gives it back, in front of as many bytes as the tag has.
  record Opened (k : BoundKey) (m : Bytes) : Type 0 where
    tag : Bytes
    good : (c.open_bytes k.key k.nonce (sealed c k m)).0 ≡ true
    text : (c.open_bytes k.key k.nonce (sealed c k m)).1 ≡ m ++ tag
    tag_size : length tag ≡ tag_len

  opened_lem : (k : BoundKey) (m : Bytes) → All IsByte m → length m ≤ 0x10000 → Opened k m
  opened_lem k m bytes small =
      let s = lawful.seals k.key k.nonce m small in
      let same = sealed_lem k m s in
      let (good, front) = lawful.opens k.key k.nonce m s.tag bytes s.succeeds in
      let out = (c.open_bytes k.key k.nonce (sealed c k m)).1 in
      let size : length out ≡ length m + tag_len =
        lawful.keeps_length k.key k.nonce (sealed c k m) ∙ length-sealed k m small in
      record {
        tag = drop (length m) out;
        good = ap (λ (b : Bytes). (c.open_bytes k.key k.nonce b).0) same ∙ good;
        text =
            sym (take-append-drop (length m) out)
            ∙ ap (λ (b : Bytes). b ++ drop (length m) out)
                (ap (λ (b : Bytes). take (length m) (c.open_bytes k.key k.nonce b).1) same ∙ front);
        tag_size = omega (arith, length-drop (length m) out, size);
      }

  -- What stands in front of the unprocessed data was sealed with the key, and is opened in place.
  pub open_in_place-sealed :
      (k : BoundKey) (m rest : Bytes) (len : ℕ) (s : ShadowsocksStream)
      → s.opening_key ≡ some k
      → All IsByte m
      → length m ≤ 0x10000
      → len ≡ length m + tag_len
      → Holds s.unprocessed_buf s.unprocessed_start_offset s.unprocessed_end_offset
          (sealed c k m ++ rest)
      → (tag buf : Bytes) × (length tag ≡ tag_len)
        × (open_in_place c s.unprocessed_start_offset len s
            ≡ opened true (record s { unprocessed_buf = buf; opening_key = some (advanced k) }))
        × Holds buf s.unprocessed_start_offset s.unprocessed_end_offset ((m ++ tag) ++ rest)
        × (length buf ≡ length s.unprocessed_buf)
  unfolding open_in_place
  open_in_place-sealed k m rest len s has bytes small e h =
      let o = opened_lem k m bytes small in
      let size = length-sealed k m small in
      let start = s.unprocessed_start_offset in
      let whole = sealed c k m in
      let ahead : take len (drop start s.unprocessed_buf) ≡ whole =
        Holds-take s.unprocessed_buf start s.unprocessed_end_offset (whole ++ rest) h len
          (omega (arith, e, size, length-append whole rest))
        ∙ take_front len whole rest (omega (arith, e, size)) in
      let buf = splice s.unprocessed_buf start (m ++ o.tag) in
      let same_size : length (m ++ o.tag) ≡ length whole =
        omega (arith, length-append m o.tag, o.tag_size, size) in
      let fits : start + len ≤ length s.unprocessed_buf = omega (
        arith,
        Holds-length s.unprocessed_buf start s.unprocessed_end_offset (whole ++ rest) h,
        h.in_buf,
        h.ordered,
        e,
        size,
        length-append whole rest,
      ) in
      let inside : leb (start + len) (length s.unprocessed_buf) ≡ true = ground (arith, fits) in
      let result = λ (r : Bool × Bytes) (b : Bool).
        if b
        then opened r.0 (record s {
          unprocessed_buf = splice s.unprocessed_buf start r.1;
          opening_key = some (advanced k);
        })
        else Opening.panic in
      let opening : c.open_bytes k.key k.nonce whole ≡ (true, m ++ o.tag) =
        λ i. (o.good i, o.text i) in
      (
        o.tag,
        buf,
        o.tag_size,
        ap (λ (x : Option BoundKey). open_with c x start len s) has
            ∙ ap
                (λ (b : Bytes).
                  result (c.open_bytes k.key k.nonce b)
                    (leb (start + len) (length s.unprocessed_buf)))
                ahead
            ∙ ap (λ (r : Bool × Bytes). result r (leb (start + len) (length s.unprocessed_buf)))
                opening
            ∙ ap (result (true, m ++ o.tag)) inside,
        Holds-splice s.unprocessed_buf start s.unprocessed_end_offset whole (m ++ o.tag) rest
            same_size h,
        length-splice s.unprocessed_buf (m ++ o.tag) start
            (omega (arith, fits, same_size, e, size)),
      )
