-- ===== src/Shadowsocks/Payload.antt =====
-- The end of `try_decrypt` of `src/shadowsocks/shadowsocks_stream.rs`, which opens a payload, keeps the
-- stream in order.
use shoes_on_shuttle.Shadowsocks.Fits.{
  pending_size, Fitting, rewind-IsValid, InOrder, Decrypts, max_of, Opens,
}
use shoes_on_shuttle.Common.{
  length-drop, length-take, ℕ, Bool, true, false, Option, none, some, Bytes, ◌∙◌, sym, refl, arith,
  drop, take, length, ◌≡◌, ◌+◌, ◌-◌, ◌≤◌, ◌<◌, if◌then◌else◌, leb, inl, inr, lt-or-le, get_or,
  splice,
}
use mathlib.Core.Path.{subst}
use shoes_on_shuttle.Common.Splice.{length-splice}
use shoes_on_shuttle.Shadowsocks.Types.{
  Cipher, BoundKey, ShadowsocksStream, available_len, rewind, tag_len, metadata_size,
}
use shoes_on_shuttle.Shadowsocks.Decrypt.{
  Opening, opened, open_with, open_in_place, Decrypted, success, on_payload, decrypt_payload,
  advanced, data_length_len,
}

module _ (c : Cipher) (opens : Opens c) where
  abbrev pub Opened : ℕ → ℕ → ShadowsocksStream → Opening → Type 0
  Opened from len s (opened good t) =
      (text : Bytes) × (k : BoundKey) × (length text ≡ len)
      × ((i : ℕ) → get_or text i 0 < 256)
      × (t
          ≡ record s { unprocessed_buf = splice s.unprocessed_buf from text; opening_key = some k })
  Opened from len s Opening.panic = ⊥

  pub open_in_place-Opened :
      (from len : ℕ) (s : ShadowsocksStream) (k : BoundKey)
      → s.opening_key ≡ some k
      → from + len ≤ length s.unprocessed_buf
      → Opened from len s (open_in_place c from len s)
  unfolding open_in_place
  open_in_place-Opened from len s k has fits =
      let Goal = λ (o : Option BoundKey). Opened from len s (open_with c o from len s) in
      let inside : leb (from + len) (length s.unprocessed_buf) ≡ true = ground arith in
      let text = (c.open_bytes k.key k.nonce (take len (drop from s.unprocessed_buf))).1 in
      let size : length text ≡ len = omega (
        arith,
        opens.same_length k.key k.nonce (take len (drop from s.unprocessed_buf)),
        length-take len (drop from s.unprocessed_buf),
        length-drop from s.unprocessed_buf,
      ) in
      let good = (c.open_bytes k.key k.nonce (take len (drop from s.unprocessed_buf))).0 in
      subst Goal (sym has) (
        subst
          (λ (b : Bool). Opened from len s (
            if b
            then opened good (record s {
              unprocessed_buf = splice s.unprocessed_buf from text;
              opening_key = some (advanced k);
            })
            else Opening.panic))
          (sym inside)
          (
            text,
            advanced k,
            size,
            opens.bytes k.key k.nonce (take len (drop from s.unprocessed_buf)),
            refl,
          ))

  -- A payload of `len` bytes with its tag is there, and there is room for it.
  pub record HasPayload (len : ℕ) (s : ShadowsocksStream) : Type 0 where
    pub header_read : s.is_initial_read ≡ false
    pub keyed : (k : BoundKey) × (s.opening_key ≡ some k)
    pub unprocessed_size : length s.unprocessed_buf ≡ max_of s + metadata_size
    pub processed_size : length s.processed_buf ≡ max_of s
    pub unprocessed_in : s.unprocessed_end_offset ≤ length s.unprocessed_buf
    pub there : s.unprocessed_start_offset + (len + tag_len) ≤ s.unprocessed_end_offset
    pub space : s.processed_end_offset + len ≤ max_of s
    pub processed_some : s.processed_start_offset ≤ s.processed_end_offset
    pub processed_less :
        0 < s.processed_end_offset → s.processed_start_offset < s.processed_end_offset
    pub no_pending : s.unprocessed_pending_len ≡ none
    pub room : s.processed_end_offset + available_len s ≤ max_of s + metadata_size

  module _ (len : ℕ) (s : ShadowsocksStream) (h : HasPayload len s) where
    payload_InOrder :
        (text : Bytes) (k : BoundKey)
        → length text ≡ len + tag_len
        → (payload : Bytes) → length payload ≤ len
        → InOrder (record s {
          unprocessed_buf = splice s.unprocessed_buf s.unprocessed_start_offset text;
          opening_key = some k;
          processed_buf = splice s.processed_buf s.processed_end_offset payload;
          processed_end_offset = s.processed_end_offset + len;
          unprocessed_start_offset = s.unprocessed_start_offset + (len + tag_len);
        })
    payload_InOrder text k size payload small =
        let start = s.unprocessed_start_offset in
        let left =
          length-splice s.unprocessed_buf text start (omega (arith, h.there, h.unprocessed_in)) in
        let out =
          length-splice s.processed_buf payload s.processed_end_offset
            (omega (arith, h.space, h.processed_size)) in
        record {
          header_read = h.header_read;
          keyed = (k, refl);
          unprocessed_size = left ∙ h.unprocessed_size;
          processed_size = out ∙ h.processed_size;
          unprocessed_in = omega (arith, left, h.unprocessed_in);
          unprocessed_none = h.there;
          processed_in = omega (arith, out, h.space, h.processed_size);
          processed_none = omega (arith, h.processed_some);
          processed_some = λ p. elim (lt-or-le s.processed_end_offset 1) [
            | inl nothing ↦ omega (arith, h.processed_some)
            | inr something ↦ omega (arith, h.processed_less something)
          ];
          pending_in = subst (Fitting (max_of s)) (sym h.no_pending) tt;
          room = λ p.
              subst
                (λ (o : Option ℕ).
                  s.processed_end_offset
                    + len
                    + (s.unprocessed_end_offset - (start + (len + tag_len)))
                    + pending_size o
                  ≤ max_of s + data_length_len)
                (sym h.no_pending) (omega (arith, h.room, h.there));
        }

    on_payload-Decrypts :
        (o : Opening)
        → Opened s.unprocessed_start_offset (len + tag_len) s o
        → Decrypts s (on_payload len o)
    unfolding rewind
    on_payload-Decrypts (opened false t) e = tt
    on_payload-Decrypts (opened true t) (text, k, size, bytes, e) =
        let start = s.unprocessed_start_offset in
        let buf = splice s.unprocessed_buf start text in
        let payload : Bytes = take len (drop start buf) in
        let u : ShadowsocksStream = record s {
          unprocessed_buf = buf;
          opening_key = some k;
          processed_buf = splice s.processed_buf s.processed_end_offset payload;
          processed_end_offset = s.processed_end_offset + len;
          unprocessed_start_offset = start + (len + tag_len);
        } in
        let fits : leb (s.processed_end_offset + len) (length s.processed_buf) ≡ true =
          ground (arith, h.space, h.processed_size) in
        let small : length payload ≤ len = omega (arith, length-take len (drop start buf)) in
        let (valid, side, left) = rewind-IsValid u (payload_InOrder text k size payload small) in
        let less : available_len (rewind u) < available_len s = omega (arith, left, h.there) in
        let more : available_len (rewind u) < max_of (rewind u) + metadata_size =
          omega (arith, left, h.there, h.room) in
        subst (λ (x : ShadowsocksStream). Decrypts s (on_payload len (opened true x))) (sym e)
          (subst (λ (b : Bool). Decrypts s (if b then success (rewind u) else Decrypted.panic))
            (sym fits) (valid, side, less, more))
    on_payload-Decrypts Opening.panic e = absurd e

    pub decrypt_payload-Decrypts : Decrypts s (decrypt_payload c len s)
    unfolding decrypt_payload
    decrypt_payload-Decrypts =
        on_payload-Decrypts (open_in_place c s.unprocessed_start_offset (len + tag_len) s) (
          open_in_place-Opened s.unprocessed_start_offset (len + tag_len) s h.keyed.0 h.keyed.1
            (omega (arith, h.there, h.unprocessed_in)))
