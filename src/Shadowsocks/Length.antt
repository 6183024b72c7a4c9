-- ===== src/Shadowsocks/Length.antt =====
-- `try_decrypt` of `src/shadowsocks/shadowsocks_stream.rs` behind the length of a packet.
use shoes_on_shuttle.Shadowsocks.Payload.{decrypt_payload-Decrypts, HasPayload}
use shoes_on_shuttle.Shadowsocks.Fits.{max_of, rewind-IsValid, InOrder, Decrypts, Opens}
use shoes_on_shuttle.Common.{
  ℕ, Bool, false, none, some, sym, arith, length, ◌≡◌, ◌+◌, ◌≤◌, ◌<◌, if◌then◌else◌, ltb, inl, inr,
  Bool-cases, lt-or-le,
}
use mathlib.Core.Path.{subst}
use shoes_on_shuttle.Shadowsocks.Types.{
  Cipher, ShadowsocksStream, available_len, rewind, tag_len, metadata_size,
}
use shoes_on_shuttle.Shadowsocks.Decrypt.{need_data, buffer_full, decrypt_payload, with_length}

module _ (c : Cipher) (opens : Opens c) where
  -- The length of the packet was read, and stands no more in front.
  pub record HasLength (len : ℕ) (s : ShadowsocksStream) : Type 0 where
    pub in_order : InOrder s
    pub no_pending : s.unprocessed_pending_len ≡ none
    pub len_in : len ≤ max_of s
    pub tight : 0 < s.processed_end_offset → s.processed_end_offset + available_len s ≤ max_of s
    pub loose : available_len s ≤ max_of s + tag_len

  pub InOrder-HasPayload :
      (len : ℕ) (s : ShadowsocksStream)
      → InOrder s
      → s.unprocessed_pending_len ≡ none
      → len + tag_len ≤ available_len s
      → s.processed_end_offset + len ≤ max_of s
      → s.processed_end_offset + available_len s ≤ max_of s + metadata_size
      → HasPayload c opens len s
  InOrder-HasPayload len s o no_pending there space room = record {
    header_read = o.header_read;
    keyed = o.keyed;
    unprocessed_size = o.unprocessed_size;
    processed_size = o.processed_size;
    unprocessed_in = o.unprocessed_in;
    there = omega (arith, there);
    space = space;
    processed_some = o.processed_none;
    processed_less = o.processed_some;
    no_pending = no_pending;
    room = room;
  }

  pub with_length-Decrypts :
      (len : ℕ) (s : ShadowsocksStream) → HasLength len s → Decrypts s (with_length c len s)
  unfolding with_length rewind
  with_length-Decrypts len s h =
      let o = h.in_order in
      let missing = ltb (available_len s) (len + tag_len) in
      let full = ltb (length s.processed_buf) (s.processed_end_offset + len) in
      let payload = decrypt_payload c len s in
      let u : ShadowsocksStream = record s { unprocessed_pending_len = some len } in
      let Goal = λ (b : Bool).
        Decrypts s (if b then need_data (rewind u) else if full then buffer_full s else payload) in
      elim (Bool-cases missing) [
        | inl less ↦ subst Goal (sym less) (
            let ordered : InOrder u = record {
              header_read = o.header_read;
              keyed = o.keyed;
              unprocessed_size = o.unprocessed_size;
              processed_size = o.processed_size;
              unprocessed_in = o.unprocessed_in;
              unprocessed_none = o.unprocessed_none;
              processed_none = o.processed_none;
              processed_in = o.processed_in;
              processed_some = o.processed_some;
              pending_in = h.len_in;
              room = λ p. omega (arith, h.tight p);
            } in
            let (valid, side, left) = rewind-IsValid u ordered in
            let more : available_len (rewind u) < max_of (rewind u) + metadata_size =
              omega (arith, left, h.loose) in
            (valid, side, more))
        | inr all ↦
            let space : s.processed_end_offset + len ≤ max_of s =
              elim (lt-or-le s.processed_end_offset 1) [
                | inl nothing ↦ omega (arith, h.len_in)
                | inr something ↦ ground (arith, h.tight something, all)
              ] in
            let not_full : full ≡ false = ground (arith, space, o.processed_size) in
            subst Goal (sym all) (
              subst (λ (b : Bool). Decrypts s (if b then buffer_full s else payload)) (sym not_full)
                (decrypt_payload-Decrypts c opens len s (
                  InOrder-HasPayload len s o h.no_pending (ground arith) space
                    elim (lt-or-le s.processed_end_offset 1) [
                      | inl nothing ↦ omega (arith, h.loose)
                      | inr something ↦ omega (arith, h.tight something)
                    ])))
      ]
