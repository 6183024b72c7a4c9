-- ===== src/Shadowsocks/Steps.antt =====
-- `try_decrypt` of `src/shadowsocks/shadowsocks_stream.rs` keeps the stream in order.
use shoes_on_shuttle.Shadowsocks.Length.{InOrder-HasPayload, with_length-Decrypts}
use shoes_on_shuttle.Shadowsocks.Payload.{open_in_place-Opened, Opened, decrypt_payload-Decrypts}
use shoes_on_shuttle.Shadowsocks.Fits.{
  InOrder, pending_size, Fitting, max_of, Decrypts, IsValid, SameSide, Opens,
}
use shoes_on_shuttle.Common.{
  ℕ, Bool, true, false, Option, none, some, ◌∙◌, sym, refl, arith, length, ◌≡◌, ◌+◌, ◌≤◌, ◌<◌,
  if◌then◌else◌, ltb, inl, inr, Bool-cases, lt-or-le, splice,
}
use mathlib.Core.Path.{subst}
use shoes_on_shuttle.Common.Splice.{length-splice}
use shoes_on_shuttle.Shadowsocks.Types.{
  Cipher, ShadowsocksStream, available_len, tag_len, metadata_size,
}
use shoes_on_shuttle.Shadowsocks.Decrypt.{
  length_at, on_length, decrypt_pending, try_decrypt, Opening, opened, open_in_place, Decrypted,
  need_data, buffer_full, success, failed, decrypt_payload, with_length, data_length_len,
}

module _ (c : Cipher) (opens : Opens c) where
  Decrypts-earlier :
      (s u : ShadowsocksStream) (d : Decrypted)
      → SameSide s u
      → available_len u ≤ available_len s
      → Decrypts u d
      → Decrypts s d
  Decrypts-earlier s u (need_data t) (a, b, e) l ((v, (a', b', e'), more)) =
      (v, (a' ∙ a, b' ∙ b, e' ∙ e), more)
  Decrypts-earlier s u (buffer_full t) same l d = d
  Decrypts-earlier s u (success t) (a, b, e) l ((v, (a', b', e'), less, more)) =
      (v, (a' ∙ a, b' ∙ b, e' ∙ e), omega (arith, less, l), more)
  Decrypts-earlier s u (failed message t) same l d = tt
  Decrypts-earlier s u Decrypted.panic same l d = d

  on_length-Decrypts :
      (s : ShadowsocksStream) (o : Opening)
      → IsValid s
      → s.unprocessed_pending_len ≡ none
      → data_length_len ≤ available_len s
      → Opened c opens s.unprocessed_start_offset data_length_len s o
      → Decrypts s (on_length c o)
  on_length-Decrypts s (opened false t) v no_pending there e = tt
  on_length-Decrypts s (opened true t) v no_pending there (text, k, size, bytes, e) =
      let o = v.in_order in
      let start = s.unprocessed_start_offset in
      let buf = splice s.unprocessed_buf start text in
      let u : ShadowsocksStream = record s {
        unprocessed_buf = buf;
        opening_key = some k;
        unprocessed_start_offset = start + data_length_len;
      } in
      let len = length_at start buf in
      let left =
        length-splice s.unprocessed_buf text start (omega (arith, size, there, o.unprocessed_in)) in
      let ordered : InOrder u = record {
        header_read = o.header_read;
        keyed = (k, refl);
        unprocessed_size = left ∙ o.unprocessed_size;
        processed_size = o.processed_size;
        unprocessed_in = omega (arith, left, o.unprocessed_in);
        unprocessed_none = omega (arith, there);
        processed_none = o.processed_none;
        processed_in = o.processed_in;
        processed_some = o.processed_some;
        pending_in = subst (Fitting (max_of s)) (sym no_pending) tt;
        room = λ p. let before = o.room p in omega (arith, before, there);
      } in
      let Goal = λ (b : Bool). Decrypts s (
        if b
        then failed "data length larger than max allowed size"
            (record s { unprocessed_buf = buf; opening_key = some k })
        else with_length c len u) in
      subst (λ (x : ShadowsocksStream). Decrypts s (on_length c (opened true x))) (sym e)
        (elim (Bool-cases (ltb (max_of s) len)) [
          | inl above ↦ subst Goal (sym above) tt
          | inr below ↦ subst Goal (sym below) (
              Decrypts-earlier s u (with_length c len u) (refl, refl, refl) (omega arith)
                (with_length-Decrypts c opens len u (record {
                  in_order = ordered;
                  no_pending = no_pending;
                  len_in = ground (arith, below);
                  tight = λ p. let before = o.room p in omega (arith, before, there);
                  loose = omega (arith, o.unprocessed_in, o.unprocessed_size, there);
                })))
        ])
  on_length-Decrypts s Opening.panic v no_pending there e = absurd e

  decrypt_pending-Decrypts :
      (s : ShadowsocksStream) (o : Option ℕ)
      → IsValid s
      → s.unprocessed_pending_len ≡ o
      → Decrypts s (decrypt_pending c o s)
  decrypt_pending-Decrypts s (some len) v pending =
      let o = v.in_order in
      let missing = ltb (available_len s) (len + tag_len) in
      let full = ltb (length s.processed_buf) (s.processed_end_offset + len) in
      let u : ShadowsocksStream = record s { unprocessed_pending_len = none } in
      let payload = decrypt_payload c len u in
      let Goal = λ (b : Bool).
        Decrypts s (if b then need_data s else if full then buffer_full s else payload) in
      let len_in : len ≤ max_of s = subst (Fitting (max_of s)) pending o.pending_in in
      let tight : 0 < s.processed_end_offset → s.processed_end_offset + available_len s ≤ max_of s =
        λ p.
          let before =
            subst
              (λ (q : Option ℕ).
                s.processed_end_offset + available_len s + pending_size q
                ≤ max_of s + data_length_len)
              pending (o.room p) in
          omega (arith, before) in
      elim (Bool-cases missing) [
        | inl less ↦ subst Goal (sym less) (v, (refl, refl, refl), ground (arith, less, len_in))
        | inr all ↦
            let space : s.processed_end_offset + len ≤ max_of s =
              elim (lt-or-le s.processed_end_offset 1) [
                | inl nothing ↦ omega (arith, len_in)
                | inr something ↦ ground (arith, tight something, all)
              ] in
            let not_full : full ≡ false = ground (arith, space, o.processed_size) in
            let ordered : InOrder u = record {
              header_read = o.header_read;
              keyed = o.keyed;
              unprocessed_size = o.unprocessed_size;
              processed_size = o.processed_size;
              unprocessed_in = o.unprocessed_in;
              unprocessed_none = o.unprocessed_none;
              processed_none = o.processed_none;
              processed_in = o.processed_in;
              processed_some = o.processed_some;
              pending_in = tt;
              room = λ p. omega (arith, tight p);
            } in
            let loose : s.processed_end_offset + available_len s ≤ max_of s + metadata_size =
              elim (lt-or-le s.processed_end_offset 1) [
                | inl nothing ↦ omega (arith, o.unprocessed_in, o.unprocessed_size)
                | inr something ↦ omega (arith, tight something)
              ] in
            subst Goal (sym all) (
              subst (λ (b : Bool). Decrypts s (if b then buffer_full s else payload)) (sym not_full)
                (Decrypts-earlier s u payload (refl, refl, refl) (omega arith)
                  (decrypt_payload-Decrypts c opens len u
                    (InOrder-HasPayload c opens len u ordered refl (ground arith) space loose))))
      ]
  decrypt_pending-Decrypts s none v no_pending =
      let o = v.in_order in
      let missing = ltb (available_len s) data_length_len in
      let opening = open_in_place c s.unprocessed_start_offset data_length_len s in
      let Goal = λ (b : Bool). Decrypts s (if b then need_data s else on_length c opening) in
      elim (Bool-cases missing) [
        | inl less ↦ subst Goal (sym less) (v, (refl, refl, refl), ground (arith, less))
        | inr all ↦
            let there : data_length_len ≤ available_len s = ground (arith, all) in
            subst Goal (sym all) (
              on_length-Decrypts s opening v no_pending there (
                open_in_place-Opened c opens s.unprocessed_start_offset data_length_len s o.keyed.0
                  o.keyed.1 (omega (arith, there, o.unprocessed_in))))
      ]

  -- `try_decrypt` keeps the stream in order.
  pub try_decrypt-Decrypts : (s : ShadowsocksStream) → IsValid s → Decrypts s (try_decrypt c s)
  unfolding try_decrypt
  try_decrypt-Decrypts s v = decrypt_pending-Decrypts s s.unprocessed_pending_len v refl
