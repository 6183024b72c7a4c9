-- ===== src/Shadowsocks/Headers.antt =====
-- The three headers that `process_read_header` of `src/shadowsocks/shadowsocks_stream.rs` reads.
use shoes_on_shuttle.Shadowsocks.Heads.{
  check_timestamp-Ensures, open_fixed-Revealed, ensure-Ensures, check_salt-Ensures,
  process_opening_key-Keyed, then-Ensures, Ensures, Revealed, Keyed, Headed, Keys,
}
use shoes_on_shuttle.Hex.{zip_eq}
use shoes_on_shuttle.Stream.{ErrorKind}
use shoes_on_shuttle.Common.{
  ℕ, false, Option, some, ◌∙◌, sym, ap, refl, arith, ◌≡◌, ◌+◌, ◌≤◌, ◌==◌, get_or,
}
use mathlib.Core.Path.{subst}
use Prim.Native.String.{String}
use shoes_on_shuttle.Shadowsocks.Types.{
  rewind, ◌>>=◌, Cipher, ShadowsocksStream, ShadowsocksStreamType, aead, aead2022_server,
  aead2022_client, tag_len, metadata_size, max_payload_len, Step, ok,
}
use shoes_on_shuttle.Shadowsocks.Decrypt.{length_at}
use shoes_on_shuttle.Shadowsocks.Header.{
  read_header, process_read_header, behind_response, returned_salt, check_returned_salt,
  behind_request, behind_salt, check_type, keep_salt, Clock, process_opening_key, check_salt,
  open_fixed, check_timestamp, read_aead_header, read_request_header, read_response_header,
  header_len,
}
use shoes_on_shuttle.Shadowsocks.Fits.{rewind-IsValid, Fitting, Opens, InOrder, IsValid}

-- The header was read.
abbrev pub Behind : ShadowsocksStream → Type 0
Behind s = InOrder (record s { is_initial_read = false })

module _ (c : Cipher) (opens : Opens c) (clock : Clock) (salt_len : ℕ) (keys : Keys c salt_len)
    (short : salt_len ≤ 32) where
  InOrder-Behind :
      (type : ShadowsocksStreamType) (n start : ℕ) (o : Option ℕ) (s : ShadowsocksStream)
      → Keyed type salt_len n s
      → start ≤ n
      → Fitting (max_payload_len type) o
      → Behind (record s { unprocessed_start_offset = start; unprocessed_pending_len = o })
  InOrder-Behind type n start o s
        (
          (
            same_type,
            same_len,
            size,
            processed,
            whole,
            inside,
            (from, none_out, none_in, no_pending),
          ),
          keyed,
        )
        l fits =
      record {
        header_read = refl;
        keyed = keyed;
        unprocessed_size =
            size
            ∙ ap (λ (y : ShadowsocksStreamType). max_payload_len y + metadata_size) (sym same_type);
        processed_size = processed ∙ ap max_payload_len (sym same_type);
        unprocessed_in = inside;
        unprocessed_none = omega (arith, l, whole);
        processed_none = omega (arith, none_in);
        processed_in = omega (arith, none_out);
        processed_some = λ p. absurd (omega (arith, p, none_out));
        pending_in =
            subst (λ (y : ShadowsocksStreamType). Fitting (max_payload_len y) o) (sym same_type)
              fits;
        room = λ p. absurd (omega (arith, p, none_out));
      }

  read_aead_header-Behind :
      (s : ShadowsocksStream)
      → Headed aead salt_len salt_len s
      → Ensures Behind (read_aead_header c clock s)
  unfolding read_aead_header
  read_aead_header-Behind s h =
      let Head = Headed aead salt_len salt_len in
      let Key = Keyed aead salt_len salt_len in
      let m = check_salt clock s in
      let checked = check_salt-Ensures Head clock s h (λ checker. h) in
      let opened_key = then-Ensures Head Key m (process_opening_key c) checked (λ t h'.
        process_opening_key-Keyed c opens aead salt_len salt_len t keys (omega arith) h') in
      then-Ensures Key Behind (m >>= process_opening_key c) behind_salt opened_key (λ t h'.
        let ((_, same_len, _, _, _, _, (from, _, _, no_pending)), _) = h' in
        InOrder-Behind aead salt_len (t.unprocessed_start_offset + t.salt_len)
          t.unprocessed_pending_len t h' (omega (arith, from, same_len))
          (subst (Fitting (max_payload_len aead)) (sym no_pending) tt))

  -- The length of the packet behind a header is that of two bytes.
  length_at-below :
      (type : ShadowsocksStreamType) (n at : ℕ) (s : ShadowsocksStream)
      → Revealed type salt_len n s
      → salt_len ≤ at
      → at + 2 ≤ n
      → max_payload_len type ≡ 0xffff
      → length_at at s.unprocessed_buf ≤ max_payload_len type
  length_at-below type n at s (_, small) from below wide =
      omega (arith, small at from (omega arith), small (at + 1) (omega arith) (omega arith), wide)

  module _ (type : ShadowsocksStreamType) (n len : ℕ) (sum : salt_len + (len + tag_len) ≡ n) where
    -- The steps that both headers of the 2022 edition begin with.
    abbrev common : ℕ → String → ShadowsocksStream → Step
    common code message s =
        process_opening_key c s
        >>= open_fixed c len
        >>= check_type code message
        >>= check_timestamp clock
        >>= check_salt clock

    common-Revealed :
        (code : ℕ) (message : String) (s : ShadowsocksStream)
        → Headed type salt_len n s
        → Ensures (Revealed type salt_len n) (common code message s)
    common-Revealed code message s h =
        let Key = Keyed type salt_len n in
        let Seen = Revealed type salt_len n in
        let m1 = process_opening_key c s in
        let e1 = process_opening_key-Keyed c opens type salt_len n s keys (omega (arith, sum)) h in
        let m2 = m1 >>= open_fixed c len in
        let e2 =
          then-Ensures Key Seen m1 (open_fixed c len) e1
            (λ t h'. open_fixed-Revealed c opens type salt_len n len t sum h') in
        let m3 = m2 >>= check_type code message in
        let e3 = then-Ensures Seen Seen m2 (check_type code message) e2 (λ t h'.
          ensure-Ensures Seen (get_or t.unprocessed_buf t.salt_len 0 == code) ErrorKind.invalid_data
            message t h') in
        let m4 = m3 >>= check_timestamp clock in
        let e4 =
          then-Ensures Seen Seen m3 (check_timestamp clock) e3
            (λ t h'. check_timestamp-Ensures Seen clock t h') in
        then-Ensures Seen Seen m4 (check_salt clock) e4
          (λ t h'. check_salt-Ensures Seen clock t h' (λ checker. h'))

  read_request_header-Behind :
      (s : ShadowsocksStream)
      → Headed aead2022_server salt_len (salt_len + 11 + tag_len) s
      → Ensures Behind (read_request_header c clock s)
  unfolding read_request_header
  read_request_header-Behind s h =
      let n = salt_len + 11 + tag_len in
      let Seen = Revealed aead2022_server salt_len n in
      let m = common aead2022_server n 11 (omega arith) 0 "invalid client header type" s in
      let e =
        common-Revealed aead2022_server n 11 (omega arith) 0 "invalid client header type" s h in
      let kept = then-Ensures Seen Seen m keep_salt e (λ t h'. h') in
      then-Ensures Seen Behind (m >>= keep_salt) behind_request kept (λ t h'.
        let same_len : t.salt_len ≡ salt_len = h'.0.0.1 in
        let from : t.unprocessed_start_offset ≡ 0 = h'.0.0.6.0 in
        let at = t.salt_len + 9 in
        InOrder-Behind aead2022_server n (t.unprocessed_start_offset + (t.salt_len + 11 + tag_len))
          (some (length_at at t.unprocessed_buf)) t h'.0 (omega (arith, from, same_len))
          (length_at-below aead2022_server n at t h' (omega (arith, same_len))
            (omega (arith, same_len)) refl))

  read_response_header-Behind :
      (s : ShadowsocksStream)
      → Headed aead2022_client salt_len (salt_len + 11 + salt_len + tag_len) s
      → Ensures Behind (read_response_header c clock s)
  unfolding read_response_header
  read_response_header-Behind s h =
      let n = salt_len + 11 + salt_len + tag_len in
      let len = 11 + s.salt_len in
      let sum : salt_len + (len + tag_len) ≡ n = omega (arith, h.1) in
      let Seen = Revealed aead2022_client salt_len n in
      let m = common aead2022_client n len sum 1 "invalid server header type" s in
      let e = common-Revealed aead2022_client n len sum 1 "invalid server header type" s h in
      let checked = then-Ensures Seen Seen m check_returned_salt e (λ t h'.
        ensure-Ensures Seen (zip_eq (returned_salt t) t.encrypt_iv) ErrorKind.invalid_data
          "server returned request salt does not match" t h') in
      then-Ensures Seen Behind (m >>= check_returned_salt) behind_response checked (λ t h'.
        let same_len : t.salt_len ≡ salt_len = h'.0.0.1 in
        let at = t.salt_len + 9 + t.salt_len in
        InOrder-Behind aead2022_client n (t.salt_len + 11 + t.salt_len + tag_len)
          (some (length_at at t.unprocessed_buf)) t h'.0 (omega (arith, same_len))
          (length_at-below aead2022_client n at t h' (omega (arith, same_len))
            (omega (arith, same_len)) refl))

  -- A whole header is read without a panic, and what is behind it is in order.
  pub process_read_header-Ensures :
      (type : ShadowsocksStreamType) (s : ShadowsocksStream)
      → Headed type salt_len (header_len type salt_len) s
      → Ensures
          (λ t. IsValid (record t { is_initial_read = false }))
          (process_read_header c clock s)
  unfolding process_read_header rewind
  process_read_header-Ensures type s h =
      let Goal = λ (t : ShadowsocksStream). IsValid (record t { is_initial_read = false }) in
      then-Ensures Behind Goal (read_header s.stream_type c clock s) (λ t. ok (rewind t))
        (subst (λ (y : ShadowsocksStreamType). Ensures Behind (read_header y c clock s)) (sym h.0)
          (by_type type h))
        (λ t o. (rewind-IsValid (record t { is_initial_read = false }) o).0)
    where
      by_type :
          (y : ShadowsocksStreamType)
          → Headed y salt_len (header_len y salt_len) s
          → Ensures Behind (read_header y c clock s)
      by_type aead h' = read_aead_header-Behind s h'
      by_type aead2022_server h' = read_request_header-Behind s h'
      by_type aead2022_client h' = read_response_header-Behind s h'
