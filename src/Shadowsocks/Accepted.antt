-- ===== src/Shadowsocks/Accepted.antt =====
-- What `process_read_header` of `src/shadowsocks/shadowsocks_stream.rs` accepts as a request of the 2022
-- edition.
use shoes_on_shuttle.Shadowsocks.Fresh.{
  ok-injective, check_salt-eq-ok, check_timestamp-eq-ok, ensure-eq-ok, fixed-eq-ok,
  process_opening_key-eq-ok, NewSalt, then-eq-ok, Recent,
}
use shoes_on_shuttle.Common.{
  ==→eq, length-take, take_front, ℕ, true, Option, some, Bytes, ◌∙◌, sym, ap, refl, arith, drop,
  take, ◌≡◌, ◌+◌, ◌≤◌, ◌==◌, get_or, splice,
}
use mathlib.Core.Path.{subst}
use shoes_on_shuttle.Stream.{ErrorKind}
use shoes_on_shuttle.SaltChecker.{TimedSaltChecker, insert_and_check}
use shoes_on_shuttle.Net.Types.{be_number}
use shoes_on_shuttle.Shadowsocks.Types.{
  ◌>>=◌, Cipher, BoundKey, bound_key, ShadowsocksStream, ShadowsocksStreamType, aead2022_server, ok,
  rewind,
}
use shoes_on_shuttle.Shadowsocks.Header.{
  Clock, received_salt, process_opening_key, check_salt, open_fixed, check_timestamp, check_type,
  keep_salt, behind_request, read_request_header, read_header, process_read_header,
}

-- A request was accepted: `s` is the stream before the header was read, and `t` the one after it, with
-- the header opened in place. Behind the salt are the type and the time.
pub record Accepted (c : Cipher) (clock : Clock) (s t : ShadowsocksStream) : Type 0 where
  pub k : BoundKey
  pub key : bound_key c (received_salt s) ≡ some k
  pub genuine : (c.open_bytes k.key k.nonce (take 27 (drop s.salt_len s.unprocessed_buf))).0 ≡ true
  pub revealed :
      t.unprocessed_buf
      ≡ splice s.unprocessed_buf s.salt_len
          (c.open_bytes k.key k.nonce (take 27 (drop s.salt_len s.unprocessed_buf))).1
  pub same_len : t.salt_len ≡ s.salt_len
  pub client_type : get_or t.unprocessed_buf t.salt_len 0 ≡ 0
  pub recent : Recent clock t
  pub new_salt : NewSalt clock s

abbrev view : ShadowsocksStream → Bytes × ℕ
view s = (s.unprocessed_buf, s.salt_len)

abbrev pub checked : ShadowsocksStream → Option TimedSaltChecker × Bytes
checked s = (s.salt_checker, received_salt s)

-- The server of the 2022 edition accepts only a header that its key for the salt opens, whose type is
-- that of a client, whose time lies at most 30 seconds in the past and at most 2 in the future, and,
-- where it has a checker, whose salt is new to that.
pub process_read_header-Accepted :
    (c : Cipher) (clock : Clock) (s t : ShadowsocksStream)
    → s.stream_type ≡ aead2022_server
    → process_read_header c clock s ≡ ok t
    → Accepted c clock s t
unfolding process_read_header read_request_header rewind
process_read_header-Accepted c clock s t server e =
    let (s7, e7, last) =
      then-eq-ok (read_header s.stream_type c clock s) (λ x. ok (rewind x)) t e in
    let e7' : read_request_header c clock s ≡ ok s7 =
      subst (λ (y : ShadowsocksStreamType). read_header y c clock s ≡ ok s7) server e7 in
    let m1 = process_opening_key c s in
    let m2 = m1 >>= open_fixed c 11 in
    let m3 = m2 >>= check_type 0 "invalid client header type" in
    let m4 = m3 >>= check_timestamp clock in
    let m5 = m4 >>= check_salt clock in
    let (s6, e6, behind) = then-eq-ok (m5 >>= keep_salt) behind_request s7 e7' in
    let (s5, e5, kept) = then-eq-ok m5 keep_salt s6 e6 in
    let (s4, e4, salt) = then-eq-ok m4 (check_salt clock) s5 e5 in
    let (s3, e3, time) = then-eq-ok m3 (check_timestamp clock) s4 e4 in
    let (s2, e2, type) = then-eq-ok m2 (check_type 0 "invalid client header type") s3 e3 in
    let (s1, e1, fixed) = then-eq-ok m1 (open_fixed c 11) s2 e2 in
    let (k, key, is1) = process_opening_key-eq-ok c s s1 e1 in
    let keyed : ShadowsocksStream = record s { opening_key = some k } in
    let (good, inside, is2) =
      fixed-eq-ok c 11 keyed s2 k refl
        (subst (λ (x : ShadowsocksStream). open_fixed c 11 x ≡ ok s2) is1 fixed) in
    let (kind, is3) =
      ensure-eq-ok (get_or s2.unprocessed_buf s2.salt_len 0 == 0) ErrorKind.invalid_data
        "invalid client header type" s2 s3 type in
    let (fresh, is4) = check_timestamp-eq-ok clock s3 s4 time in
    let (new_salt, is5) = check_salt-eq-ok clock s4 s5 salt in
    let is_t : t ≡ rewind s7 = sym (ok-injective (rewind s7) t last) in
    let at_4 : view t ≡ view s4 =
      ap view is_t
      ∙ ap view (sym (ok-injective _ s7 behind))
      ∙ ap view (sym (ok-injective _ s6 kept))
      ∙ ap view is5 in
    let at_3 : view t ≡ view s3 = at_4 ∙ ap view is4 in
    let at_2 : view t ≡ view s2 = at_3 ∙ ap view is3 in
    let same_salt : received_salt s2 ≡ received_salt s =
      ap received_salt is2
      ∙ take_front s.salt_len (received_salt s) _
          (omega (arith, length-take s.salt_len s.unprocessed_buf, inside)) in
    let from_4 : checked s4 ≡ (s.salt_checker, received_salt s) =
      ap checked (is4 ∙ is3) ∙ (λ i. ((is2 i).salt_checker, same_salt i)) in
    record {
      k = k;
      key = key;
      genuine = good;
      revealed =
          ap (λ (v : Bytes × ℕ). v.0) at_2 ∙ ap (λ (x : ShadowsocksStream). x.unprocessed_buf) is2;
      same_len = ap (λ (v : Bytes × ℕ). v.1) at_2 ∙ ap (λ (x : ShadowsocksStream). x.salt_len) is2;
      client_type =
          subst (λ (v : Bytes × ℕ). get_or v.0 v.1 0 ≡ 0) (sym at_2)
            (==→eq (get_or s2.unprocessed_buf s2.salt_len 0) 0 kind);
      recent =
          subst
            (λ (v : Bytes × ℕ).
              (clock.unix_secs ≤ be_number (take 8 (drop (v.1 + 1) v.0)) 0 + 30)
              × (be_number (take 8 (drop (v.1 + 1) v.0)) 0 ≤ clock.unix_secs + 2))
            (sym at_3) fresh;
      new_salt =
          subst
            (λ (v : Option TimedSaltChecker × Bytes).
              (checker : TimedSaltChecker)
              → v.0 ≡ some checker
              → (insert_and_check clock.instant v.1 checker).0 ≡ true)
            from_4 new_salt;
    }
