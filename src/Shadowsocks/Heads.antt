-- ===== src/Shadowsocks/Heads.antt =====
-- The steps of `process_read_header` of `src/shadowsocks/shadowsocks_stream.rs` on a whole header.
use shoes_on_shuttle.Shadowsocks.Payload.{open_in_place-Opened, Opened}
use shoes_on_shuttle.Net.Types.{be_number}
use shoes_on_shuttle.SaltChecker.{insert_and_check, TimedSaltChecker}
use shoes_on_shuttle.Stream.{ErrorKind}
use shoes_on_shuttle.Common.{
  length-take, ℕ, Bool, true, false, Option, none, some, Bytes, ◌∙◌, sym, refl, arith, drop, take,
  length, ◌≡◌, ◌+◌, ◌-◌, ◌≤◌, ◌<◌, if◌then◌else◌, ltb, get_or, not,
}
use mathlib.Core.Path.{subst}
use Prim.Native.String.{String}
use shoes_on_shuttle.Common.Splice.{length-splice, get_or-splice_inside}
use shoes_on_shuttle.Shadowsocks.Types.{
  ◌>>=◌, Cipher, BoundKey, bound_key, ShadowsocksStream, ShadowsocksStreamType, tag_len,
  metadata_size, max_payload_len, Step, ok, ensure,
}
use shoes_on_shuttle.Shadowsocks.Decrypt.{Opening, opened, open_in_place}
use shoes_on_shuttle.Shadowsocks.Header.{
  with_opening_key, on_fixed, on_checked, Clock, received_salt, process_opening_key, check_salt,
  check_with, open_fixed, check_timestamp,
}
use shoes_on_shuttle.Shadowsocks.Fits.{Opens}

-- The keys for salts of the length of the cipher have the length of the algorithm.
abbrev pub Keys : Cipher → ℕ → Type 0
Keys c salt_len =
    (salt : Bytes) → length salt ≡ salt_len → (k : BoundKey) × (bound_key c salt ≡ some k)

-- What holds of the stream where a step succeeds; none panics.
abbrev pub Ensures : (ShadowsocksStream → Type 0) → Step → Type 0
Ensures P (ok s) = P s
Ensures P (Step.failed e s) = Unit
Ensures P Step.panic = ⊥

pub then-Ensures :
    (P Q : ShadowsocksStream → Type 0) (m : Step) (k : ShadowsocksStream → Step)
    → Ensures P m
    → ((s : ShadowsocksStream) → P s → Ensures Q (k s))
    → Ensures Q (m >>= k)
then-Ensures P Q (ok s) k p h = h s p
then-Ensures P Q (Step.failed e s) k p h = tt
then-Ensures P Q Step.panic k p h = absurd p

pub ensure-Ensures :
    (P : ShadowsocksStream → Type 0) (b : Bool) (kind : ErrorKind) (message : String)
    (s : ShadowsocksStream)
    → P s
    → Ensures P (ensure b kind message s)
ensure-Ensures P true kind message s p = p
ensure-Ensures P false kind message s p = tt

-- The buffers of a stream that has processed nothing, with `n` bytes at least to process.
abbrev pub Headed : ShadowsocksStreamType → ℕ → ℕ → ShadowsocksStream → Type 0
Headed type salt_len n s =
    (s.stream_type ≡ type)
    × (s.salt_len ≡ salt_len)
    × (length s.unprocessed_buf ≡ max_payload_len type + metadata_size)
    × (length s.processed_buf ≡ max_payload_len type)
    × (n ≤ s.unprocessed_end_offset)
    × (s.unprocessed_end_offset ≤ length s.unprocessed_buf)
    × ((s.unprocessed_start_offset ≡ 0)
        × (s.processed_end_offset ≡ 0)
        × (s.processed_start_offset ≡ 0)
        × (s.unprocessed_pending_len ≡ none))

-- There is a key, and what stands behind the salt are bytes.
abbrev pub Keyed : ShadowsocksStreamType → ℕ → ℕ → ShadowsocksStream → Type 0
Keyed type salt_len n s = Headed type salt_len n s × ((k : BoundKey) × (s.opening_key ≡ some k))

abbrev pub Revealed : ShadowsocksStreamType → ℕ → ℕ → ShadowsocksStream → Type 0
Revealed type salt_len n s =
    Keyed type salt_len n s × ((i : ℕ) → salt_len ≤ i → i < n → get_or s.unprocessed_buf i 0 < 256)

pub check_salt-Ensures :
    (P : ShadowsocksStream → Type 0) (clock : Clock) (s : ShadowsocksStream)
    → P s
    → ((checker : TimedSaltChecker) → P (record s { salt_checker = some checker }))
    → Ensures P (check_salt clock s)
unfolding check_salt
check_salt-Ensures P clock s p h = with_checker s.salt_checker
  where
    checked : (r : Bool × TimedSaltChecker) → Ensures P (on_checked s r)
    checked (true, checker) = h checker
    checked (false, checker) = tt

    with_checker : (o : Option TimedSaltChecker) → Ensures P (check_with clock o s)
    with_checker none = p
    with_checker (some checker) = checked (insert_and_check clock.instant (received_salt s) checker)

pub check_timestamp-Ensures :
    (P : ShadowsocksStream → Type 0) (clock : Clock) (s : ShadowsocksStream)
    → P s
    → Ensures P (check_timestamp clock s)
unfolding check_timestamp
check_timestamp-Ensures P clock s p =
    let timestamp_secs = be_number (take 8 (drop (s.salt_len + 1) s.unprocessed_buf)) 0 in
    by_order (ltb clock.unix_secs timestamp_secs) (not (ltb 2 (timestamp_secs - clock.unix_secs)))
      (not (ltb 30 (clock.unix_secs - timestamp_secs)))
  where
    by_order :
        (later soon recent : Bool)
        → Ensures P (
            if later
            then ensure soon ErrorKind.other "timestamp is in the future" s
            else ensure recent ErrorKind.other "timestamp is greater than 30 seconds" s)
    by_order true soon recent =
        ensure-Ensures P soon ErrorKind.other "timestamp is in the future" s p
    by_order false soon recent =
        ensure-Ensures P recent ErrorKind.other "timestamp is greater than 30 seconds" s p

module _ (c : Cipher) (opens : Opens c) (type : ShadowsocksStreamType) (salt_len n : ℕ) where
  pub process_opening_key-Keyed :
      (s : ShadowsocksStream)
      → Keys c salt_len
      → salt_len ≤ n
      → Headed type salt_len n s
      → Ensures (Keyed type salt_len n) (process_opening_key c s)
  unfolding process_opening_key
  process_opening_key-Keyed s keys salt_in h =
      let (same_type, same_len, size, processed, whole, inside, rest) = h in
      let salt : length (received_salt s) ≡ salt_len =
        omega (arith, length-take s.salt_len s.unprocessed_buf, same_len, whole, inside) in
      let (k, bound) = keys (received_salt s) salt in
      subst (λ (o : Option BoundKey). Ensures (Keyed type salt_len n) (with_opening_key o s))
        (sym bound) (h, (k, refl))

  pub open_fixed-Revealed :
      (len : ℕ) (s : ShadowsocksStream)
      → salt_len + (len + tag_len) ≡ n
      → Keyed type salt_len n s
      → Ensures (Revealed type salt_len n) (open_fixed c len s)
  unfolding open_fixed
  open_fixed-Revealed len s sum
        ((same_type, same_len, size, processed, whole, inside, rest), (k, has)) =
      on_opening (open_in_place c s.salt_len (len + tag_len) s) (
        open_in_place-Opened c opens s.salt_len (len + tag_len) s k has
          (omega (arith, sum, same_len, whole, inside)))
    where
      on_opening :
          (o : Opening)
          → Opened c opens s.salt_len (len + tag_len) s o
          → Ensures (Revealed type salt_len n) (on_fixed o)
      on_opening (opened false t) e = tt
      on_opening (opened true t) (text, k', long, bytes, e) =
          subst
            (λ (x : ShadowsocksStream).
              Ensures (Revealed type salt_len n) (on_fixed (opened true x)))
            (sym e)
            ((let fits : s.salt_len + length text ≤ length s.unprocessed_buf =
                omega (arith, long, sum, same_len, whole, inside) in
              let left = length-splice s.unprocessed_buf text s.salt_len fits in
              (
                (
                  (
                    same_type,
                    same_len,
                    left ∙ size,
                    processed,
                    whole,
                    omega (arith, left, inside),
                    rest,
                  ),
                  (k', refl),
                ),
                λ i from below.
                    let here : s.salt_len + (i - s.salt_len) ≡ i = omega (arith, from, same_len) in
                    let inside_text : i - s.salt_len < length text =
                      omega (arith, from, below, long, sum, same_len) in
                    subst (λ (m : ℕ). m < 256)
                      (sym (
                        get_or-splice_inside s.unprocessed_buf text s.salt_len i fits
                          (i - s.salt_len) inside_text (sym here)))
                      (bytes (i - s.salt_len)),
              )))
      on_opening Opening.panic e = absurd e
