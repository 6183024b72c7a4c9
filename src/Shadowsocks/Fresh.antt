-- ===== src/Shadowsocks/Fresh.antt =====
-- The steps of `process_read_header` of `src/shadowsocks/shadowsocks_stream.rs` where they succeed.
use shoes_on_shuttle.Common.{
  Option-cases, ℕ, Bool, true, false, Option, none, some, ◌∙◌, sym, ap, refl, arith, drop, take,
  length, ◌≡◌, ◌+◌, ◌-◌, ◌≤◌, if◌then◌else◌, ltb, leb, inl, inr, Bool-cases, splice, not,
}
use mathlib.Core.Path.{subst}
use Prim.Native.String.{String}
use shoes_on_shuttle.Stream.{ErrorKind}
use shoes_on_shuttle.SaltChecker.{TimedSaltChecker, insert_and_check}
use shoes_on_shuttle.Net.Types.{be_number}
use shoes_on_shuttle.Shadowsocks.Types.{
  ◌>>=◌, Cipher, BoundKey, bound_key, ShadowsocksStream, tag_len, Step, ok, ensure,
}
use shoes_on_shuttle.Shadowsocks.Decrypt.{Opening, opened, open_with, open_in_place, advanced}
use shoes_on_shuttle.Shadowsocks.Header.{
  Clock, received_salt, with_opening_key, process_opening_key, check_salt, check_with, on_checked,
  open_fixed, on_fixed, check_timestamp,
}

pub then-eq-ok :
    (m : Step) (k : ShadowsocksStream → Step) (t : ShadowsocksStream)
    → m >>= k ≡ ok t
    → (s : ShadowsocksStream) × (m ≡ ok s) × (k s ≡ ok t)
then-eq-ok (ok s) k t e = (s, refl, e)
then-eq-ok (Step.failed x s) k t e = absurd (cc)
then-eq-ok Step.panic k t e = absurd (cc)

pub ok-injective : (s t : ShadowsocksStream) → ok s ≡ ok t → s ≡ t
ok-injective s t e = cc

pub ensure-eq-ok :
    (b : Bool) (kind : ErrorKind) (message : String) (s t : ShadowsocksStream)
    → ensure b kind message s ≡ ok t
    → (b ≡ true) × (t ≡ s)
ensure-eq-ok true kind message s t e = (refl, sym (ok-injective s t e))
ensure-eq-ok false kind message s t e = absurd (cc)

-- The salt was new to the checker.
abbrev pub NewSalt : Clock → ShadowsocksStream → Type 0
NewSalt clock s =
    (checker : TimedSaltChecker)
    → s.salt_checker ≡ some checker
    → (insert_and_check clock.instant (received_salt s) checker).0 ≡ true

abbrev pub stamp : ShadowsocksStream → ℕ
stamp s = be_number (take 8 (drop (s.salt_len + 1) s.unprocessed_buf)) 0

abbrev pub Recent : Clock → ShadowsocksStream → Type 0
Recent clock s = (clock.unix_secs ≤ stamp s + 30) × (stamp s ≤ clock.unix_secs + 2)

pub process_opening_key-eq-ok :
    (c : Cipher) (s t : ShadowsocksStream)
    → process_opening_key c s ≡ ok t
    → (k : BoundKey) × (bound_key c (received_salt s) ≡ some k)
      × (t ≡ record s { opening_key = some k })
unfolding process_opening_key
process_opening_key-eq-ok c s t e = elim (Option-cases (bound_key c (received_salt s))) [
  | inl missing ↦
      absurd (cc (subst (λ (o : Option BoundKey). with_opening_key o s ≡ ok t) missing e))
  | inr (k, has) ↦ (
    k,
    has,
    sym (ok-injective _ t (subst (λ (o : Option BoundKey). with_opening_key o s ≡ ok t) has e)),
  )
]

pub check_timestamp-eq-ok :
    (clock : Clock) (s t : ShadowsocksStream)
    → check_timestamp clock s ≡ ok t
    → Recent clock s × (t ≡ s)
unfolding check_timestamp
check_timestamp-eq-ok clock s t e =
    let recent = not (ltb 30 (clock.unix_secs - stamp s)) in
    let soon = not (ltb 2 (stamp s - clock.unix_secs)) in
    let late : Step = ensure recent ErrorKind.other "timestamp is greater than 30 seconds" s in
    let early : Step = ensure soon ErrorKind.other "timestamp is in the future" s in
    let at = λ (b : Bool). (if b then early else late) ≡ ok t in
    elim (Bool-cases (ltb clock.unix_secs (stamp s))) [
      | inl later ↦
          let (fine, same) =
            ensure-eq-ok soon ErrorKind.other "timestamp is in the future" s t (subst at later e) in
          ((ground (arith, later), ground (arith, later, fine)), same)
      | inr earlier ↦
          let (fine, same) =
            ensure-eq-ok recent ErrorKind.other "timestamp is greater than 30 seconds" s t
              (subst at earlier e) in
          ((ground (arith, earlier, fine), ground (arith, earlier)), same)
    ]

pub check_salt-eq-ok :
    (clock : Clock) (s t : ShadowsocksStream)
    → check_salt clock s ≡ ok t
    → NewSalt clock s × (t ≡ record s { salt_checker = t.salt_checker })
unfolding check_salt
check_salt-eq-ok clock s t e = with_checker s.salt_checker refl e
  where
    same :
        (u : ShadowsocksStream)
        → u ≡ record s { salt_checker = u.salt_checker }
        → u ≡ t
        → t ≡ record s { salt_checker = t.salt_checker }
    same u shape moved =
        subst (λ (x : ShadowsocksStream). x ≡ record s { salt_checker = x.salt_checker }) moved
          shape

    by_answer :
        (checker : TimedSaltChecker) (r : Bool × TimedSaltChecker)
        → s.salt_checker ≡ some checker
        → insert_and_check clock.instant (received_salt s) checker ≡ r
        → on_checked s r ≡ ok t
        → NewSalt clock s × (t ≡ record s { salt_checker = t.salt_checker })
    by_answer checker (true, after) has found e' = (
      λ checker' has'.
          let one : checker ≡ checker' = cc in
          ap (λ (x : TimedSaltChecker). (insert_and_check clock.instant (received_salt s) x).0)
            (sym one)
          ∙ ap (λ (r : Bool × TimedSaltChecker). r.0) found,
      same (record s { salt_checker = some after }) refl
          (ok-injective (record s { salt_checker = some after }) t e'),
    )
    by_answer checker (false, after) has found e' = absurd (cc)

    with_checker :
        (o : Option TimedSaltChecker)
        → s.salt_checker ≡ o
        → check_with clock o s ≡ ok t
        → NewSalt clock s × (t ≡ record s { salt_checker = t.salt_checker })
    with_checker none no_checker e' =
        (λ checker has. absurd (cc), same s refl (ok-injective s t e'))
    with_checker (some checker) has e' =
        by_answer checker (insert_and_check clock.instant (received_salt s) checker) has refl e'

pub fixed-eq-ok :
    (c : Cipher) (len : ℕ) (s t : ShadowsocksStream) (k : BoundKey)
    → s.opening_key ≡ some k
    → open_fixed c len s ≡ ok t
    → let r =
        c.open_bytes k.key k.nonce (take (len + tag_len) (drop s.salt_len s.unprocessed_buf)) in
      (r.0 ≡ true)
      × (s.salt_len ≤ length s.unprocessed_buf)
      × (t ≡ record s {
        unprocessed_buf = splice s.unprocessed_buf s.salt_len r.1;
        opening_key = some (advanced k);
      })
unfolding open_fixed open_in_place
fixed-eq-ok c len s t k has e =
    let n = len + tag_len in
    let r = c.open_bytes k.key k.nonce (take n (drop s.salt_len s.unprocessed_buf)) in
    let u : ShadowsocksStream = record s {
      unprocessed_buf = splice s.unprocessed_buf s.salt_len r.1;
      opening_key = some (advanced k);
    } in
    let inside = leb (s.salt_len + n) (length s.unprocessed_buf) in
    let at = λ (b : Bool). on_fixed (if b then opened r.0 u else Opening.panic) ≡ ok t in
    let e' : at inside =
      subst (λ (o : Option BoundKey). on_fixed (open_with c o s.salt_len n s) ≡ ok t) has e in
    elim (Bool-cases inside) [
      | inl fits ↦ elim (Bool-cases r.0) [
        | inl good ↦ (
          good,
          ground (arith, fits),
          sym (
              ok-injective u t
                (subst (λ (b : Bool). on_fixed (opened b u) ≡ ok t) good (subst at fits e'))),
        )
        | inr bad ↦
            absurd (cc (subst (λ (b : Bool). on_fixed (opened b u) ≡ ok t) bad (subst at fits e')))
      ]
      | inr outside ↦ absurd (cc (subst at outside e'))
    ]
