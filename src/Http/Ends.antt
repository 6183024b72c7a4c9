-- ===== src/Http/Ends.antt =====
-- The loops over the header lines of `src/http_handler.rs` come to an end.
use shoes_on_shuttle.Http.Boundary.{from_27-some}
use shoes_on_shuttle.Common.{
  both, bytes_eq→eq, take, Option, ℕ, zero, suc, Bool, true, false, none, some, Bytes, ◌++◌, ◌∙◌,
  sym, ap, refl, arith, drop, length, ◌≡◌, ◌+◌, ◌<◌, ◌==◌, ◌&&◌, if◌then◌else◌, ltb, leb, inl, inr,
  Bool-cases, not, bytes_eq, length-append, length-drop,
}
use mathlib.Core.Path.{subst}
use shoes_on_shuttle.Http.Server.{
  compare_token, from_27, Needed, check_token, take_token, is_connection_header, forward_header,
  connect_header, push_line, connect_headers, forward_headers, header_fuel,
  proxy_auth_header_prefix,
}
use shoes_on_shuttle.Common.Text.{crlf, starts_with, to_ascii_lowercase}
use shoes_on_shuttle.LineReader.{
  LineReader, Below, read_line, read_line_bytes, decoded, unparsed_data,
}
use shoes_on_shuttle.LineReader.Lines.{IsValid, Finds, ReadsLine}
use shoes_on_shuttle.LineReader.Reads.{read_line_bytes-ReadsLine}
use shoes_on_shuttle.Net.Utf8.{is_utf8}
use shoes_on_shuttle.Stream.{
  expect, Io, Outcome, Stream, ok, err, panic, pure, fail, ensure, ◌>>=◌, ◌>>◌, ErrorKind,
}
use Prim.Native.String.{String}

-- A step that does not panic, and what holds of its result.
abbrev Total : {A : Type 0} → (A → Stream → Type 0) → Outcome A → Type 0
Total Q (ok a s) = Q a s
Total Q (err e s) = Unit
Total Q panic = ⊥

module _ {A B : Type 0} (P : A → Stream → Type 0) (Q : B → Stream → Type 0) where
  then-Total :
      (o : Outcome A) (f : A → Io B)
      → Total P o
      → ((a : A) (s : Stream) → P a s → Total Q (f a s))
      → Total Q (elim o [ ok a s' ↦ f a s' | err e s' ↦ err e s' | panic ↦ panic ])
  then-Total (ok a s) f h k = k a s h
  then-Total (err e s) f h k = tt
  then-Total panic f h k = absurd h

if-Total :
    {B : Type 0} (Q : B → Stream → Type 0) (c : Bool) (m m' : Io B) (s : Stream)
    → Total Q (m s)
    → Total Q (m' s)
    → Total Q ((if c then m else m') s)
if-Total Q true m m' s h h' = h
if-Total Q false m m' s h h' = h'

-- A reader and a stream that have `n` bytes to come.
record Coming (r : LineReader) (s : Stream) (n : ℕ) : Type 0 where
  bytes : Bytes
  valid : IsValid r bytes
  count : length bytes + length s.incoming ≡ n

-- Fewer than `n` bytes are left.
abbrev Fewer : ℕ → LineReader → Stream → Type 0
Fewer n r s = (m : ℕ) × (m < n) × Coming r s m

-- A line of text was read, and fewer than `n` bytes are left.
abbrev TextRead : ℕ → Bytes × LineReader → Stream → Type 0
TextRead n read s = (is_utf8 read.0 ≡ true) × Fewer n read.1 s

decoded-Total :
    (n : ℕ) (now written : Bytes) (o : Outcome (Bytes × LineReader))
    → length now ≡ n
    → ReadsLine now written o
    → Total (TextRead n) (decoded o)
decoded-Total n now written (ok (line, r) s) e h =
    let m = length h.rest + length s.incoming in
    let left : m ≡ length (drop (suc h.pos) now) =
      sym (length-append h.rest s.incoming) ∙ ap length h.left in
    let fewer : m < n = omega (arith, left, length-drop (suc h.pos) now, h.found.within, e) in
    let Goal = λ (b : Bool). Total (TextRead n) (
      if b
      then ok (line, r) s
      else err (record { kind = ErrorKind.invalid_data; message = "Failed to decode utf8" }) s) in
    elim (Bool-cases (is_utf8 line)) [
      | inl text ↦
          subst Goal (sym text)
            (text, (m, fewer, record { bytes = h.rest; valid = h.valid; count = refl }))
      | inr other ↦ subst Goal (sym other) tt
    ]
decoded-Total n now written (err e' s) e h = tt
decoded-Total n now written panic e h = h

-- The token is compared behind the prefix of a header, where a character starts.
check_token-Total :
    (message : String) (token line : Bytes) (s : Stream)
    → from_27 line ≡ some (drop 27 line)
    → Total (λ still t. t ≡ s) (check_token message token line s)
check_token-Total message token line s whole =
    let Goal = λ (o : Option Bytes).
      Total (λ (still : Needed) t. t ≡ s) ((expect o >>= compare_token message token) s) in
    subst Goal (sym whole) (
      if-Total (λ (still : Needed) t. t ≡ s) (bytes_eq (drop 27 line) token) (pure none)
        (fail ErrorKind.invalid_input message) s refl tt)

take_token-Total :
    (needed : Needed) (line : Bytes) (s : Stream)
    → from_27 line ≡ some (drop 27 line)
    → Total (λ done t. t ≡ s) (take_token needed line s)
take_token-Total none line s whole = refl
take_token-Total (some token) line s whole =
    then-Total (λ still t. t ≡ s) (λ done t. t ≡ s)
      (check_token "Incorrect HTTP GET authentication" token line s) (λ still. pure (still, false))
      (check_token-Total "Incorrect HTTP GET authentication" token line s whole) (λ still t e. e)

forward_header-Total :
    (needed : Needed) (line : Bytes) (s : Stream)
    → is_utf8 line ≡ true
    → Total (λ done t. t ≡ s) (forward_header needed line s)
unfolding forward_header starts_with
forward_header-Total needed line s text =
    let lower = to_ascii_lowercase line in
    let long = ltb 28 (length line) in
    let prefixed = starts_with proxy_auth_header_prefix lower in
    let Q = λ (done : Needed × Bool) (t : Stream). t ≡ s in
    let Goal = λ (b : Bool).
      Total Q (
        (if b then take_token needed line else pure (needed, not (is_connection_header lower)))
          s) in
    elim (Bool-cases (long && prefixed)) [
      | inl is_auth ↦
          let (enough, starts) = both long prefixed is_auth in
          let (_, same) =
            both (leb 27 (length lower)) (bytes_eq (take 27 lower) proxy_auth_header_prefix)
              starts in
          let whole =
            from_27-some line text (bytes_eq→eq (take 27 lower) proxy_auth_header_prefix same)
              (ground (arith, enough)) in
          subst Goal (sym is_auth) (take_token-Total needed line s whole)
      | inr other ↦ subst Goal (sym other) refl
    ]

push_line-Total :
    (request line : Bytes) (kept : Bool) (s : Stream)
    → Total (λ request' t. t ≡ s) (push_line request line kept s)
push_line-Total request line false s = refl
push_line-Total request line true s =
    let request' = request ++ (line ++ crlf) in
    let Goal = λ (b : Bool).
      Total (λ (r : Bytes) t. t ≡ s)
        ((ensure b ErrorKind.invalid_data "HTTP GET request is too long" >> pure request') s) in
    elim (Bool-cases (leb (length request') 16384)) [
      | inl short ↦ subst Goal (sym short) refl
      | inr long ↦ subst Goal (sym long) tt
    ]

module _ (below : Below) (finds : Finds below) where
  read_line-Total :
      (n : ℕ) (r : LineReader) (s : Stream)
      → Coming r s n
      → Total (TextRead n) (read_line below r s)
  unfolding read_line
  read_line-Total n r s c =
      decoded-Total n (c.bytes ++ s.incoming) s.written (read_line_bytes below r s)
        (length-append c.bytes s.incoming ∙ c.count)
        (read_line_bytes-ReadsLine below finds r c.bytes s c.valid)

  connect_headers-Total :
      (fuel n : ℕ) (r : LineReader) (s : Stream)
      → Coming r s n
      → n < fuel
      → Total (λ read t. Unit {0}) (connect_headers below fuel none r s)
  unfolding connect_headers connect_header
  connect_headers-Total zero n r s c enough = absurd (omega arith)
  connect_headers-Total (suc fuel) n r s c enough =
      let Q = λ (read : Needed × LineReader) (t : Stream). Unit {0} in
      then-Total (TextRead n) Q (read_line below r s) _ (read_line-Total n r s c)
        (λ read t (_, (m, fewer, c')).
          if-Total Q (length read.0 == 0) (pure (none, read.1))
            (connect_headers below fuel none read.1) t tt
            (connect_headers-Total fuel m read.1 t c' (omega (arith, fewer, enough))))

  forward_headers-Total :
      (fuel n : ℕ) (needed : Needed) (request : Bytes) (r : LineReader) (s : Stream)
      → Coming r s n
      → n < fuel
      → Total (λ read t. Unit {0}) (forward_headers below fuel needed request r s)
  unfolding forward_headers
  forward_headers-Total zero n needed request r s c enough = absurd (omega arith)
  forward_headers-Total (suc fuel) n needed request r s c enough =
      let Q = λ (read : Needed × Bytes × LineReader) (t : Stream). Unit {0} in
      let push = λ (line : Bytes) (r' : LineReader) (done : Needed × Bool).
        push_line request line done.1 >>= λ request'.
        forward_headers below fuel done.0 request' r' in
      then-Total (TextRead n) Q (read_line below r s) _ (read_line-Total n r s c)
        (λ read t (text, (m, fewer, c')).
          if-Total Q (length read.0 == 0) (pure (needed, request, read.1))
            (forward_header needed read.0 >>= push read.0 read.1) t tt
            (then-Total (λ done u. u ≡ t) Q (forward_header needed read.0 t) (push read.0 read.1)
              (forward_header-Total needed read.0 t text)
              (λ done u same.
                then-Total (λ request' v. v ≡ u) Q (push_line request read.0 done.1 u)
                  (λ request'. forward_headers below fuel done.0 request' read.1)
                  (push_line-Total request read.0 done.1 u)
                  (λ request' v same'.
                    forward_headers-Total fuel m done.0 request' read.1 v
                      (subst (λ (x : Stream). Coming read.1 x m) (sym (same' ∙ same)) c')
                      (omega (arith, fewer, enough))))))

Total-panic : {A : Type 0} (Q : A → Stream → Type 0) (o : Outcome A) → Total Q o → ¬ (o ≡ panic)
Total-panic Q o h e = subst (Total Q) e h

module _ (below : Below) (finds : Finds below) (reader : LineReader) (bytes : Bytes)
    (valid : IsValid reader bytes) (s : Stream) where
  -- The header loop of a request that is forwarded, with a token or without, and that of a `CONNECT`
  -- without a token, do not panic, neither where a line is cut out of the buffer nor where a token is
  -- cut out of a line, and do not run out of their fuel, whatever the client sends and in whatever
  -- pieces it comes. Conditions: the line reader is well-formed, and `memchr` finds the first of the
  -- bytes it is asked for.
  pub headers_total :
      (needed : Needed) (request : Bytes)
      → ¬ (forward_headers below (header_fuel reader s) needed request reader s ≡ panic)
        × ¬ (connect_headers below (header_fuel reader s) none reader s ≡ panic)
  headers_total needed request =
      let n = length (unparsed_data reader) + length s.incoming in
      let coming : Coming reader s n = record {
        bytes = bytes;
        valid = valid;
        count = omega (arith, ap length valid.holds.same);
      } in
      (
        Total-panic (λ read t. Unit {0}) (forward_headers below (suc n) needed request reader s)
            (forward_headers-Total below finds (suc n) n needed request reader s coming
              (omega arith)),
        Total-panic (λ read t. Unit {0}) (connect_headers below (suc n) none reader s)
            (connect_headers-Total below finds (suc n) n reader s coming (omega arith)),
      )
