-- ===== src/Http/Short.antt =====
-- A `CONNECT` request without an address, as `src/http_handler.rs` reads it.
use shoes_on_shuttle.Common.{
  both, ℕ, zero, suc, Bool, true, Bytes, [], ◌∷◌, ◌++◌, ◌∙◌, ap, refl, arith, drop, take, length,
  ◌≡◌, ◌-◌, ◌<◌, ◌==◌, ◌&&◌, if◌then◌else◌, inl, inr, lt-or-le, get_or, not, ◌||◌,
}
use mathlib.Core.Path.{subst}
use shoes_on_shuttle.Common.Text.{bytes_of, starts_with, ends_with}
use shoes_on_shuttle.Http.Server.{
  HttpTcpServerHandler, connect_request, setup_server_stream, forward_request,
}
use shoes_on_shuttle.LineReader.Sequence.{new-IsValid}
use shoes_on_shuttle.LineReader.{LineReader, Below, new, read_line, read_line_bytes, decoded}
use shoes_on_shuttle.LineReader.Lines.{Finds, FirstAt, ReadsLine, without_return}
use shoes_on_shuttle.LineReader.Reads.{read_line_bytes-ReadsLine}
use shoes_on_shuttle.Net.Utf8.{is_utf8}
use shoes_on_shuttle.TcpHandler.{TcpServerSetupResult}
use shoes_on_shuttle.Stream.{Io, Outcome, Stream, ok, err, panic, ensure, ◌>>=◌, ◌>>◌, ErrorKind}

abbrev has_none : ℕ → Bytes → Bool
has_none c [] = true
has_none c (x ∷ xs) = not (x == c) && has_none c xs

FirstAt-length :
    (c : ℕ) (front rest : Bytes)
    → has_none c front ≡ true
    → FirstAt c (length front) (front ++ (c ∷ rest))
FirstAt-length c [] rest h = record {
  within = omega arith;
  is_there = refl;
  none_before = λ i below. absurd (omega (arith, below));
}
FirstAt-length c (x ∷ front) rest h =
    let (here, later) = both (not (x == c)) (has_none c front) h in
    let f = FirstAt-length c front rest later in
    record {
      within = omega (arith, f.within);
      is_there = f.is_there;
      none_before = before c x front rest here f.none_before;
    }
  where
    before :
        (c x : ℕ) (front rest : Bytes)
        → not (x == c) ≡ true
        → ((i : ℕ) → i < length front → ¬ (get_or (front ++ (c ∷ rest)) i 0 ≡ c))
        → (i : ℕ) → i < suc (length front)
        → ¬ (get_or (x ∷ (front ++ (c ∷ rest))) i 0 ≡ c)
    before c x front rest other h zero l e = ground arith
    before c x front rest other h (suc i) l e = h i (omega arith) e

same_first : (c p q : ℕ) (xs : Bytes) → FirstAt c p xs → FirstAt c q xs → p ≡ q
same_first c p q xs f g = elim (lt-or-le p q) [
  | inl low ↦ absurd (g.none_before p low f.is_there)
  | inr high ↦ elim (lt-or-le q p) [
    | inl low ↦ absurd (f.none_before q low g.is_there)
    | inr same ↦ omega (arith, high, same)
  ]
]

-- `CONNECT HTTP/1.1` and a carriage return.
abbrev pub short_line : Bytes
short_line = bytes_of "CONNECT HTTP/1.1" ++ (13 ∷ [])

-- The request is read as this one line.
abbrev Reads : Outcome (Bytes × LineReader) → Type 0
Reads o = (r : LineReader) × (s : Stream) × (o ≡ ok (bytes_of "CONNECT HTTP/1.1", r) s)

short_line-Reads :
    (rest written : Bytes) (o : Outcome (Bytes × LineReader))
    → ReadsLine (short_line ++ (10 ∷ rest)) written o
    → Reads (decoded o)
unfolding is_utf8
short_line-Reads rest written (ok (line, r) s) h =
    let f = FirstAt-length 10 short_line rest refl in
    let at : h.pos ≡ 17 = same_first 10 h.pos 17 (short_line ++ (10 ∷ rest)) h.found f in
    let line_is : line ≡ bytes_of "CONNECT HTTP/1.1" =
      h.line_is ∙ ap (λ (n : ℕ). without_return (take n (short_line ++ (10 ∷ rest)))) at in
    (r, s, ap (λ (l : Bytes). decoded (ok (l, r) s)) line_is)
short_line-Reads rest written (err e s) h =
    absurd (h.not_found (17, omega arith, FirstAt-length 10 short_line rest refl))
short_line-Reads rest written panic h = absurd h

module _ (below : Below) (finds : Finds below) (buf : Bytes) (size : length buf ≡ 32768) where
  -- The HTTP proxy server, with a token or without, panics on a first line `CONNECT HTTP/1.1`, whatever
  -- follows it and in whatever pieces it comes. Conditions: the buffer of the line reader has its 32768
  -- bytes, and `memchr` finds the first of the bytes it is asked for.
  pub setup_server_stream-panics :
      (handler : HttpTcpServerHandler) (rest : Bytes) (s : Stream)
      → s.incoming ≡ short_line ++ (10 ∷ rest)
      → setup_server_stream below buf handler s ≡ panic
  unfolding setup_server_stream read_line
  setup_server_stream-panics handler rest s e =
      let reads =
        subst (λ (b : Bytes). ReadsLine b s.written (read_line_bytes below (new buf) s)) e
          (read_line_bytes-ReadsLine below finds (new buf) [] s (new-IsValid buf size)) in
      let (r, s', same) =
        short_line-Reads rest s.written (read_line_bytes below (new buf) s) reads in
      let next : Bytes × LineReader → Io TcpServerSetupResult = λ read.
        let line = read.0 in
        let version = drop (length line - 8) line in
        ensure (ends_with (bytes_of " HTTP/1.0") line || ends_with (bytes_of " HTTP/1.1") line)
          ErrorKind.invalid_input "Unrecognized http request"
        >> (if starts_with (bytes_of "CONNECT ") line
            then connect_request below handler version line read.1
            else forward_request below handler version line read.1) in
      ap (λ (o : Outcome (Bytes × LineReader)). ((λ t. o) >>= next) s) same
