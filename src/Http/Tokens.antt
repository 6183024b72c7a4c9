-- ===== src/Http/Tokens.antt =====
-- The server of `src/http_handler.rs` with a token, over the lines of a request.
use shoes_on_shuttle.Common.{
  length-append, [], ◌∷◌, ◌≤◌, arith, ◌<◌, leb, ℕ, zero, suc, Bool, true, false, Bytes, ◌++◌, ◌∙◌,
  sym, ap, refl, length, ◌≡◌, ◌==◌, if◌then◌else◌, inl, inr, Bool-cases,
}
use shoes_on_shuttle.LineReader.Sequence.{read_line-Taken, AtLeast, Taken→Rest, Taken, Rest}
use shoes_on_shuttle.Stream.{◌>>◌, ErrorKind, Stream, pure, ensure, ◌>>=◌}
use shoes_on_shuttle.Common.Text.{crlf}
use mathlib.Core.Path.{subst}
use shoes_on_shuttle.Stream.Post.{Post, then-Post, if-Post}
use shoes_on_shuttle.Http.Server.{
  Needed, connect_header, connect_headers, forward_header, forward_headers, push_line,
}
use shoes_on_shuttle.Http.Auth.{Carries, IsAuth, Given, connect_header-Given, forward_header-Given}
use shoes_on_shuttle.LineReader.{LineReader, Below, read_line}
use shoes_on_shuttle.LineReader.Lines.{Finds}

-- A line behind the first that is such a header.
Taken→Carries :
    (token pending written line : Bytes) (r : LineReader) (s : Stream)
    → 0 < length line
    → Taken pending written (AtLeast 1) line r s
    → IsAuth token line
    → Carries token pending
Taken→Carries token pending written line r s some_byte t is_auth = record {
  before = t.before;
  line = t.whole_line;
  after = t.bytes ++ s.incoming;
  there = t.whole;
  are_lines = t.are_lines;
  behind_first = omega (arith, t.known);
  is_line = (t.one_line, omega (arith, some_byte, ap length t.line_is));
  is_auth = subst (IsAuth token) t.line_is is_auth;
}

-- What a loop has to come behind a line that is not blank.
next_Rest :
    (pending written line : Bytes) (r : LineReader) (s t : Stream)
    → 0 < length line
    → Taken pending written (AtLeast 1) line r s
    → t ≡ s
    → Rest pending written (AtLeast 1) r t
next_Rest pending written line r s t some_byte taken same =
    let grown : 1 ≤ length taken.before → 1 ≤ length (taken.before ++ (taken.whole_line ∷ [])) =
      λ l. omega (arith, l, length-append taken.before (taken.whole_line ∷ [])) in
    subst (λ (u : Stream). Rest pending written (AtLeast 1) r u) (sym same)
      (Taken→Rest pending written (AtLeast 1) (AtLeast 1) line r s some_byte taken grown)

push_line-same :
    (request line : Bytes) (kept : Bool) (s : Stream)
    → Post (λ request' t. t ≡ s) (push_line request line kept s)
push_line-same request line false s = refl
push_line-same request line true s =
    let request' = request ++ (line ++ crlf) in
    let Goal = λ (b : Bool).
      Post (λ (r : Bytes) t. t ≡ s)
        ((ensure b ErrorKind.invalid_data "HTTP GET request is too long" >> pure request') s) in
    elim (Bool-cases (leb (length request') 16384)) [
      | inl short ↦ subst Goal (sym short) refl
      | inr long ↦ subst Goal (sym long) tt
    ]

module _ (below : Below) (finds : Finds below) (pending written : Bytes) where
  module _ (token : Bytes) where
    pub connect_headers-Given :
        (fuel : ℕ) (needed : Needed) (r : LineReader) (s : Stream)
        → Rest pending written (AtLeast 1) r s
        → Given token pending needed
        → Post (λ read s'. Given token pending read.0) (connect_headers below fuel needed r s)
    unfolding connect_headers
    connect_headers-Given zero needed r s rest g = tt
    connect_headers-Given (suc fuel) needed r s rest g =
        let Q = λ (read : Needed × LineReader) (s' : Stream). Given token pending read.0 in
        let next = λ (line : Bytes) (r' : LineReader).
          connect_header needed line >>= λ still. connect_headers below fuel still r' in
        then-Post (λ read s'. Taken pending written (AtLeast 1) read.0 read.1 s') Q
          (read_line below r s)
          (λ read. if length read.0 == 0 then pure (needed, read.1) else next read.0 read.1)
          (read_line-Taken below finds pending written (AtLeast 1) r s rest)
          (λ read s' taken.
            if-Post Q (length read.0 == 0) (pure (needed, read.1)) (next read.0 read.1) s' (λ _. g)
              (λ not_empty.
                let some_byte : 0 < length read.0 = ground (arith, not_empty) in
                then-Post (λ still s''. Given token pending still × (s'' ≡ s')) Q
                  (connect_header needed read.0 s')
                  (λ still. connect_headers below fuel still read.1)
                  (connect_header-Given token pending read.0
                    (Taken→Carries token pending written read.0 read.1 s' some_byte taken) needed s'
                    g)
                  (λ still s'' (g', same).
                    connect_headers-Given fuel still read.1 s''
                      (next_Rest pending written read.0 read.1 s' s'' some_byte taken same) g')))

    pub forward_headers-Given :
        (fuel : ℕ) (needed : Needed) (request : Bytes) (r : LineReader) (s : Stream)
        → Rest pending written (AtLeast 1) r s
        → Given token pending needed
        → Post
            (λ read s'. Given token pending read.0)
            (forward_headers below fuel needed request r s)
    unfolding forward_headers
    forward_headers-Given zero needed request r s rest g = tt
    forward_headers-Given (suc fuel) needed request r s rest g =
        let Q = λ (read : Needed × Bytes × LineReader) (s' : Stream). Given token pending read.0 in
        let push = λ (line : Bytes) (r' : LineReader) (done : Needed × Bool).
          push_line request line done.1 >>= λ request'.
          forward_headers below fuel done.0 request' r' in
        let next =
          λ (line : Bytes) (r' : LineReader). forward_header needed line >>= push line r' in
        then-Post (λ read s'. Taken pending written (AtLeast 1) read.0 read.1 s') Q
          (read_line below r s)
          (λ read.
            if length read.0 == 0 then pure (needed, request, read.1) else next read.0 read.1)
          (read_line-Taken below finds pending written (AtLeast 1) r s rest)
          (λ read s' taken.
            if-Post Q (length read.0 == 0) (pure (needed, request, read.1)) (next read.0 read.1) s'
              (λ _. g)
              (λ not_empty.
                let some_byte : 0 < length read.0 = ground (arith, not_empty) in
                then-Post (λ done s''. Given token pending done.0 × (s'' ≡ s')) Q
                  (forward_header needed read.0 s') (push read.0 read.1)
                  (forward_header-Given token pending read.0
                    (Taken→Carries token pending written read.0 read.1 s' some_byte taken) needed s'
                    g)
                  (λ done s'' (g', same).
                    then-Post (λ request' t. t ≡ s'') Q (push_line request read.0 done.1 s'')
                      (λ request'. forward_headers below fuel done.0 request' read.1)
                      (push_line-same request read.0 done.1 s'')
                      (λ request' t kept.
                        forward_headers-Given fuel done.0 request' read.1 t
                          (next_Rest pending written read.0 read.1 s' t some_byte taken
                            (kept ∙ same))
                          g'))))
