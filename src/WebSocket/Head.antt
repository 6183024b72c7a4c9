-- ===== src/WebSocket/Head.antt =====
-- The head of a request, which `ParsedHttpData::parse` of `src/websocket/websocket_handler.rs` reads,
-- described by its lines.
use shoes_on_shuttle.Common.{
  ℕ, zero, suc, Bool, true, false, Option, none, some, List, Bytes, [], ◌∷◌, ◌++◌, ◌∙◌, sym, ap,
  refl, arith, length, ◌≡◌, ◌<◌, ◌==◌, if◌then◌else◌, ltb, inl, inr, Bool-cases, Option-cases, All,
  ==→eq,
}
use mathlib.Core.Path.{subst}
use shoes_on_shuttle.Stream.{Io, Stream, pure, ensure, ErrorKind, ◌>>=◌}
use shoes_on_shuttle.Stream.Post.{Post, then-Post, if-Post, ensure-Post}
use Prim.Native.String.{String}
use shoes_on_shuttle.Address.{split_at_first}
use shoes_on_shuttle.LineReader.{LineReader, Below, new, read_line, unparsed_data}
use shoes_on_shuttle.LineReader.Lines.{Finds, Found, without_return}
use shoes_on_shuttle.LineReader.Sequence.{
  new-IsValid, joined, IsLine, Rest, Taken, Taken→Rest, read_line-Taken,
}
use shoes_on_shuttle.WebSocket.Handshake.{
  Library, Headers, ParsedHttpData, parse_line, parse_lines, parse, head_parsed, or_other,
}

-- A header line with its name and its value: the name stands before the first colon; both are trimmed,
-- and the name is in lower case.
pub record IsHeader (library : Library) (line key value : Bytes) : Type 0 where
  pub front : Bytes
  pub back : Bytes
  pub there : line ≡ front ++ (b':' ∷ back)
  pub first_colon : Found b':' front none
  pub key_is : key ≡ library.to_lowercase (library.trim front)
  pub value_is : value ≡ library.trim back

-- The entries of lines, each inserted before those of the lines before it.
abbrev pub AreHeaders : Library → List Bytes → Headers → Headers → Type 0
AreHeaders library [] before headers = headers ≡ before
AreHeaders library (line ∷ lines) before headers =
    (key : Bytes) × (value : Bytes) × IsHeader library (without_return line) key value
    × AreHeaders library lines ((key, value) ∷ before) headers

-- What lines have given so far.
abbrev HeadOf : Library → Option Bytes → Headers → List Bytes → Type 0
HeadOf library none headers lines = (lines ≡ []) × (headers ≡ [])
HeadOf library (some first) headers lines =
    (line : Bytes) × (others : List Bytes) × (lines ≡ line ∷ others)
    × (first ≡ without_return line)
    × AreHeaders library others [] headers

-- The head of `pending`: a request line and header lines, none of them blank, and a blank line behind
-- them. What stands behind that is still to come, and nothing was written.
pub record Head (library : Library) (pending written : Bytes) (parsed : ParsedHttpData)
    (behind : Stream) : Type 0 where
  pub line : Bytes
  pub others : List Bytes
  pub blank : Bytes
  pub are_lines : All IsLine (line ∷ others)
  pub is_blank : without_return blank ≡ []
  pub first_is : parsed.first_line ≡ without_return line
  pub headers_are : AreHeaders library others [] parsed.headers
  pub same_written : behind.written ≡ written
  pub whole :
      pending
      ≡ joined (line ∷ others)
        ++ (blank ++ (10 ∷ (unparsed_data parsed.line_reader ++ behind.incoming)))

cons-Found :
    (c x : ℕ) (front : Bytes) → (x == c) ≡ false → Found c front none → Found c (x ∷ front) none
cons-Found c x front other h zero l e = ground arith
cons-Found c x front other h (suc i) l e = h i (omega (arith, l)) e

split_at_first-IsSplit :
    (c : ℕ) (xs front back : Bytes)
    → split_at_first c xs ≡ some (front, back)
    → (xs ≡ front ++ (c ∷ back)) × Found c front none
unfolding split_at_first
split_at_first-IsSplit c [] front back e = cc
split_at_first-IsSplit c (x ∷ xs) front back e =
    let Goal =
      λ (front' : Bytes) (back' : Bytes). (x ∷ xs ≡ front' ++ (c ∷ back')) × Found c front' none in
    let more : Option (Bytes × Bytes) → Option (Bytes × Bytes) =
      λ o. elim o [ none ↦ none | some (f, b) ↦ some (x ∷ f, b) ] in
    let whole : Option (Bytes × Bytes) = some ([], xs) in
    let result : Option (Bytes × Bytes) = some (front, back) in
    let Later : Option (Bytes × Bytes) → Type 0 = λ o. more o ≡ result in
    let Here : Bool → Type 0 = λ b. (if b then whole else more (split_at_first c xs)) ≡ result in
    elim (Bool-cases (x == c)) [
      | inl here ↦
          let found : whole ≡ result = subst Here here e in
          let no_front : [] ≡ front = cc in
          let behind : xs ≡ back = cc in
          subst (λ (f : Bytes). Goal f back) no_front
            (
              ap (λ (y : ℕ). y ∷ xs) (==→eq x c here) ∙ ap (λ (b : Bytes). c ∷ b) behind,
              λ i l. absurd (omega (arith, l)),
            )
      | inr other ↦ elim (Option-cases (split_at_first c xs)) [
        | inl nowhere ↦ absurd (cc (subst Later nowhere (subst Here other e)))
        | inr ((f, b), found) ↦
            let same : more (some (f, b)) ≡ result = subst Later found (subst Here other e) in
            let front_is : x ∷ f ≡ front = cc in
            let back_is : b ≡ back = cc in
            let (split, none_before) = split_at_first-IsSplit c xs f b found in
            subst (λ (y : Bytes). Goal y back) front_is
              (
                ap (◌∷◌ x) (split ∙ ap (λ (y : Bytes). f ++ (c ∷ y)) back_is),
                cons-Found c x f other none_before,
              )
      ]
    ]

AreHeaders-append :
    (library : Library) (lines : List Bytes) (line key value : Bytes) (before headers : Headers)
    → AreHeaders library lines before headers
    → IsHeader library (without_return line) key value
    → AreHeaders library (lines ++ (line ∷ [])) before ((key, value) ∷ headers)
AreHeaders-append library [] line key value before headers e h =
    (key, value, h, ap (◌∷◌ (key, value)) e)
AreHeaders-append library (l ∷ ls) line key value before headers (k, v, first, later) h =
    (k, v, first, AreHeaders-append library ls line key value ((k, v) ∷ before) headers later h)

length_zero : (xs : Bytes) → length xs ≡ 0 → xs ≡ []
length_zero [] e = refl
length_zero (x ∷ xs) e = absurd (omega (arith, e))

module _ (library : Library) (pending written : Bytes) where
  -- A line behind others adds to what they have given.
  parse_line-HeadOf :
      (first : Option Bytes) (headers : Headers) (line : Bytes) (lines : List Bytes) (s : Stream)
      → HeadOf library first headers lines
      → Post
          (λ next t. (t ≡ s) × HeadOf library next.0 next.1 (lines ++ (line ∷ [])))
          (parse_line library first headers (without_return line) s)
  unfolding parse_line
  parse_line-HeadOf none headers line lines s (empty, no_headers) =
      (refl, (line, [], ap (λ (ls : List Bytes). ls ++ (line ∷ [])) empty, refl, no_headers))
  parse_line-HeadOf (some first) headers line lines s (l, others, split, same, are) =
      let text = without_return line in
      let Q : Option Bytes × Headers → Stream → Type 0 =
        λ next t. (t ≡ s) × HeadOf library next.0 next.1 (lines ++ (line ∷ [])) in
      let add : Bytes × Bytes → Io (Option Bytes × Headers) = λ tokens. pure (
        some first,
        (library.to_lowercase (library.trim tokens.0), library.trim tokens.1) ∷ headers,
      ) in
      let Goal : Option (Bytes × Bytes) → Type 0 =
        λ o. Post Q ((or_other "invalid http request line" o >>= add) s) in
      elim (Option-cases (split_at_first b':' text)) [
        | inl nowhere ↦ subst Goal (sym nowhere) tt
        | inr ((front, back), found) ↦
            let (there, first_colon) = split_at_first-IsSplit b':' text front back found in
            subst Goal (sym found) (
              refl,
              (
                l,
                others ++ (line ∷ []),
                ap (λ (ls : List Bytes). ls ++ (line ∷ [])) split,
                same,
                AreHeaders-append library others line (library.to_lowercase (library.trim front))
                    (library.trim back) [] headers are
                    (record {
                      front = front;
                      back = back;
                      there = there;
                      first_colon = first_colon;
                      key_is = refl;
                      value_is = refl;
                    }),
              ),
            )
      ]

  -- At the blank line.
  head_parsed-Head :
      (first : Option Bytes) (headers : Headers) (r : LineReader) (line : Bytes) (s : Stream)
      → length line ≡ 0
      → Taken pending written (HeadOf library first headers) line r s
      → Post (λ parsed t. Head library pending written parsed t) (head_parsed headers r first s)
  head_parsed-Head none headers r line s empty t = tt
  head_parsed-Head (some first) headers r line s empty t =
      let (l, others, split, same, are) = t.known in
      let nothing : without_return t.whole_line ≡ [] =
        length_zero (without_return t.whole_line) (omega (arith, empty, ap length t.line_is)) in
      record {
        line = l;
        others = others;
        blank = t.whole_line;
        are_lines = subst (All IsLine) split t.are_lines;
        is_blank = nothing;
        first_is = same;
        headers_are = are;
        same_written = t.same_written;
        whole =
            t.whole
            ∙ ap (λ (b : Bytes). joined t.before ++ (t.whole_line ++ (10 ∷ (b ++ s.incoming))))
                (sym t.valid.holds.same)
            ∙ ap
                (λ (ls : List Bytes).
                  joined ls ++ (t.whole_line ++ (10 ∷ (unparsed_data r ++ s.incoming))))
                split;
      }

  module _ (below : Below) (finds : Finds below) where
    parse_lines-Head :
        (left : ℕ) (first : Option Bytes) (headers : Headers) (r : LineReader) (s : Stream)
        → Rest pending written (HeadOf library first headers) r s
        → Post
            (λ parsed t. Head library pending written parsed t)
            (parse_lines library below left first headers r s)
    unfolding parse_lines
    parse_lines-Head zero first headers r s rest = tt
    parse_lines-Head (suc left) first headers r s rest =
        let Q : ParsedHttpData → Stream → Type 0 =
          λ parsed t. Head library pending written parsed t in
        let P = HeadOf library first headers in
        let long : String = "http request line is too long" in
        let many : String = "http request is too long" in
        then-Post (λ read t. Taken pending written P read.0 read.1 t) Q (read_line below r s) _
          (read_line-Taken below finds pending written P r s rest)
          (λ read t taken.
            if-Post Q (length read.0 == 0) (head_parsed headers read.1 first) _ t
              (λ empty.
                head_parsed-Head first headers read.1 read.0 t (ground (arith, empty)) taken)
              (λ not_empty.
                let lines = taken.before ++ (taken.whole_line ∷ []) in
                let some_byte : 0 < length read.0 = ground (arith, not_empty) in
                let Step = λ (u : Stream) (next : Option Bytes × Headers) (v : Stream).
                  (v ≡ u) × HeadOf library next.0 next.1 lines in
                then-Post (λ _ u. (u ≡ t) × (ltb (length read.0) 4096 ≡ true)) Q
                  (ensure (ltb (length read.0) 4096) ErrorKind.other long t) _
                  (ensure-Post (ltb (length read.0) 4096) ErrorKind.other long t)
                  (λ _ u (same, _).
                    then-Post (Step u) Q (parse_line library first headers read.0 u) _
                      (subst (λ (l : Bytes). Post (Step u) (parse_line library first headers l u))
                        (sym taken.line_is)
                        (parse_line-HeadOf first headers taken.whole_line taken.before u
                          taken.known))
                      (λ next v (same', known).
                        then-Post (λ _ w. (w ≡ v) × (ltb 0 left ≡ true)) Q
                          (ensure (ltb 0 left) ErrorKind.other many v) _
                          (ensure-Post (ltb 0 left) ErrorKind.other many v)
                          (λ _ w (same'', _).
                            let N = HeadOf library next.0 next.1 in
                            parse_lines-Head left next.0 next.1 read.1 w (
                              subst (λ (x : Stream). Rest pending written N read.1 x)
                                (sym (same'' ∙ same' ∙ same))
                                (Taken→Rest pending written P N read.0 read.1 t some_byte taken
                                  (λ _. known))))))))

-- Whenever the head is parsed, the bytes to come begin with it.
pub parse-Head :
    (library : Library) (below : Below) (finds : Finds below) (buf : Bytes)
    → length buf ≡ 32768
    → (s : Stream)
    → Post (λ parsed t. Head library s.incoming s.written parsed t) (parse library below buf s)
unfolding parse
parse-Head library below finds buf size s =
    parse_lines-Head library s.incoming s.written below finds 40 none [] (new buf) s (record {
      lines = [];
      are_lines = tt;
      known = (refl, refl);
      bytes = [];
      valid = new-IsValid buf size;
      same_written = refl;
      whole = refl;
    })
