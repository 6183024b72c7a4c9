-- ===== src/LineReader/Sequence.antt =====
-- The lines that `read_line` of `src/line_reader.rs` gives, one after the other.
use mathlib.Core.Path.{subst}
use shoes_on_shuttle.Stream.{panic, Stream}
use shoes_on_shuttle.LineReader.Reads.{read_line_bytes-ReadsLine}
use shoes_on_shuttle.Common.{
  refl, inr, inl, Bool-cases, if◌then◌else◌, Bool, ℕ, zero, suc, List, Bytes, [], ◌∷◌, ◌++◌, ◌∙◌,
  sym, ap, arith, drop, take, length, ◌≡◌, ◌≤◌, ◌<◌, none, All, append_assoc, length-take, get_or,
}
use shoes_on_shuttle.Stream.Post.{Post}
use shoes_on_shuttle.Common.Splice.{get_or-take}
use shoes_on_shuttle.LineReader.{
  new, is_utf8, ErrorKind, err, ok, read_line_bytes, decoded, read_line, Outcome, Below, LineReader,
}
use shoes_on_shuttle.LineReader.Lines.{
  ReadsLine, Finds, IsValid, Found, FirstAt, LineRead, without_return,
}

-- Lines, each with the new line that ends it.
abbrev pub joined : List Bytes → Bytes
joined [] = []
joined (line ∷ lines) = line ++ (10 ∷ joined lines)

abbrev pub AtLeast : ℕ → List Bytes → Type 0
AtLeast n lines = n ≤ length lines

-- A whole line, which is not blank: blank is a line of nothing but a carriage return, too.
abbrev pub IsLine : Bytes → Type 0
IsLine line = Found 10 line none × (0 < length (without_return line))

-- A reader and a stream to which `written` was written, that have the rest of `pending` to come,
-- behind lines of which `P` holds, none of them blank.
pub record Rest (pending written : Bytes) (P : List Bytes → Type 0) (r : LineReader) (s : Stream)
    : Type 0 where
  pub lines : List Bytes
  pub are_lines : All IsLine lines
  pub known : P lines
  pub bytes : Bytes
  pub valid : IsValid r bytes
  pub same_written : s.written ≡ written
  pub whole : pending ≡ joined lines ++ (bytes ++ s.incoming)

-- `line` was read behind them, less a carriage return at its end.
pub record Taken (pending written : Bytes) (P : List Bytes → Type 0) (line : Bytes) (r : LineReader)
    (s : Stream) : Type 0 where
  pub before : List Bytes
  pub are_lines : All IsLine before
  pub known : P before
  pub whole_line : Bytes
  pub one_line : Found 10 whole_line none
  pub line_is : line ≡ without_return whole_line
  pub bytes : Bytes
  pub valid : IsValid r bytes
  pub same_written : s.written ≡ written
  pub whole : pending ≡ joined before ++ (whole_line ++ (10 ∷ (bytes ++ s.incoming)))

joined-append :
    (lines : List Bytes) (line rest : Bytes)
    → joined (lines ++ (line ∷ [])) ++ rest ≡ joined lines ++ (line ++ (10 ∷ rest))
joined-append [] line rest = append_assoc line (10 ∷ []) rest
joined-append (l ∷ ls) line rest =
    append_assoc l (10 ∷ joined (ls ++ (line ∷ []))) rest
    ∙ ap (λ (b : Bytes). l ++ (10 ∷ b)) (joined-append ls line rest)
    ∙ sym (append_assoc l (10 ∷ joined ls) (line ++ (10 ∷ rest)))

All-append :
    (lines : List Bytes) (line : Bytes)
    → All IsLine lines
    → IsLine line
    → All IsLine (lines ++ (line ∷ []))
All-append [] line h here = (here, tt)
All-append (l ∷ ls) line (first, h) here = (first, All-append ls line h here)

-- Behind a line that is not blank.
pub Taken→Rest :
    (pending written : Bytes) (P Q : List Bytes → Type 0) (line : Bytes) (r : LineReader)
    (s : Stream)
    → 0 < length line
    → (t : Taken pending written P line r s) → (P t.before → Q (t.before ++ (t.whole_line ∷ [])))
    → Rest pending written Q r s
Taken→Rest pending written P Q line r s some_byte t known =
    let size = ap length t.line_is in
    record {
      lines = t.before ++ (t.whole_line ∷ []);
      are_lines =
          All-append t.before t.whole_line t.are_lines (t.one_line, omega (arith, size, some_byte));
      known = known t.known;
      bytes = t.bytes;
      valid = t.valid;
      same_written = t.same_written;
      whole = t.whole ∙ sym (joined-append t.before t.whole_line (t.bytes ++ s.incoming));
    }

split_at_line :
    (pos : ℕ) (bytes : Bytes)
    → pos < length bytes
    → get_or bytes pos 0 ≡ 10
    → bytes ≡ take pos bytes ++ (10 ∷ drop (suc pos) bytes)
split_at_line pos [] l e = absurd (omega arith)
split_at_line zero (b ∷ bs) l e = ap (λ (x : ℕ). x ∷ bs) e
split_at_line (suc pos) (b ∷ bs) l e = ap (◌∷◌ b) (split_at_line pos bs (omega (arith, l)) e)

take-Found : (pos : ℕ) (bytes : Bytes) → FirstAt 10 pos bytes → Found 10 (take pos bytes) none
take-Found pos bytes f i l e =
    let inside : i < pos = omega (arith, l, length-take pos bytes) in
    f.none_before i inside (sym (get_or-take pos i bytes inside) ∙ e)

pub LineRead-Taken :
    (pending written line : Bytes) (P : List Bytes → Type 0) (r r' : LineReader) (s s' : Stream)
    (rest : Rest pending written P r s)
    → LineRead (rest.bytes ++ s.incoming) s.written line r' s'
    → Taken pending written P line r' s'
LineRead-Taken pending written line P r r' s s' rest read =
    let now = rest.bytes ++ s.incoming in
    record {
      before = rest.lines;
      are_lines = rest.are_lines;
      known = rest.known;
      whole_line = take read.pos now;
      one_line = take-Found read.pos now read.found;
      line_is = read.line_is;
      bytes = read.rest;
      valid = read.valid;
      same_written = read.same_written ∙ rest.same_written;
      whole =
          rest.whole
          ∙ ap (◌++◌ (joined rest.lines)) (
              split_at_line read.pos now read.found.within read.found.is_there
              ∙ ap (λ (b : Bytes). take read.pos now ++ (10 ∷ b)) (sym read.left));
    }

module _ (below : Below) (finds : Finds below) (pending written : Bytes)
    (P : List Bytes → Type 0) where
  decoded-Taken :
      (r : LineReader) (s : Stream) (rest : Rest pending written P r s)
      (o : Outcome (Bytes × LineReader))
      → ReadsLine (rest.bytes ++ s.incoming) s.written o
      → Post (λ read s'. Taken pending written P read.0 read.1 s') (decoded o)
  decoded-Taken r s rest (ok (line, r') s') h =
      let Goal = λ (b : Bool).
        Post (λ (read : Bytes × LineReader) t. Taken pending written P read.0 read.1 t)
          (if b
            then ok (line, r') s'
            else err (record { kind = ErrorKind.invalid_data; message = "Failed to decode utf8" })
                s') in
      elim (Bool-cases (is_utf8 line)) [
        | inl text ↦ subst Goal (sym text) (LineRead-Taken pending written line P r r' s s' rest h)
        | inr other ↦ subst Goal (sym other) tt
      ]
  decoded-Taken r s rest (err e' s') h = tt
  decoded-Taken r s rest panic h = tt

  pub read_line-Taken :
      (r : LineReader) (s : Stream)
      → Rest pending written P r s
      → Post (λ read s'. Taken pending written P read.0 read.1 s') (read_line below r s)
  unfolding read_line
  read_line-Taken r s rest =
      decoded-Taken r s rest (read_line_bytes below r s)
        (read_line_bytes-ReadsLine below finds r rest.bytes s rest.valid)

pub new-IsValid : (buf : Bytes) → length buf ≡ 32768 → IsValid (new buf) []
new-IsValid buf size = record {
  size = size;
  holds = record { ordered = omega arith; in_buf = omega arith; same = refl };
  line_before = λ h. absurd (omega (arith, h));
}
