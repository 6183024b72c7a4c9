-- ===== src/LineReader/Reads.antt =====
-- `read_line_bytes` of `src/line_reader.rs` until a line is found or the reading fails.
use shoes_on_shuttle.LineReader.Cut.{found-ReadsLine, reset_buf_offset-IsValid}
use shoes_on_shuttle.Common.{
  ◌++◌, ◌∙◌, ap, none, some, zero, suc, append_assoc, length-take, length-drop, length-append, ℕ,
  Bool, true, false, Option, Bytes, sym, refl, arith, drop, take, length, ◌≡◌, ◌+◌, ◌≤◌, ◌<◌, ◌==◌,
  if◌then◌else◌, inl, inr, Bool-cases, splice,
}
use shoes_on_shuttle.Common.Holds.{take-drop, Holds-length, Holds-append}
use mathlib.Core.Path.{subst}
use shoes_on_shuttle.LineReader.{
  LineReader, Below, unparsed_data, reset_buf_offset, is_cache_full, read_len, read, then_read,
  on_found, read_lines, read_line_bytes, aborted,
}
use shoes_on_shuttle.LineReader.Lines.{
  IsValid, Finds, Found, FirstAt, behind_all, ReadsLine, NoLine,
}
use shoes_on_shuttle.Stream.{Stream, Outcome, ok, err}
use shoes_on_shuttle.Common.Splice.{length-splice}

module _ (below : Below) (again : LineReader → Stream → Outcome (Bytes × LineReader))
    (r : LineReader) (bytes : Bytes) (s : Stream) (v : IsValid r bytes)
    (nowhere : Found 10 bytes none) where
  no_line : (pos : ℕ) → FirstAt 10 pos (bytes ++ s.incoming) → length bytes ≤ pos
  no_line pos f = behind_all 10 pos bytes s.incoming nowhere f

  full_size : is_cache_full r ≡ true → 32768 ≤ length bytes
  full_size full =
      let size = Holds-length r.buf r.start_offset r.end_offset bytes v.holds in
      ground (arith, full, size)

  full-NoLine : is_cache_full r ≡ true → NoLine (bytes ++ s.incoming) (aborted "cache is full")
  full-NoLine full = record {
    kind_is = refl;
    not_found =
        λ (pos, below_size, f). absurd (omega (arith, full_size full, no_line pos f, below_size));
  }

  eof-NoLine : length s.incoming ≡ 0 → NoLine (bytes ++ s.incoming) (aborted "EOF while reading")
  eof-NoLine none_left = record {
    kind_is = refl;
    not_found = λ (pos, _, f).
        absurd (omega (arith, no_line pos f, f.within, length-append bytes s.incoming, none_left));
  }

  room_left : is_cache_full r ≡ false → length bytes < 32768
  room_left not_full =
      let size = Holds-length r.buf r.start_offset r.end_offset bytes v.holds in
      let inside = v.holds.in_buf in
      let whole = v.size in
      let ordered = v.holds.ordered in ground (arith, size, inside, whole, ordered)

  none_to_come :
      (r' : LineReader)
      → r'.end_offset < length r'.buf
      → (read_len below r' s == 0) ≡ true
      → length s.incoming ≡ 0
  none_to_come r' room nothing =
      let zero_read : read_len below r' s ≡ 0 = ground arith in omega (arith, zero_read, room)

  then_read-ReadsLine :
      ((r' : LineReader) (bytes' : Bytes) (s' : Stream)
        → IsValid r' bytes'
        → length s'.incoming < length s.incoming
        → ReadsLine (bytes' ++ s'.incoming) s'.written (again r' s'))
      → ReadsLine (bytes ++ s.incoming) s.written (then_read again (read below r s))
  unfolding read
  then_read-ReadsLine h =
      let (v', start, end) = reset_buf_offset-IsValid r bytes v in
      let r' = reset_buf_offset r in
      let len = read_len below r' s in
      let piece : Bytes = take len s.incoming in
      let read_bytes : LineReader = record r' {
        buf = splice r'.buf r'.end_offset piece;
        end_offset = r'.end_offset + len;
      } in
      let s' : Stream = record s { incoming = drop len s.incoming } in
      let inc = s.incoming in
      let go_on : is_cache_full r ≡ false
          → (len == 0) ≡ false
          → ReadsLine (bytes ++ inc) s.written (again read_bytes s') =
        λ room some_bytes.
          let size : length piece ≡ len = omega (arith, length-take len inc) in
          let next = r'.end_offset + len in
          let inside : next ≤ length r'.buf = omega (arith, v'.size, end, room_left room) in
          let one : 0 < len = ground (arith, some_bytes) in
          let whole : (bytes ++ piece) ++ drop len inc ≡ bytes ++ inc =
            append_assoc bytes piece (drop len inc) ∙ ap (◌++◌ bytes) (take-drop len inc) in
          let valid : IsValid read_bytes (bytes ++ piece) = record {
            size = length-splice r'.buf piece r'.end_offset (omega (arith, size, inside)) ∙ v'.size;
            holds =
                Holds-append r'.buf r'.start_offset r'.end_offset next bytes piece
                  (omega (arith, size)) inside v'.holds;
            line_before = λ later. absurd (omega (arith, later, start));
          } in
          subst (λ (b : Bytes). ReadsLine b s.written (again read_bytes s')) whole
            (h read_bytes (bytes ++ piece) s' valid (omega (arith, one, length-drop len inc))) in
      let Goal =
        λ (o : Outcome LineReader). ReadsLine (bytes ++ s.incoming) s.written (then_read again o) in
      let AtEnd =
        λ (b : Bool). Goal (if b then err (aborted "EOF while reading") s else ok read_bytes s') in
      let Full = λ (b : Bool). Goal (
        if b
        then err (aborted "cache is full") s
        else (if len == 0 then err (aborted "EOF while reading") s else ok read_bytes s')) in
      elim (Bool-cases (is_cache_full r)) [
        | inl full ↦ subst Full (sym full) (full-NoLine full)
        | inr room ↦ subst Full (sym room) (elim (Bool-cases (len == 0)) [
          | inl nothing ↦
              subst AtEnd (sym nothing)
                (eof-NoLine (none_to_come r' (omega (arith, room_left room, v'.size, end)) nothing))
          | inr some_bytes ↦ subst AtEnd (sym some_bytes) (go_on room some_bytes)
        ])
      ]

module _ (below : Below) (finds : Finds below) where
  on_found-ReadsLine :
      (again : LineReader → Stream → Outcome (Bytes × LineReader)) (r : LineReader) (bytes : Bytes)
      (s : Stream) (found : Option ℕ)
      → IsValid r bytes
      → Found 10 bytes found
      → ((r' : LineReader) (bytes' : Bytes) (s' : Stream)
          → IsValid r' bytes'
          → length s'.incoming < length s.incoming
          → ReadsLine (bytes' ++ s'.incoming) s'.written (again r' s'))
      → ReadsLine (bytes ++ s.incoming) s.written (on_found below again found r s)
  on_found-ReadsLine again r bytes s (some pos) v f h = found-ReadsLine r bytes v pos f s
  on_found-ReadsLine again r bytes s none v nowhere h =
      then_read-ReadsLine below again r bytes s v nowhere h

  read_lines-ReadsLine :
      (fuel : ℕ) (r : LineReader) (bytes : Bytes) (s : Stream)
      → IsValid r bytes
      → length s.incoming < fuel
      → ReadsLine (bytes ++ s.incoming) s.written (read_lines below fuel r s)
  unfolding read_lines
  read_lines-ReadsLine zero r bytes s v enough = absurd (omega arith)
  read_lines-ReadsLine (suc fuel) r bytes s v enough =
      let found = below.memchr 10 (unparsed_data r) in
      on_found-ReadsLine (read_lines below fuel) r bytes s found v
        (subst (λ (b : Bytes). Found 10 b found) v.holds.same (finds 10 (unparsed_data r)))
        (λ r' bytes' s' v' less.
          read_lines-ReadsLine fuel r' bytes' s' v' (omega (arith, less, enough)))

  -- Reading a line always comes to an end, and what it gives depends on nothing but the bytes to come,
  -- those in the buffer and then those of the stream, not on the pieces in which they come: the line is
  -- what stands before the first new line, less a carriage return at its end, and all that stands
  -- behind it is still to come, where that new line is one of the first 32768 bytes; else the reading
  -- fails with `ConnectionAborted`. Nothing is written, and the reader stays well-formed. Conditions:
  -- the reader is well-formed, and `memchr` finds the first of the bytes it is asked for.
  pub read_line_bytes-ReadsLine :
      (r : LineReader) (bytes : Bytes) (s : Stream)
      → IsValid r bytes
      → ReadsLine (bytes ++ s.incoming) s.written (read_line_bytes below r s)
  unfolding read_line_bytes
  read_line_bytes-ReadsLine r bytes s v =
      read_lines-ReadsLine (suc (length s.incoming)) r bytes s v (omega arith)
