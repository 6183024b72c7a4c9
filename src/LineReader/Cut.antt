-- ===== src/LineReader/Cut.antt =====
-- How `read_line_bytes` of `src/line_reader.rs` cuts a line out of the buffer, and makes room in it.
use shoes_on_shuttle.Common.{
  Option, none, some, leb, take_front, length-take, ℕ, zero, suc, Bool, true, false, Bytes, [], ◌∷◌,
  ◌++◌, ◌∙◌, sym, ap, refl, arith, drop, take, length, ◌≡◌, ◌+◌, ◌-◌, ◌≤◌, ◌<◌, ◌==◌, ◌&&◌,
  if◌then◌else◌, ltb, inl, inr, Bool-cases, lt-or-le, get_or, splice,
}
use shoes_on_shuttle.Common.Splice.{get_or-take, length-splice}
use shoes_on_shuttle.Common.Holds.{
  take-take, drop-append, drop-all, Holds-take, Holds-drop, Holds-get_or, Holds, Holds-length,
}
use mathlib.Core.Path.{subst}
use shoes_on_shuttle.LineReader.{
  with_line, LineReader, unparsed_data, reset_buf_offset, line_until, skip_line,
}
use shoes_on_shuttle.Stream.{Stream}
use shoes_on_shuttle.LineReader.Lines.{
  ReadsLine, IsValid, FirstAt, FirstAt-append, LineRead, without_return,
}

pub take-append_left : (n : ℕ) (xs ys : Bytes) → n ≤ length xs → take n (xs ++ ys) ≡ take n xs
take-append_left zero xs ys h = refl
take-append_left (suc n) [] ys h = absurd (omega arith)
take-append_left (suc n) (x ∷ xs) ys h = ap (◌∷◌ x) (take-append_left n xs ys (omega arith))

module _ (r : LineReader) (bytes : Bytes) (v : IsValid r bytes) (pos : ℕ)
    (f : FirstAt 10 pos bytes) where
  at_start : (q : ℕ) → q < length bytes → get_or r.buf (r.start_offset + q) 0 ≡ get_or bytes q 0
  at_start q h = Holds-get_or r.buf r.start_offset r.end_offset bytes v.holds q h

  line_size : length (take pos bytes) ≡ pos
  line_size = omega (arith, length-take pos bytes, f.within)

  -- A carriage return stands before the new line exactly if it ends the line.
  same_test :
      (ltb 0 (r.start_offset + pos) && get_or r.buf (r.start_offset + pos - 1) 0 == 13)
      ≡ (ltb 0 pos && get_or (take pos bytes) (pos - 1) 0 == 13)
  same_test = elim (lt-or-le 1 (suc pos)) [
    | inl some_bytes ↦
        let here : r.start_offset + pos - 1 ≡ r.start_offset + (pos - 1) = omega arith in
        let same : get_or r.buf (r.start_offset + pos - 1) 0 ≡ get_or (take pos bytes) (pos - 1) 0 =
          ap (λ (i : ℕ). get_or r.buf i 0) here
          ∙ at_start (pos - 1) (omega (arith, f.within))
          ∙ sym (get_or-take pos (pos - 1) bytes (omega arith)) in
        ground (arith, same)
    | inr no_byte ↦ elim (lt-or-le 0 r.start_offset) [
      | inl later ↦
          let here : r.start_offset - 1 ≡ r.start_offset + pos - 1 = omega arith in
          let line : get_or r.buf (r.start_offset + pos - 1) 0 ≡ 10 =
            sym (ap (λ (i : ℕ). get_or r.buf i 0) here) ∙ v.line_before later in
          ground (arith, line)
      | inr first ↦ ground arith
    ]
  ]

  front : (n : ℕ) → n ≤ length bytes → take n (drop r.start_offset r.buf) ≡ take n bytes
  front n h = Holds-take r.buf r.start_offset r.end_offset bytes v.holds n h

  cut :
      (b : Bool)
      → take
          ((if b then r.start_offset + pos - 1 else r.start_offset + pos) - r.start_offset)
          (drop r.start_offset r.buf)
        ≡ (if b then take (length (take pos bytes) - 1) (take pos bytes) else take pos bytes)
  cut true =
      let n : r.start_offset + pos - 1 - r.start_offset ≡ length (take pos bytes) - 1 =
        omega (arith, line_size) in
      ap (λ (k : ℕ). take k (drop r.start_offset r.buf)) n
      ∙ front (length (take pos bytes) - 1) (omega (arith, line_size, f.within))
      ∙ sym (take-take (length (take pos bytes) - 1) pos bytes (omega (arith, line_size)))
  cut false =
      let n : r.start_offset + pos - r.start_offset ≡ pos = omega arith in
      ap (λ (k : ℕ). take k (drop r.start_offset r.buf)) n ∙ front pos (omega (arith, f.within))

  -- The line does not end before the start.
  end_in_order :
      leb r.start_offset (
        if ltb 0 pos && get_or (take pos bytes) (pos - 1) 0 == 13
        then r.start_offset + pos - 1
        else r.start_offset + pos)
      ≡ true
  end_in_order = elim (lt-or-le 1 (suc pos)) [
    | inl some_bytes ↦ ground arith
    | inr no_byte ↦ ground arith
  ]

  line_until-lem : line_until r (r.start_offset + pos) ≡ some (without_return (take pos bytes))
  line_until-lem =
      let line : Bytes = take pos bytes in
      let np = r.start_offset + pos in
      let test = λ (n : ℕ). ltb 0 n && get_or line (n - 1) 0 == 13 in
      let slice = λ (end : ℕ). take (end - r.start_offset) (drop r.start_offset r.buf) in
      let end = λ (b : Bool). if b then np - 1 else np in
      ap (λ (b : Bool). if leb r.start_offset (end b) then some (slice (end b)) else none) same_test
      ∙ ap (λ (b : Bool). if b then some (slice (end (test pos))) else none) end_in_order
      ∙ ap some (
          cut (test pos)
          ∙ ap (λ (b : Bool). if b then take (length line - 1) line else line)
              (ap test (sym line_size)))

  skip_line-IsValid : IsValid (skip_line r (r.start_offset + pos)) (drop (suc pos) bytes)
  unfolding skip_line
  skip_line-IsValid =
      let np = r.start_offset + pos in
      let size = Holds-length r.buf r.start_offset r.end_offset bytes v.holds in
      let next : r.start_offset + suc pos ≡ suc np = omega arith in
      let later : IsValid (record r { start_offset = suc np }) (drop (suc pos) bytes) = record {
        size = v.size;
        holds =
            subst (λ (k : ℕ). Holds r.buf k r.end_offset (drop (suc pos) bytes)) next
              (Holds-drop r.buf r.start_offset r.end_offset bytes v.holds (suc pos)
                (omega (arith, f.within)));
        line_before = λ _.
            let here : suc np - 1 ≡ np = omega arith in
            ap (λ (i : ℕ). get_or r.buf i 0) here ∙ at_start pos f.within ∙ f.is_there;
      } in
      let After = λ (b : Bool).
        IsValid
          (record r {
            start_offset = if b then 0 else suc np;
            end_offset = if b then 0 else r.end_offset;
          })
          (drop (suc pos) bytes) in
      elim (Bool-cases (suc np == r.end_offset)) [
        | inl all ↦
            let none_left : length bytes ≤ suc pos = ground (arith, size) in
            subst After (sym all) (record {
              size = v.size;
              holds = record {
                ordered = omega arith;
                in_buf = omega arith;
                same = sym (drop-all (suc pos) bytes none_left);
              };
              line_before = λ h. absurd (omega (arith, h));
            })
        | inr some_left ↦ subst After (sym some_left) later
      ]

  pub found-ReadsLine :
      (s : Stream)
      → ReadsLine
          (bytes ++ s.incoming)
          s.written
          (with_line (line_until r (r.start_offset + pos)) (skip_line r (r.start_offset + pos)) s)
  found-ReadsLine s =
      let size = Holds-length r.buf r.start_offset r.end_offset bytes v.holds in
      let after = skip_line r (r.start_offset + pos) in
      let read : LineRead (bytes ++ s.incoming) s.written (without_return (take pos bytes)) after
          s =
        record {
          pos = pos;
          found = FirstAt-append 10 pos bytes s.incoming f;
          below_size = omega (arith, f.within, size, v.holds.in_buf, v.size);
          line_is =
              ap without_return
                (sym (take-append_left pos bytes s.incoming (omega (arith, f.within))));
          rest = drop (suc pos) bytes;
          valid = skip_line-IsValid;
          left = sym (drop-append (suc pos) bytes s.incoming (omega (arith, f.within)));
          same_written = refl;
        } in
      subst (λ (o : Option Bytes). ReadsLine (bytes ++ s.incoming) s.written (with_line o after s))
        (sym line_until-lem) read

pub reset_buf_offset-IsValid :
    (r : LineReader) (bytes : Bytes)
    → IsValid r bytes
    → IsValid (reset_buf_offset r) bytes
      × ((reset_buf_offset r).start_offset ≡ 0)
      × ((reset_buf_offset r).end_offset ≡ length bytes)
unfolding reset_buf_offset
reset_buf_offset-IsValid r bytes v =
    let size = Holds-length r.buf r.start_offset r.end_offset bytes v.holds in
    let unread : LineReader = record {
      buf = splice r.buf 0 (unparsed_data r);
      start_offset = 0;
      end_offset = r.end_offset - r.start_offset;
    } in
    let Goal =
      λ (x : LineReader). IsValid x bytes × (x.start_offset ≡ 0) × (x.end_offset ≡ length bytes) in
    let Reset = λ (b : Bool). Goal (if b then r else unread) in
    let moved : length (unparsed_data r) ≡ length bytes = ap length v.holds.same in
    let fits : 0 + length (unparsed_data r) ≤ length r.buf =
      omega (arith, moved, size, v.holds.in_buf) in
    elim (Bool-cases (r.start_offset == 0)) [
      | inl first ↦ subst Reset (sym first) (v, ground arith, ground (arith, size))
      | inr later ↦ subst Reset (sym later) (
        record {
          size = length-splice r.buf (unparsed_data r) 0 fits ∙ v.size;
          holds = record {
            ordered = omega arith;
            in_buf =
                omega (arith, length-splice r.buf (unparsed_data r) 0 fits, size, v.holds.in_buf);
            same =
                take_front (r.end_offset - r.start_offset - 0) (unparsed_data r) _
                  (omega (arith, moved, size))
                ∙ v.holds.same;
          };
          line_before = λ h. absurd (omega (arith, h));
        },
        refl,
        size,
      )
    ]
