-- ===== src/LineReader.antt =====
-- `src/line_reader.rs`. The stream below gives its bytes in pieces: `pace` chooses the length of each,
-- from what is left to come. `memchr` is the crate of that name.
pub mod Lines
pub mod Cut
pub mod Reads
pub mod Sequence
use Prim.Native.String.{String}
use shoes_on_shuttle.Net.Utf8.{is_utf8}
use shoes_on_shuttle.Common.{
  ℕ, zero, suc, Bool, true, false, Option, none, some, List, Bytes, [], ◌∷◌, ◌++◌, ◌∙◌, sym, ap,
  refl, arith, drop, take, length, ◌≡◌, ◌+◌, ◌-◌, ◌≤◌, ◌<◌, ◌==◌, ◌&&◌, if◌then◌else◌, ltb, leb,
  min, inl, inr, Bool-cases, lt-or-le, get_or, splice, ◌%◌, ◌*◌, ◌/◌, ◌^◌, not,
}
use shoes_on_shuttle.Stream.{panic, Stream, Outcome, ok, err, IoError, ErrorKind}

pub record LineReader : Type 0 where
  pub buf : Bytes
  pub start_offset : ℕ
  pub end_offset : ℕ

-- What the reader calls.
pub record Below : Type 0 where
  pub memchr : ℕ → Bytes → Option ℕ
  pub pace : ℕ → ℕ

abbrev pub buffer_size : ℕ
buffer_size = 32768

-- `buf` is the buffer that `allocate_vec` gives.
abbrev pub new : Bytes → LineReader
new buf = record { buf = buf; start_offset = 0; end_offset = 0 }

abbrev pub unparsed_data : LineReader → Bytes
unparsed_data r = take (r.end_offset - r.start_offset) (drop r.start_offset r.buf)

unfoldable pub reset_buf_offset : LineReader → LineReader
reset_buf_offset r = if r.start_offset == 0 then r else record {
  buf = splice r.buf 0 (unparsed_data r);
  start_offset = 0;
  end_offset = r.end_offset - r.start_offset;
}

abbrev pub is_cache_full : LineReader → Bool
is_cache_full r = r.start_offset == 0 && r.end_offset == buffer_size

-- How many bytes `stream.read` gives: at least one if there is one and room for it.
abbrev pub read_len : Below → LineReader → Stream → ℕ
read_len below r s =
    min (min (length r.buf - r.end_offset) (length s.incoming))
      (suc (below.pace (length s.incoming)))

abbrev pub aborted : String → IoError
aborted message = record { kind = ErrorKind.connection_aborted; message = message }

-- The stream gives no error of its own, so the loop of `read` ends in its first round.
unfoldable pub read : Below → LineReader → Stream → Outcome LineReader
unfolding reset_buf_offset
read below r s =
    let r' = reset_buf_offset r in
    let len = read_len below r' s in
    let read_bytes : LineReader = record r' {
      buf = splice r'.buf r'.end_offset (take len s.incoming);
      end_offset = r'.end_offset + len;
    } in
    if is_cache_full r
    then err (aborted "cache is full") s
    else if len == 0
    then err (aborted "EOF while reading") s
    else ok read_bytes (record s { incoming = drop len s.incoming })

-- Where the line before the new line at `newline_pos` ends: before a carriage return, if one is there.
abbrev pub line_end : LineReader → ℕ → ℕ
line_end r newline_pos =
    if ltb 0 newline_pos && get_or r.buf (newline_pos - 1) 0 == 13
    then newline_pos - 1
    else newline_pos

-- `buf[start_offset..end]`, which panics where the end is before the start.
abbrev pub line_until : LineReader → ℕ → Option Bytes
line_until r newline_pos =
    let end = line_end r newline_pos in
    if leb r.start_offset end
    then some (take (end - r.start_offset) (drop r.start_offset r.buf))
    else none

unfoldable pub skip_line : LineReader → ℕ → LineReader
skip_line r newline_pos =
    let at_end = suc newline_pos == r.end_offset in
    record r {
      start_offset = if at_end then 0 else suc newline_pos;
      end_offset = if at_end then 0 else r.end_offset;
    }

-- The loop on what `read` has given.
abbrev pub then_read :
    (LineReader → Stream → Outcome (Bytes × LineReader))
    → Outcome LineReader
    → Outcome (Bytes × LineReader)
then_read again (ok r s) = again r s
then_read again (err e s) = err e s
then_read again panic = panic

abbrev pub with_line : Option Bytes → LineReader → Stream → Outcome (Bytes × LineReader)
with_line (some line) r s = ok (line, r) s
with_line none r s = panic

-- The body of the loop on what `memchr` has found.
abbrev pub on_found :
    Below
    → (LineReader → Stream → Outcome (Bytes × LineReader))
    → Option ℕ
    → LineReader
    → Stream
    → Outcome (Bytes × LineReader)
on_found below again (some pos) r s =
    let newline_pos = r.start_offset + pos in
    with_line (line_until r newline_pos) (skip_line r newline_pos) s
on_found below again none r s = then_read again (read below r s)

-- Each round but the last takes a byte from the stream.
unfoldable pub read_lines : Below → ℕ → LineReader → Stream → Outcome (Bytes × LineReader)
unfolding skip_line read
read_lines below zero r s = panic
read_lines below (suc fuel) r s =
    on_found below (read_lines below fuel) (below.memchr 10 (unparsed_data r)) r s

unfoldable pub read_line_bytes : Below → LineReader → Stream → Outcome (Bytes × LineReader)
unfolding read_lines
read_line_bytes below r s = read_lines below (suc (length s.incoming)) r s

-- `from_utf8` of the bytes of a line.
abbrev pub decoded : Outcome (Bytes × LineReader) → Outcome (Bytes × LineReader)
decoded (ok (line, r) s) =
    if is_utf8 line
    then ok (line, r) s
    else err (record { kind = ErrorKind.invalid_data; message = "Failed to decode utf8" }) s
decoded (err e s) = err e s
decoded panic = panic

unfoldable pub read_line : Below → LineReader → Stream → Outcome (Bytes × LineReader)
unfolding read_line_bytes is_utf8
read_line below r s = decoded (read_line_bytes below r s)
