-- ===== src/LineReader/Lines.antt =====
-- Lines of `src/line_reader.rs` as parts of what is to come, whatever the pieces are.
use shoes_on_shuttle.Common.{
  length-append, get_or-append_left, ℕ, suc, Option, none, some, Bytes, ◌++◌, ◌∙◌, sym, arith, drop,
  take, length, ◌≡◌, ◌-◌, ◌≤◌, ◌<◌, ◌==◌, ◌&&◌, if◌then◌else◌, ltb, inl, inr, lt-or-le, get_or,
}
use mathlib.Core.Option.{none, some}
use shoes_on_shuttle.Common.Holds.{Holds}
use shoes_on_shuttle.LineReader.{LineReader, Below}
use shoes_on_shuttle.Stream.{Stream, Outcome, ok, err, panic, IoError, ErrorKind}

-- The first `c` stands at `pos`.
pub record FirstAt (c pos : ℕ) (xs : Bytes) : Type 0 where
  pub within : pos < length xs
  pub is_there : get_or xs pos 0 ≡ c
  pub none_before : (i : ℕ) → i < pos → ¬ (get_or xs i 0 ≡ c)

abbrev pub Found : ℕ → Bytes → Option ℕ → Type 0
Found c xs (some pos) = FirstAt c pos xs
Found c xs none = (i : ℕ) → i < length xs → ¬ (get_or xs i 0 ≡ c)

-- What `memchr` is documented to do.
abbrev pub Finds : Below → Type 0
Finds below = (c : ℕ) (xs : Bytes) → Found c xs (below.memchr c xs)

-- The offsets are in order, and what stands before the start is a new line.
pub record IsValid (r : LineReader) (bytes : Bytes) : Type 0 where
  pub size : length r.buf ≡ 32768
  pub holds : Holds r.buf r.start_offset r.end_offset bytes
  pub line_before : 0 < r.start_offset → get_or r.buf (r.start_offset - 1) 0 ≡ 10

abbrev pub without_return : Bytes → Bytes
without_return line =
    if ltb 0 (length line) && get_or line (length line - 1) 0 == 13
    then take (length line - 1) line
    else line

-- The line before the new line at `pos` of `pending` was read.
pub record LineRead (pending written line : Bytes) (r : LineReader) (s : Stream) : Type 0 where
  pub pos : ℕ
  pub found : FirstAt 10 pos pending
  pub below_size : pos < 32768
  pub line_is : line ≡ without_return (take pos pending)
  pub rest : Bytes
  pub valid : IsValid r rest
  pub left : rest ++ s.incoming ≡ drop (suc pos) pending
  pub same_written : s.written ≡ written

-- An error, where `pending` has no new line in its first 32768 bytes.
pub record NoLine (pending : Bytes) (e : IoError) : Type 0 where
  pub kind_is : e.kind ≡ ErrorKind.connection_aborted
  pub not_found : ¬ ((pos : ℕ) × (pos < 32768) × FirstAt 10 pos pending)

abbrev pub ReadsLine : Bytes → Bytes → Outcome (Bytes × LineReader) → Type 0
ReadsLine pending written (ok (line, r) s) = LineRead pending written line r s
ReadsLine pending written (err e s) = NoLine pending e
ReadsLine pending written panic = ⊥

module _ (c pos : ℕ) (xs ys : Bytes) where
  pub FirstAt-append : FirstAt c pos xs → FirstAt c pos (xs ++ ys)
  FirstAt-append f = record {
    within = omega (arith, f.within, length-append xs ys);
    is_there = get_or-append_left pos xs ys 0 f.within ∙ f.is_there;
    none_before = λ i below there.
        f.none_before i below
          (sym (get_or-append_left i xs ys 0 (omega (arith, f.within))) ∙ there);
  }

  pub behind_all : Found c xs none → FirstAt c pos (xs ++ ys) → length xs ≤ pos
  behind_all nowhere f = elim (lt-or-le pos (length xs)) [
    | inl below ↦
        absurd (nowhere pos below (sym (get_or-append_left pos xs ys 0 below) ∙ f.is_there))
    | inr behind ↦ behind
  ]
