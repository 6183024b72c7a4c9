-- ===== src/Examples/Lines.antt =====
-- The theorem on `src/line_reader.rs` at a line that comes in pieces of one byte.
use shoes_on_shuttle.Common.{
  ℕ, zero, suc, Bool, false, Option, none, some, Bytes, [], ◌∷◌, sym, refl, arith, length, ◌≡◌, ◌<◌,
  ◌==◌, if◌then◌else◌, inl, inr, Bool-cases, get_or, replicate, length-replicate,
}
use mathlib.Core.Path.{subst}
use shoes_on_shuttle.LineReader.{LineReader, Below, read_line_bytes}
use shoes_on_shuttle.LineReader.Lines.{IsValid, Found, ReadsLine}
use shoes_on_shuttle.LineReader.Reads.{read_line_bytes-ReadsLine}
use shoes_on_shuttle.Stream.{receiving}

-- A search from the front.
abbrev later : Option ℕ → Option ℕ
later none = none
later (some pos) = some (suc pos)

unfoldable pub search : ℕ → Bytes → Option ℕ
search c [] = none
search c (x ∷ xs) = if x == c then some 0 else later (search c xs)

abbrev pub by_bytes : Below
by_bytes = record { memchr = search; pace = λ n. 0 }

one_later :
    (c x n : ℕ) (xs : Bytes)
    → ¬ (x ≡ c)
    → ((i : ℕ) → i < n → ¬ (get_or xs i 0 ≡ c))
    → (i : ℕ) → i < suc n
    → ¬ (get_or (x ∷ xs) i 0 ≡ c)
one_later c x n xs other h zero l e = other e
one_later c x n xs other h (suc i) l e = h i (omega arith) e

later-Found :
    (c x : ℕ) (xs : Bytes) (found : Option ℕ)
    → ¬ (x ≡ c)
    → Found c xs found
    → Found c (x ∷ xs) (later found)
later-Found c x xs none other nowhere = one_later c x (length xs) xs other nowhere
later-Found c x xs (some pos) other f = record {
  within = omega (arith, f.within);
  is_there = f.is_there;
  none_before = one_later c x pos xs other f.none_before;
}

differs : (x c : ℕ) → (x == c) ≡ false → ¬ (x ≡ c)
differs x c h e = ground arith

pub search-Found : (c : ℕ) (xs : Bytes) → Found c xs (search c xs)
unfolding search
search-Found c [] = λ i h e. absurd (omega (arith, h))
search-Found c (x ∷ xs) =
    let Goal = λ (b : Bool). Found c (x ∷ xs) (if b then some 0 else later (search c xs)) in
    elim (Bool-cases (x == c)) [
      | inl here ↦ subst Goal (sym here) (record {
        within = omega arith;
        is_there = ground arith;
        none_before = λ i h. absurd (omega (arith, h));
      })
      | inr other ↦
          subst Goal (sym other)
            (later-Found c x xs (search c xs) (λ e. differs x c other e) (search-Found c xs))
    ]

abbrev pub empty_reader : LineReader
empty_reader = record { buf = replicate 32768 0; start_offset = 0; end_offset = 0 }

pub empty_reader-IsValid : IsValid empty_reader []
empty_reader-IsValid = record {
  size = length-replicate {A = ℕ} 32768 0;
  holds = record { ordered = omega arith; in_buf = omega arith; same = refl };
  line_before = λ h. absurd (omega (arith, h));
}

read_line_bytes-ReadsLine_example :
    ReadsLine
      (71 ∷ 13 ∷ 10 ∷ 72 ∷ [])
      []
      (read_line_bytes by_bytes empty_reader (receiving (71 ∷ 13 ∷ 10 ∷ 72 ∷ [])))
read_line_bytes-ReadsLine_example =
    read_line_bytes-ReadsLine by_bytes search-Found empty_reader []
      (receiving (71 ∷ 13 ∷ 10 ∷ 72 ∷ [])) empty_reader-IsValid
