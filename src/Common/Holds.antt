-- ===== src/Common/Holds.antt =====
-- What a buffer holds between two offsets, as a list of bytes.
use shoes_on_shuttle.Common.Splice.{get_or-take, get_or-drop, length-splice}
use shoes_on_shuttle.Common.{
  length-take, length-drop, length-append, drop_front, take_front, ℕ, zero, suc, Bytes, [], ◌∷◌,
  ◌++◌, ◌∙◌, sym, ap, refl, arith, drop, take, length, ◌≡◌, ◌+◌, ◌-◌, ◌≤◌, ◌<◌, get_or, splice,
}

-- The part of a buffer from `start` to `end`, both in range, is `bytes`.
pub record Holds (buf : Bytes) (start end : ℕ) (bytes : Bytes) : Type 0 where
  pub ordered : start ≤ end
  pub in_buf : end ≤ length buf
  pub same : take (end - start) (drop start buf) ≡ bytes

pub take-take : (n k : ℕ) (xs : Bytes) → n ≤ k → take n (take k xs) ≡ take n xs
take-take zero k xs h = refl
take-take (suc n) zero xs h = absurd (omega arith)
take-take (suc n) (suc k) [] h = refl
take-take (suc n) (suc k) (x ∷ xs) h = ap (◌∷◌ x) (take-take n k xs (omega arith))

pub take-nil : (k : ℕ) → ◌≡◌ {A = Bytes} (take k []) []
take-nil zero = refl
take-nil (suc k) = refl

pub drop-take : (n k m : ℕ) (xs : Bytes) → m ≡ k - n → drop n (take k xs) ≡ take m (drop n xs)
drop-take zero k m xs h = ap (λ (j : ℕ). take j xs) (omega arith)
drop-take (suc n) k m [] h = ap (drop (suc n)) (take-nil k) ∙ sym (take-nil m)
drop-take (suc n) zero zero (x ∷ xs) h = refl
drop-take (suc n) zero (suc m) (x ∷ xs) h = absurd (omega arith)
drop-take (suc n) (suc k) m (x ∷ xs) h = drop-take n k m xs (omega arith)

pub drop-all : (n : ℕ) (xs : Bytes) → length xs ≤ n → ◌≡◌ {A = Bytes} (drop n xs) []
drop-all zero [] h = refl
drop-all zero (x ∷ xs) h = absurd (omega arith)
drop-all (suc n) [] h = refl
drop-all (suc n) (x ∷ xs) h = drop-all n xs (omega arith)

pub drop-drop : (m n k : ℕ) (xs : Bytes) → k ≡ m + n → drop n (drop m xs) ≡ drop k xs
drop-drop zero n k xs h = ap (λ (j : ℕ). drop j xs) (omega arith)
drop-drop (suc m) n zero xs h = absurd (omega arith)
drop-drop (suc m) zero (suc k) [] h = refl
drop-drop (suc m) (suc n) (suc k) [] h = refl
drop-drop (suc m) n (suc k) (x ∷ xs) h = drop-drop m n k xs (omega arith)

module _ (buf : Bytes) (start end : ℕ) (bytes : Bytes) (h : Holds buf start end bytes) where
  pub Holds-length : end - start ≡ length bytes
  Holds-length = omega (
    arith,
    ap length h.same,
    length-take (end - start) (drop start buf),
    length-drop start buf,
    h.ordered,
    h.in_buf,
  )

  pub Holds-take : (n : ℕ) → n ≤ length bytes → take n (drop start buf) ≡ take n bytes
  Holds-take n l =
      sym (take-take n (end - start) (drop start buf) (omega (arith, Holds-length)))
      ∙ ap (take n) h.same

  pub Holds-get_or : (i : ℕ) → i < length bytes → get_or buf (start + i) 0 ≡ get_or bytes i 0
  Holds-get_or i l =
      sym (get_or-drop start (start + i) i buf refl)
      ∙ sym (get_or-take (end - start) i (drop start buf) (omega (arith, Holds-length)))
      ∙ ap (λ (b : Bytes). get_or b i 0) h.same

  pub Holds-drop : (n : ℕ) → n ≤ length bytes → Holds buf (start + n) end (drop n bytes)
  Holds-drop n l = record {
    ordered = omega (arith, Holds-length, h.ordered);
    in_buf = h.in_buf;
    same =
        ap (take (end - (start + n))) (sym (drop-drop start n (start + n) buf refl))
        ∙ sym (drop-take n (end - start) (end - (start + n)) (drop start buf) (omega arith))
        ∙ ap (drop n) h.same;
  }

pub take-append_longer :
    (xs ys : Bytes) (n m : ℕ) → n ≡ length xs + m → take n (xs ++ ys) ≡ xs ++ take m ys
take-append_longer [] ys n m h = ap (λ (k : ℕ). take k ys) (omega arith)
take-append_longer (x ∷ xs) ys zero m h = absurd (omega arith)
take-append_longer (x ∷ xs) ys (suc n) m h = ap (◌∷◌ x) (take-append_longer xs ys n m (omega arith))

pub drop-append : (n : ℕ) (xs ys : Bytes) → n ≤ length xs → drop n (xs ++ ys) ≡ drop n xs ++ ys
drop-append zero xs ys h = refl
drop-append (suc n) [] ys h = absurd (omega arith)
drop-append (suc n) (x ∷ xs) ys h = drop-append n xs ys (omega arith)

-- Bytes put behind what a buffer holds.
pub Holds-append :
    (buf : Bytes) (start end next : ℕ) (bytes new : Bytes)
    → end + length new ≡ next
    → next ≤ length buf
    → Holds buf start end bytes
    → Holds (splice buf end new) start next (bytes ++ new)
Holds-append buf start end next bytes new e fits h =
    let front : length (take end buf) ≡ end = omega (arith, length-take end buf, h.in_buf) in
    let left : Bytes = drop (end + length new) buf in
    let size = Holds-length buf start end bytes h in
    record {
      ordered = omega (arith, h.ordered);
      in_buf = omega (arith, length-splice buf new end (omega arith), fits);
      same =
          ap (take (next - start))
            (drop-append start (take end buf) (new ++ left) (omega (arith, front, h.ordered)))
          ∙ ap (λ (b : Bytes). take (next - start) (b ++ (new ++ left)))
              (drop-take start end (end - start) buf refl ∙ h.same)
          ∙ take-append_longer bytes (new ++ left) (next - start) (length new)
              (omega (arith, size, h.ordered))
          ∙ ap (◌++◌ bytes) (take_front (length new) new left refl);
    }

-- Overwriting the front of what a buffer holds by as many bytes.
pub Holds-splice :
    (buf : Bytes) (start end : ℕ) (old new rest : Bytes)
    → length new ≡ length old
    → Holds buf start end (old ++ rest)
    → Holds (splice buf start new) start end (new ++ rest)
Holds-splice buf start end old new rest e h =
    let n = length new in
    let size = Holds-length buf start end (old ++ rest) h in
    let fits : n ≤ end - start = omega (arith, size, length-append old rest) in
    let inside : start + n ≤ length buf = omega (arith, h.in_buf, h.ordered) in
    let front : length (take start buf) ≡ start = omega (arith, length-take start buf) in
    let left : Bytes = drop (start + n) buf in
    let after =
      Holds-drop buf start end (old ++ rest) h n (omega (arith, length-append old rest)) in
    let count : end - start - n ≡ end - (start + n) = omega arith in
    record {
      ordered = h.ordered;
      in_buf = omega (arith, h.in_buf, length-splice buf new start inside);
      same =
          ap (take (end - start)) (drop_front start (take start buf) (new ++ left) (sym front))
          ∙ take-append_longer new left (end - start) (end - start - n) (omega arith)
          ∙ ap (λ (m : ℕ). new ++ take m left) count
          ∙ ap (λ (b : Bytes). new ++ b) (after.same ∙ drop_front n old rest e);
    }

pub take-drop : (n : ℕ) (xs : Bytes) → take n xs ++ drop n xs ≡ xs
take-drop zero xs = refl
take-drop (suc n) [] = refl
take-drop (suc n) (x ∷ xs) = ap (◌∷◌ x) (take-drop n xs)
