-- ===== src/Common/Splice.antt =====
-- Positions in a buffer after a part of it was filled.
use native.Mathlib.Nat.{mod-eq_of_lt, mul-add-mod_self_right}
use shoes_on_shuttle.Common.{
  splice, ◌-◌, get_or, length, ◌%◌, ◌≡◌, ◌<◌, ◌≤◌, ◌+◌, Bytes, ℕ, zero, suc, [], ◌∷◌, ◌++◌, arith,
  refl, ap, ◌∙◌, get_or-append_left, get_or-append, length-take, length-drop, length-append, take,
  drop,
}

pub get_or-take :
    (from i : ℕ) (buf : Bytes) → i < from → get_or (take from buf) i 0 ≡ get_or buf i 0
get_or-take zero i buf h = absurd (omega arith)
get_or-take (suc from) i [] h = refl
get_or-take (suc from) zero (x ∷ buf) h = refl
get_or-take (suc from) (suc i) (x ∷ buf) h = get_or-take from i buf (omega arith)

pub get_or-drop : (m i j : ℕ) (buf : Bytes) → i ≡ m + j → get_or (drop m buf) j 0 ≡ get_or buf i 0
get_or-drop zero i j buf h = ap (λ k. get_or buf k 0) (omega arith)
get_or-drop (suc m) i j [] h = refl
get_or-drop (suc m) zero j (x ∷ buf) h = absurd (omega arith)
get_or-drop (suc m) (suc i) j (x ∷ buf) h = get_or-drop m i j buf (omega arith)

module _ (buf bytes : Bytes) (from i : ℕ) (inside : from + length bytes ≤ length buf) where
  pub get_or-splice_before : i < from → get_or (splice buf from bytes) i 0 ≡ get_or buf i 0
  get_or-splice_before h =
      get_or-append_left i (take from buf) _ 0 (omega (arith, length-take from buf))
      ∙ get_or-take from i buf h

  pub get_or-splice_inside :
      (k : ℕ)
      → k < length bytes
      → i ≡ from + k
      → get_or (splice buf from bytes) i 0 ≡ get_or bytes k 0
  get_or-splice_inside k h e =
      get_or-append from i k (take from buf) _ 0 (omega (arith, length-take from buf)) e
      ∙ get_or-append_left k bytes _ 0 h

  pub get_or-splice_after :
      from + length bytes ≤ i → get_or (splice buf from bytes) i 0 ≡ get_or buf i 0
  get_or-splice_after h =
      let n = length bytes in
      get_or-append from i (i - from) (take from buf) _ 0 (omega (arith, length-take from buf))
        (omega arith)
      ∙ get_or-append n (i - from) (i - from - n) bytes _ 0 refl (omega arith)
      ∙ get_or-drop (from + n) i (i - from - n) buf (omega arith)

pub length-splice :
    (buf bytes : Bytes) (from : ℕ)
    → from + length bytes ≤ length buf
    → length (splice buf from bytes) ≡ length buf
length-splice buf bytes from h =
    let rest = drop (from + length bytes) buf in
    omega (
      arith,
      length-append (take from buf) (bytes ++ rest),
      length-append bytes rest,
      length-take from buf,
      length-drop (from + length bytes) buf,
    )

-- An index that runs over the end once.
pub wrap_below : (x n : ℕ) → x < n → x % n ≡ x
wrap_below x n h = mod-eq_of_lt h

pub wrap_above : (x n : ℕ) → n ≤ x → x < n + n → x % n ≡ x - n
wrap_above x n h l =
    ap (λ (t : ℕ). t % n) (omega arith)
    ∙ mul-add-mod_self_right 1 n (x - n)
    ∙ mod-eq_of_lt (omega arith)
