-- ===== src/Common/Lists.antt =====
-- Lists indexed and measured by native numbers, and byte strings.
use Prim.Native.Nat.{ℕ, zero, suc, ◌+◌, ◌-◌, ◌<◌, min}
use mathlib.Core.Path.{◌≡◌, refl, ap}
use mathlib.Core.Bool.{Bool, true, false, ◌&&◌}
use mathlib.Core.Logic.{◌⊎◌, inl, inr}
use mathlib.Core.Option.{Option, none, some}
use mathlib.Core.List.{List, [], ◌∷◌, ◌++◌}
use native.Mathlib.Omega.{arith}
use shoes_on_shuttle.Common.Tests.{◌==◌, Option-cases}

abbrev pub Bytes : Type 0
Bytes = List ℕ

abbrev pub IsByte : ℕ → Type 0
IsByte b = b < 256

module _ {ℓ} {A : Type ℓ} where
  abbrev pub All {κ} : (A → Type κ) → List A → Type κ
  All P [] = Unit {κ}
  All P (x ∷ xs) = P x × All P xs

  abbrev pub length : List A → ℕ
  length [] = 0
  length (x ∷ xs) = suc (length xs)

  abbrev pub get_elem? : List A → ℕ → Option A
  get_elem? [] i = none
  get_elem? (x ∷ xs) zero = some x
  get_elem? (x ∷ xs) (suc i) = get_elem? xs i

  abbrev pub get_or : List A → ℕ → A → A
  get_or [] i d = d
  get_or (x ∷ xs) zero d = x
  get_or (x ∷ xs) (suc i) d = get_or xs i d

  abbrev pub take : ℕ → List A → List A
  take zero xs = []
  take (suc n) [] = []
  take (suc n) (x ∷ xs) = x ∷ take n xs

  abbrev pub drop : ℕ → List A → List A
  drop zero xs = xs
  drop (suc n) [] = []
  drop (suc n) (x ∷ xs) = drop n xs

  abbrev pub replicate : ℕ → A → List A
  replicate zero a = []
  replicate (suc n) a = a ∷ replicate n a

  pub length-replicate : (n : ℕ) (a : A) → length (replicate n a) ≡ n
  length-replicate zero a = refl
  length-replicate (suc n) a = omega (arith, length-replicate n a)

  -- The first `n` elements and the rest, where there are as many.
  abbrev pub split_exact : ℕ → List A → Option (List A × List A)
  split_exact zero xs = some ([], xs)
  split_exact (suc n) [] = none
  split_exact (suc n) (x ∷ xs) = elim (split_exact n xs) [
    | none ↦ none
    | some (front, back) ↦ some (x ∷ front, back)
  ]

  pub length-append : (xs ys : List A) → length (xs ++ ys) ≡ length xs + length ys
  length-append [] ys = omega arith
  length-append (x ∷ xs) ys = omega (arith, length-append xs ys)

  pub length-take : (n : ℕ) (xs : List A) → length (take n xs) ≡ min n (length xs)
  length-take zero xs = omega arith
  length-take (suc n) [] = omega arith
  length-take (suc n) (x ∷ xs) = omega (arith, length-take n xs)

  pub length-drop : (n : ℕ) (xs : List A) → length (drop n xs) ≡ length xs - n
  length-drop zero xs = omega arith
  length-drop (suc n) [] = omega arith
  length-drop (suc n) (x ∷ xs) = omega (arith, length-drop n xs)

  pub split_exact-append : (xs ys : List A) → split_exact (length xs) (xs ++ ys) ≡ some (xs, ys)
  split_exact-append [] ys = refl
  split_exact-append (x ∷ xs) ys = rw (split_exact-append xs ys, split_exact)

  pub split_exact_front :
      (n : ℕ) (xs ys : List A) → n ≡ length xs → split_exact n (xs ++ ys) ≡ some (xs, ys)
  split_exact_front n xs ys e = rw (e, split_exact-append xs ys)

  pub take_front : (n : ℕ) (xs ys : List A) → n ≡ length xs → take n (xs ++ ys) ≡ xs
  take_front zero [] ys e = refl
  take_front zero (x ∷ xs) ys e = absurd (omega arith)
  take_front (suc n) [] ys e = absurd (omega arith)
  take_front (suc n) (x ∷ xs) ys e = ap (◌∷◌ x) (take_front n xs ys (omega arith))

  pub drop_front : (n : ℕ) (xs ys : List A) → n ≡ length xs → drop n (xs ++ ys) ≡ ys
  drop_front zero [] ys e = refl
  drop_front zero (x ∷ xs) ys e = absurd (omega arith)
  drop_front (suc n) [] ys e = absurd (omega arith)
  drop_front (suc n) (x ∷ xs) ys e = drop_front n xs ys (omega arith)

  pub get_or-append :
      (n i k : ℕ) (xs ys : List A) (d : A)
      → n ≡ length xs
      → i ≡ n + k
      → get_or (xs ++ ys) i d ≡ get_or ys k d
  get_or-append zero i k [] ys d e h = ap (λ j. get_or ys j d) (omega arith)
  get_or-append zero i k (x ∷ xs) ys d e h = absurd (omega arith)
  get_or-append (suc n) i k [] ys d e h = absurd (omega arith)
  get_or-append (suc n) zero k (x ∷ xs) ys d e h = absurd (omega arith)
  get_or-append (suc n) (suc i) k (x ∷ xs) ys d e h =
      get_or-append n i k xs ys d (omega arith) (omega arith)

  pub take-append-drop : (n : ℕ) (xs : List A) → take n xs ++ drop n xs ≡ xs
  take-append-drop zero xs = refl
  take-append-drop (suc n) [] = refl
  take-append-drop (suc n) (x ∷ xs) = ap (◌∷◌ x) (take-append-drop n xs)

  pub split_exact_lem :
      (n : ℕ) (xs front back : List A)
      → split_exact n xs ≡ some (front, back)
      → (xs ≡ front ++ back) × (length front ≡ n)
  split_exact_lem zero xs front back e = ground arith
  split_exact_lem (suc n) [] front back e = cc
  split_exact_lem (suc n) (x ∷ xs) front back e = elim (Option-cases (split_exact n xs)) [
    | inl h ↦ cc (rw (h, split_exact) at e)
    | inr ((f, r), h) ↦ ground (arith, rw (h, split_exact) at e, split_exact_lem n xs f r h)
  ]

-- Whether there are as many elements, with the two parts where there are.
pub split_exact-cases {ℓ} :
    {A : Type ℓ} (n : ℕ) (xs : List A)
    → (split_exact n xs ≡ none)
      ⊎ ((front : List A) × (back : List A) × (split_exact n xs ≡ some (front, back))
          × (xs ≡ front ++ back)
          × (length front ≡ n))
split_exact-cases n xs = elim (Option-cases (split_exact n xs)) [
  | inl h ↦ inl h
  | inr ((front, back), h) ↦
      let (parts, size) = split_exact_lem n xs front back h in inr (front, back, h, parts, size)
]

-- A list of one or two bytes is the list of what stands at its places.
pub one_byte : (xs : Bytes) → length xs ≡ 1 → xs ≡ get_or xs 0 0 ∷ []
one_byte [] h = absurd (omega arith)
one_byte (x ∷ []) h = refl
one_byte (x ∷ y ∷ ys) h = absurd (omega arith)

pub two_bytes : (xs : Bytes) → length xs ≡ 2 → xs ≡ get_or xs 0 0 ∷ get_or xs 1 0 ∷ []
two_bytes [] h = absurd (omega arith)
two_bytes (x ∷ []) h = absurd (omega arith)
two_bytes (x ∷ y ∷ []) h = refl
two_bytes (x ∷ y ∷ z ∷ zs) h = absurd (omega arith)

-- Equality of byte strings.
abbrev pub bytes_eq : Bytes → Bytes → Bool
bytes_eq [] [] = true
bytes_eq [] (y ∷ ys) = false
bytes_eq (x ∷ xs) [] = false
bytes_eq (x ∷ xs) (y ∷ ys) = x == y && bytes_eq xs ys

pub bytes_eq_refl : (xs : Bytes) → bytes_eq xs xs ≡ true
bytes_eq_refl [] = refl
bytes_eq_refl (x ∷ xs) = ground (arith, bytes_eq_refl xs)

pub bytes_eq→eq : (xs ys : Bytes) → bytes_eq xs ys ≡ true → xs ≡ ys
bytes_eq→eq [] [] h = refl
bytes_eq→eq [] (y ∷ ys) h = cc
bytes_eq→eq (x ∷ xs) [] h = cc
bytes_eq→eq (x ∷ xs) (y ∷ ys) h = ground (arith, bytes_eq→eq xs ys)

-- `buf[from..from + bytes.len()].copy_from_slice(bytes)`.
abbrev pub splice : Bytes → ℕ → Bytes → Bytes
splice buf from bytes = take from buf ++ (bytes ++ drop (from + length bytes) buf)
