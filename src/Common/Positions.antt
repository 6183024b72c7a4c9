-- ===== src/Common/Positions.antt =====
-- Where the elements of a list stand in a longer one.
use Prim.Native.Nat.{ℕ, zero, suc, ◌<◌}
use mathlib.Core.Path.{◌≡◌, refl, ap}
use mathlib.Core.List.{List, [], ◌∷◌, ◌++◌}
use native.Mathlib.Omega.{arith}
use mathlib.Core.Option.{some}
use shoes_on_shuttle.Common.Lists.{get_elem?, length, get_or, take, drop}

module _ {ℓ} {A : Type ℓ} where
  pub get_or-append_left :
      (i : ℕ) (xs ys : List A) (d : A) → i < length xs → get_or (xs ++ ys) i d ≡ get_or xs i d
  get_or-append_left i [] ys d h = absurd (omega arith)
  get_or-append_left zero (x ∷ xs) ys d h = refl
  get_or-append_left (suc i) (x ∷ xs) ys d h = get_or-append_left i xs ys d (omega arith)

  -- A list with an element is what stands before its last one, and that.
  pub take-append-last :
      (n : ℕ) (xs : List A) (d : A) → length xs ≡ suc n → xs ≡ take n xs ++ (get_or xs n d ∷ [])
  take-append-last n [] d h = absurd (omega arith)
  take-append-last zero (x ∷ []) d h = refl
  take-append-last zero (x ∷ y ∷ xs) d h = absurd (omega arith)
  take-append-last (suc n) (x ∷ xs) d h = ap (◌∷◌ x) (take-append-last n xs d (omega arith))

  pub get_elem?-drop :
      (i : ℕ) (xs : List A)
      → i < length xs
      → (x : A) × (get_elem? xs i ≡ some x) × (drop i xs ≡ x ∷ drop (suc i) xs)
  get_elem?-drop i [] h = absurd (omega arith)
  get_elem?-drop zero (x ∷ xs) h = (x, refl, refl)
  get_elem?-drop (suc i) (x ∷ xs) h = get_elem?-drop i xs (omega arith)

  pub drop-length : (xs : List A) → drop (length xs) xs ≡ []
  drop-length [] = refl
  drop-length (x ∷ xs) = drop-length xs
