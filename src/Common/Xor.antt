-- ===== src/Common/Xor.antt =====
-- `^` on numbers undoes itself.
use Prim.Native.Nat.{
  ℕ, zero, suc, ◌+◌, ◌*◌, ◌/◌, ◌%◌, ◌≤◌, ◌<◌, bit_xor, differ, digits, bit_xor-bitwise,
}
use mathlib.Core.Path.{◌≡◌, refl, sym, ◌∙◌, ap}
use native.Mathlib.Omega.{arith}

abbrev differing : ℕ → ℕ → ℕ → ℕ
differing n a b = digits (λ k. k) differ n a b

differing-zero : (n b : ℕ) → differing n 0 b ≡ b
differing-zero zero b = refl
differing-zero (suc n) b = refl

differing_stable : (a b n m : ℕ) → (a ≤ n) × (a ≤ m) → differing m a b ≡ differing n a b
differing_stable zero b n m h = differing-zero m b ∙ sym (differing-zero n b)
differing_stable (suc a) b zero m (below, _) = absurd (omega arith)
differing_stable (suc a) b (suc n) zero (_, below) = absurd (omega arith)
differing_stable (suc a) b (suc n) (suc m) (le_n, le_m) =
    let halves = differing_stable (suc a / 2) (b / 2) n m (omega arith, omega arith) in
    omega (arith, halves)

differ-zero : (y : ℕ) → differ 0 y ≡ y
differ-zero y = refl

-- The lowest digit apart.
pub bit_xor_step : (a b : ℕ) → bit_xor a b ≡ differ (a % 2) (b % 2) + 2 * bit_xor (a / 2) (b / 2)
bit_xor_step zero b =
    omega (arith, bit_xor-bitwise 0 b, bit_xor-bitwise 0 (b / 2), differ-zero (b % 2))
bit_xor_step (suc k) b =
    let stable = differing_stable (suc k / 2) (b / 2) (suc k / 2) k (omega arith, omega arith) in
    omega (arith, bit_xor-bitwise (suc k) b, bit_xor-bitwise (suc k / 2) (b / 2), stable)

differ_twice : (x y : ℕ) → x < 2 → y < 2 → (differ x y < 2) × (differ (differ x y) y ≡ x)
differ_twice zero zero p q = omega arith
differ_twice zero (suc zero) p q = omega arith
differ_twice (suc zero) zero p q = omega arith
differ_twice (suc zero) (suc zero) p q = omega arith
differ_twice (suc (suc x)) y p q = absurd (omega arith)
differ_twice zero (suc (suc y)) p q = absurd (omega arith)
differ_twice (suc zero) (suc (suc y)) p q = absurd (omega arith)

bit_xor_twice_below : (n a b : ℕ) → a + b ≤ n → bit_xor (bit_xor a b) b ≡ a
bit_xor_twice_below n zero zero h = refl
bit_xor_twice_below zero (suc a) b h = absurd (omega arith)
bit_xor_twice_below zero zero (suc b) h = absurd (omega arith)
bit_xor_twice_below (suc n) a b h =
    let r = bit_xor (a / 2) (b / 2) in
    let d = differ (a % 2) (b % 2) in
    let x = bit_xor a b in
    let (small, twice) = differ_twice (a % 2) (b % 2) (omega arith) (omega arith) in
    let shape : x ≡ d + 2 * r = bit_xor_step a b in
    let low : x % 2 ≡ d = omega arith in
    let high : x / 2 ≡ r = omega arith in
    let inner : bit_xor r (b / 2) ≡ a / 2 = bit_xor_twice_below n (a / 2) (b / 2) (omega arith) in
    omega (
      arith,
      bit_xor_step x b,
      ap (λ t. differ t (b % 2)) low,
      twice,
      ap (λ t. bit_xor t (b / 2)) high,
      inner,
    )

-- What was combined with a key twice is as before.
pub bit_xor_twice : (a b : ℕ) → bit_xor (bit_xor a b) b ≡ a
bit_xor_twice a b = bit_xor_twice_below (a + b) a b (omega arith)
