-- ===== src/Common/Bits.antt =====
-- `&` with a mask of leading ones, in plain arithmetic.
use Prim.Native.Nat.{
  ℕ, zero, suc, ◌+◌, ◌-◌, ◌*◌, ◌/◌, ◌%◌, ◌^◌, ◌≤◌, ◌<◌, min, bit_and, digits, bit_and-bitwise,
}
use mathlib.Core.Bool.{Bool, true, ◌&&◌}
use mathlib.Core.Path.{◌≡◌, refl, sym, ◌∙◌, ap}
use native.Mathlib.Nat.{pow-suc, pow-succ', one-le-pow, mul_assoc, div-div-eq-div-mul}
use native.Mathlib.Omega.{arith}

abbrev digitwise : ℕ → ℕ → ℕ → ℕ
digitwise n a b = digits (λ k. zero) min n a b

digitwise-zero : (n b : ℕ) → digitwise n 0 b ≡ 0
digitwise-zero zero b = refl
digitwise-zero (suc n) b = refl

-- Rounds beyond the first operand change nothing.
digitwise_stable : (a b n m : ℕ) → (a ≤ n) × (a ≤ m) → digitwise m a b ≡ digitwise n a b
digitwise_stable zero b n m h = digitwise-zero m b ∙ sym (digitwise-zero n b)
digitwise_stable (suc a) b zero m (below, _) = absurd (omega arith)
digitwise_stable (suc a) b (suc n) zero (_, below) = absurd (omega arith)
digitwise_stable (suc a) b (suc n) (suc m) (le_n, le_m) =
    let halves = digitwise_stable (suc a / 2) (b / 2) n m (omega arith, omega arith) in
    omega (arith, halves)

-- The lowest digit apart.
pub bit_and_step : (a b : ℕ) → bit_and a b ≡ min (a % 2) (b % 2) + 2 * bit_and (a / 2) (b / 2)
bit_and_step a b = omega (arith, bit_and-bitwise a b, bit_and-bitwise (a / 2) (b / 2), one_round a)
  where
    one_round :
        (a : ℕ) → digitwise a a b ≡ min (a % 2) (b % 2) + 2 * digitwise (a / 2) (a / 2) (b / 2)
    one_round zero = omega (arith, digitwise-zero 0 (b / 2))
    one_round (suc k) =
        omega (arith, digitwise_stable (suc k / 2) (b / 2) (suc k / 2) k (omega arith, omega arith))

-- `k` ones keep what has `k` digits.
pub bit_and_ones : (k a : ℕ) → a < 2 ^ k → bit_and a (2 ^ k - 1) ≡ a
bit_and_ones zero zero h = refl
bit_and_ones zero (suc a) h = absurd (omega arith)
bit_and_ones (suc k) a h =
    let double = pow-suc 2 k in
    let halved : (2 ^ suc k - 1) / 2 ≡ 2 ^ k - 1 =
      omega (arith, double, one-le-pow k 2 (omega arith)) in
    omega (
      arith,
      double,
      one-le-pow k 2 (omega arith),
      bit_and_step a (2 ^ suc k - 1),
      ap (bit_and (a / 2)) halved,
      bit_and_ones k (a / 2) (omega (arith, double)),
    )

div_pow_suc : (c a : ℕ) → a / 2 ^ suc c ≡ a / 2 / 2 ^ c
div_pow_suc c a = rw (pow-succ' 2 c, div-div-eq-div-mul)

-- A mask with a zero for its lowest digit.
bit_and_even : (a m : ℕ) → bit_and a (m * 2) ≡ bit_and (a / 2) m * 2
bit_and_even a m =
    let halved : m * 2 / 2 ≡ m = omega arith in
    omega (arith, bit_and_step a (m * 2), ap (bit_and (a / 2)) halved)

-- `k` ones over `c` zeros clear the lowest `c` digits.
pub bit_and_leading :
    (c k a : ℕ) → a < 2 ^ k * 2 ^ c → bit_and a ((2 ^ k - 1) * 2 ^ c) ≡ a / 2 ^ c * 2 ^ c
bit_and_leading zero k a h =
    ap (bit_and a) (omega arith) ∙ bit_and_ones k a (omega arith) ∙ omega arith
bit_and_leading (suc c) k a h =
    let shape : (2 ^ k - 1) * 2 ^ suc c ≡ (2 ^ k - 1) * 2 ^ c * 2 = rw (pow-suc, mul_assoc) in
    let narrower : a / 2 < 2 ^ k * 2 ^ c =
      omega (arith, ap (λ (t : ℕ). 2 ^ k * t) (pow-suc 2 c), mul_assoc (2 ^ k) (2 ^ c) 2) in
    rw
      (shape, bit_and_even, bit_and_leading c k (a / 2) (narrower), div_pow_suc, pow-suc, mul_assoc)

-- Whether a test holds of every number below a bound, by evaluation.
unfoldable pub holds_below : (ℕ → Bool) → ℕ → Bool
holds_below test zero = true
holds_below test (suc bound) = holds_below test bound && test bound

pub holds_below_sound :
    (test : ℕ → Bool) (bound k : ℕ) → k < bound → holds_below test bound ≡ true → test k ≡ true
unfolding holds_below
holds_below_sound test zero k below all = absurd (omega arith)
holds_below_sound test (suc bound) k below all = ground (arith, holds_below_sound test bound k)
