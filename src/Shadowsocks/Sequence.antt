-- ===== src/Shadowsocks/Sequence.antt =====
-- `IncreasingSequence` of `src/shadowsocks/shadowsocks_stream.rs`: the nonces of a key, of twelve bytes
-- with the lowest first.
use native.Mathlib.Nat.{pow-suc}
use shoes_on_shuttle.Common.{
  false, inr, true, inl, ap, ◌≢◌, ◌∙◌, lt-or-le, zero, suc, refl, ◌<◌, ◌^◌, arith, ◌≡◌, IsByte, ◌*◌,
  length, All, ℕ, Bytes, [], ◌∷◌, replicate, ltb, if◌then◌else◌, ◌+◌, ◌%◌,
}

abbrev pub nonce_len : ℕ
nonce_len = 12

-- `IncreasingSequence::new`.
abbrev pub first_nonce : Bytes
first_nonce = replicate nonce_len 0

-- `advance`: the nonce itself is what it returns, and this is the one that it leaves.
unfoldable pub advance : Bytes → Bytes
advance [] = []
advance (x ∷ xs) =
    let rest = advance xs in let y = (x + 1) % 256 in if ltb 0 y then y ∷ xs else y ∷ rest

-- The nonce as a number.
abbrev pub value : Bytes → ℕ
value [] = 0
value (x ∷ xs) = x + 256 * value xs

advance-All : (xs : Bytes) → All IsByte xs → All IsByte (advance xs)
unfolding advance
advance-All [] h = tt
advance-All (x ∷ xs) h = ground (arith, advance-All xs h.1)

length-advance : (xs : Bytes) → length (advance xs) ≡ length xs
unfolding advance
length-advance [] = refl
length-advance (x ∷ xs) = ground (arith, length-advance xs)

-- Below its last value the number goes up by one.
value-advance :
    (xs : Bytes)
    → All IsByte xs
    → value xs + 1 < 256 ^ length xs
    → value (advance xs) ≡ value xs + 1
unfolding advance
value-advance [] h l = absurd (omega arith)
value-advance (x ∷ xs) h l = elim (lt-or-le x 255) [
  | inl below ↦
      let same : (x + 1) % 256 ≡ x + 1 = omega arith in
      let some_digit : ltb 0 ((x + 1) % 256) ≡ true = ground arith in
      rw (some_digit, if◌then◌else◌) (omega arith)
  | inr last ↦
      let carry : (x + 1) % 256 ≡ 0 = omega (arith, h.0) in
      let no_digit : ltb 0 ((x + 1) % 256) ≡ false = ground arith in
      let rest = value-advance xs h.1 (omega (arith, pow-suc 256 (length xs), h.0)) in
      rw (no_digit, if◌then◌else◌) (omega (arith, rest, h.0))
]

-- The nonce after so many calls of `advance`.
abbrev pub nth_nonce : ℕ → Bytes
nth_nonce zero = first_nonce
nth_nonce (suc n) = advance (nth_nonce n)

nth_nonce-All : (n : ℕ) → All IsByte (nth_nonce n) × (length (nth_nonce n) ≡ 12)
nth_nonce-All zero = omega arith
nth_nonce-All (suc n) =
    let (bytes, size) = nth_nonce-All n in
    (advance-All (nth_nonce n) bytes, length-advance (nth_nonce n) ∙ size)

value-nth_nonce : (n : ℕ) → n < 256 ^ 12 → value (nth_nonce n) ≡ n
value-nth_nonce zero l = refl
value-nth_nonce (suc n) l =
    let (bytes, size) = nth_nonce-All n in
    let before = value-nth_nonce n (omega arith) in
    let fits : value (nth_nonce n) + 1 < 256 ^ length (nth_nonce n) =
      rw (size) (omega (arith, before)) in
    value-advance (nth_nonce n) bytes fits ∙ omega (arith, before)

-- The nonces of a key do not repeat: after different numbers of calls, both below 2^96, the sequence
-- gives different nonces.
pub nth_nonce-distinct : (m n : ℕ) → m < n → n < 2 ^ 96 → nth_nonce m ≢ nth_nonce n
nth_nonce-distinct m n less small same =
    let first = value-nth_nonce m (omega arith) in
    let second = value-nth_nonce n (omega arith) in omega (arith, first, second, ap value same)
