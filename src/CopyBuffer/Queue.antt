-- ===== src/CopyBuffer/Queue.antt =====
-- The circular buffer of `src/copy_bidirectional.rs` seen as a queue of bytes.
use shoes_on_shuttle.CopyBuffer.{CopyBuffer}
use native.Mathlib.Nat.{mul-add-mod_self_right}
use shoes_on_shuttle.Common.{
  get_or, length, ◌%◌, ◌≡◌, ◌<◌, ◌≤◌, ◌+◌, Bytes, ℕ, zero, suc, [], ◌∷◌, ◌++◌, arith, refl, ap, ◌∙◌,
}

pub record IsValid (b : CopyBuffer) : Type 0 where
  pub positive : 0 < b.size
  pub whole : length b.buf ≡ b.size
  pub start_in : b.start_index < b.size
  pub fits : b.cache_length ≤ b.size

-- The bytes of a ring from a position on, which counts on beyond the end.
unfoldable pub ring_bytes : Bytes → ℕ → ℕ → ℕ → Bytes
ring_bytes buf size i zero = []
ring_bytes buf size i (suc n) = get_or buf (i % size) 0 ∷ ring_bytes buf size (i + 1) n

-- What was read and is not written yet, in order.
abbrev pub queue : CopyBuffer → Bytes
queue b = ring_bytes b.buf b.size b.start_index b.cache_length

module _ (buf : Bytes) (size : ℕ) where
  pub ring_bytes_same :
      (buf' : Bytes) (i n : ℕ)
      → ((j : ℕ) → i ≤ j → j < i + n → get_or buf' (j % size) 0 ≡ get_or buf (j % size) 0)
      → ring_bytes buf' size i n ≡ ring_bytes buf size i n
  unfolding ring_bytes
  ring_bytes_same buf' i zero h = refl
  ring_bytes_same buf' i (suc n) h =
      let first = h i (omega arith) (omega arith) in
      let rest =
        ring_bytes_same buf' (i + 1) n (λ j above below. h j (omega arith) (omega arith)) in
      cc (first, rest)

  pub ring_bytes-append :
      (i m n : ℕ)
      → ring_bytes buf size i (m + n) ≡ ring_bytes buf size i m ++ ring_bytes buf size (i + m) n
  unfolding ring_bytes
  ring_bytes-append i zero n =
      let same : 0 + n ≡ n = omega arith in
      let here : i ≡ i + 0 = omega arith in
      ap (λ (l : ℕ). ring_bytes buf size i l) same ∙ ap (λ (j : ℕ). ring_bytes buf size j n) here
  ring_bytes-append i (suc m) n =
      let longer : suc m + n ≡ suc (m + n) = omega arith in
      let later : i + 1 + m ≡ i + suc m = omega arith in
      ap (λ (l : ℕ). ring_bytes buf size i l) longer
      ∙ ap (◌∷◌ (get_or buf (i % size) 0)) (
          ring_bytes-append (i + 1) m n
          ∙ ap (λ (j : ℕ). ring_bytes buf size (i + 1) m ++ ring_bytes buf size j n) later)

  pub ring_bytes_list :
      (i : ℕ) (bytes : Bytes)
      → ((k : ℕ) → k < length bytes → get_or buf ((i + k) % size) 0 ≡ get_or bytes k 0)
      → ring_bytes buf size i (length bytes) ≡ bytes
  unfolding ring_bytes
  ring_bytes_list i [] h = refl
  ring_bytes_list i (x ∷ bytes) h =
      let first : get_or buf (i % size) 0 ≡ x =
        ap (λ (j : ℕ). get_or buf (j % size) 0) (omega arith) ∙ h 0 (omega arith) in
      let rest = ring_bytes_list (i + 1) bytes (λ k below.
        ap (λ (j : ℕ). get_or buf (j % size) 0) (omega arith) ∙ h (suc k) (omega arith)) in
      cc (first, rest)

  pub length-ring_bytes : (i n : ℕ) → length (ring_bytes buf size i n) ≡ n
  unfolding ring_bytes
  length-ring_bytes i zero = refl
  length-ring_bytes i (suc n) = omega (arith, length-ring_bytes (i + 1) n)

  pub ring_bytes_round : (i n : ℕ) → ring_bytes buf size (size + i) n ≡ ring_bytes buf size i n
  unfolding ring_bytes
  ring_bytes_round i zero = refl
  ring_bytes_round i (suc n) =
      let first : (size + i) % size ≡ i % size =
        ap (λ (j : ℕ). j % size) (omega arith) ∙ mul-add-mod_self_right 1 size i in
      let rest : ring_bytes buf size (size + i + 1) n ≡ ring_bytes buf size (i + 1) n =
        ap (λ (j : ℕ). ring_bytes buf size j n) (omega arith) ∙ ring_bytes_round (i + 1) n in
      cc (first, rest)
