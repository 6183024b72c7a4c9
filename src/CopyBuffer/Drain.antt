-- ===== src/CopyBuffer/Drain.antt =====
-- Writing out of the circular buffer of `src/copy_bidirectional.rs`.
use shoes_on_shuttle.CopyBuffer.{offered, CopyBuffer, write_ready}
use shoes_on_shuttle.Common.{
  length-drop, length-take, ◌++◌, arith, refl, ◌-◌, ◌%◌, ◌≡◌, ◌+◌, drop, length, ◌<◌, min, ◌≤◌,
  Bytes, ℕ, drop_front, if◌then◌else◌, ◌==◌, lt-or-le, Bool-cases, inl, inr, get_or, ap, ◌∙◌, sym,
}
use mathlib.Core.Logic.{◌↔◌}
use shoes_on_shuttle.CopyBuffer.Queue.{
  queue, ring_bytes, IsValid, ring_bytes_list, ring_bytes-append, ring_bytes_round,
  length-ring_bytes,
}
use shoes_on_shuttle.Common.Splice.{get_or-take, get_or-drop, wrap_above, wrap_below}

module _ (b : CopyBuffer) (v : IsValid b) where
  -- How many bytes the writer is offered.
  abbrev span : ℕ
  span = min (b.start_index + b.cache_length) b.size - b.start_index

  pub length-offered : length (offered b) ≡ span
  unfolding offered
  length-offered = omega (
    arith,
    v.whole,
    v.start_in,
    length-take span (drop b.start_index b.buf),
    length-drop b.start_index b.buf,
  )

  at_offered : (k : ℕ) → k < span → get_or (offered b) k 0 ≡ get_or b.buf (b.start_index + k) 0
  unfolding offered
  at_offered k below =
      get_or-take span k (drop b.start_index b.buf) below
      ∙ get_or-drop b.start_index (b.start_index + k) k b.buf refl

  offered_front : ring_bytes b.buf b.size b.start_index (length (offered b)) ≡ offered b
  offered_front = ring_bytes_list b.buf b.size b.start_index (offered b) (λ k below.
      let i = b.start_index + k in
      let low : i < b.size = omega (arith, length-offered, v.start_in) in
      ap (λ (j : ℕ). get_or b.buf j 0) (wrap_below i b.size low)
      ∙ sym (at_offered k (omega (arith, length-offered))))

  queue_split :
      (n : ℕ)
      → n ≤ b.cache_length
      → queue b
        ≡ ring_bytes b.buf b.size b.start_index n
          ++ ring_bytes b.buf b.size (b.start_index + n) (b.cache_length - n)
  queue_split n h =
      let whole : b.cache_length ≡ n + (b.cache_length - n) = omega arith in
      ap (λ (c : ℕ). ring_bytes b.buf b.size b.start_index c) whole
      ∙ ring_bytes-append b.buf b.size b.start_index n (b.cache_length - n)

  queue_left :
      (n : ℕ)
      → n ≤ b.cache_length
      → drop n (queue b) ≡ ring_bytes b.buf b.size (b.start_index + n) (b.cache_length - n)
  queue_left n h =
      let front = ring_bytes b.buf b.size b.start_index n in
      let size = length-ring_bytes b.buf b.size b.start_index n in
      ap (drop n) (queue_split n h) ∙ drop_front n front _ (sym size)

  start_wraps :
      (n k : ℕ)
      → n ≤ b.cache_length
      → ring_bytes b.buf b.size ((b.start_index + n) % b.size) k
        ≡ ring_bytes b.buf b.size (b.start_index + n) k
  start_wraps n k h = elim (lt-or-le (b.start_index + n) b.size) [
    | inl low ↦
        ap (λ (i : ℕ). ring_bytes b.buf b.size i k) (wrap_below (b.start_index + n) b.size low)
    | inr over ↦
        let i = b.start_index + n in
        let at = wrap_above i b.size over (omega (arith, v.start_in, v.fits)) in
        let round : b.size + (i - b.size) ≡ i = omega arith in
        ap (λ (j : ℕ). ring_bytes b.buf b.size j k) at
        ∙ sym (ring_bytes_round b.buf b.size (i - b.size) k)
        ∙ ap (λ (j : ℕ). ring_bytes b.buf b.size j k) round
  ]

-- What the writer is offered stands at the front of a valid queue, and is empty only if the queue is.
pub offered-queue :
    (b : CopyBuffer)
    → IsValid b
    → (rest : Bytes) × (queue b ≡ offered b ++ rest)
      × ((length (offered b) ≡ 0) ↔ (b.cache_length ≡ 0))
offered-queue b v =
    let n = length (offered b) in
    let small : n ≤ b.cache_length = omega (arith, length-offered b v) in
    (
      _,
      queue_split b v n small
          ∙ ap
              (λ (front : Bytes).
                front ++ ring_bytes b.buf b.size (b.start_index + n) (b.cache_length - n))
              (offered_front b v),
      (λ e. omega (arith, length-offered b v, v.start_in), λ e. omega (arith, length-offered b v)),
    )

-- When the writer takes some of a valid queue, those bytes leave its front, and the buffer stays
-- valid.
pub write_ready-queue :
    (b : CopyBuffer) (written : ℕ)
    → IsValid b
    → written ≤ b.cache_length
    → IsValid (write_ready written b) × (queue (write_ready written b) ≡ drop written (queue b))
unfolding write_ready ring_bytes
write_ready-queue b written v h =
    let left = b.cache_length - written in
    elim (Bool-cases (left == 0)) [
      | inl all ↦
          let nothing : left ≡ 0 = ground arith in
          (
            rw (all, if◌then◌else◌)
                (record {
                  positive = v.positive;
                  whole = v.whole;
                  start_in = v.positive;
                  fits = omega (arith, v.fits);
                }),
            rw (all, if◌then◌else◌)
                (ap (ring_bytes b.buf b.size 0) nothing
                  ∙ sym (ap (ring_bytes b.buf b.size (b.start_index + written)) nothing)
                  ∙ sym (queue_left b v written h)),
          )
      | inr some_left ↦ (
        rw (some_left, if◌then◌else◌)
            (record {
              positive = v.positive;
              whole = v.whole;
              start_in = omega (arith, v.positive);
              fits = omega (arith, v.fits);
            }),
        rw (some_left, if◌then◌else◌)
            (start_wraps b v written left h ∙ sym (queue_left b v written h)),
      )
    ]
