-- ===== src/CopyBuffer/Copy.antt =====
-- Reading into the circular buffer of `src/copy_bidirectional.rs`.
use shoes_on_shuttle.Common.{
  splice, ap, ◌==◌, ◌∙◌, Bool-cases, if◌then◌else◌, lt-or-le, ◌++◌, ◌⊎◌, arith, ◌-◌, ◌≡◌, ◌%◌,
  get_or, ◌+◌, ◌≤◌, length, ◌<◌, inl, inr,
}
use shoes_on_shuttle.CopyBuffer.{read_ready, unused_start_index, ℕ, Bytes, CopyBuffer, room}
use shoes_on_shuttle.CopyBuffer.Queue.{
  ring_bytes, queue, IsValid, ring_bytes_same, ring_bytes_list, ring_bytes-append,
}
use shoes_on_shuttle.Common.Splice.{
  wrap_above, wrap_below, get_or-splice_before, get_or-splice_after, get_or-splice_inside,
  length-splice,
}

-- Where the unused part starts, and how long it is, before and after the data has run over the end.
unused_cases :
    (b : CopyBuffer)
    → IsValid b
    → b.cache_length < b.size
    → let last = b.start_index + b.cache_length in
      ((last < b.size) × (unused_start_index b ≡ last) × (room b ≡ b.size - last))
      ⊎ ((b.size ≤ last)
          × (unused_start_index b ≡ last - b.size)
          × (room b ≡ b.start_index + b.size - last))
unfolding room
unused_cases b v h = elim (lt-or-le (b.start_index + b.cache_length) b.size) [
  | inr over ↦
      let at =
        wrap_above (b.start_index + b.cache_length) b.size over (omega (arith, v.start_in)) in
      inr (over, at, ground (arith, at, v.start_in))
  | inl below ↦
      let at = wrap_below (b.start_index + b.cache_length) b.size below in
      inl (below, at, ground (arith, at))
]

module _ (b : CopyBuffer) (bytes : Bytes) (v : IsValid b) (free : b.cache_length < b.size)
    (fit : length bytes ≤ room b) where
  abbrev filled : Bytes
  filled = splice b.buf (unused_start_index b) bytes

  inside : unused_start_index b + length bytes ≤ length b.buf
  inside = elim (unused_cases b v free) [
    | inl (below, at, size) ↦ omega (arith, v.whole, v.start_in)
    | inr (over, at, size) ↦ omega (arith, v.whole, v.start_in)
  ]

  kept :
      (j : ℕ)
      → b.start_index ≤ j
      → j < b.start_index + b.cache_length
      → get_or filled (j % b.size) 0 ≡ get_or b.buf (j % b.size) 0
  kept j above below = elim (unused_cases b v free) [
    | inl (low, at, size) ↦
        get_or-splice_before b.buf bytes (unused_start_index b) (j % b.size) inside
          (omega (arith, wrap_below j b.size (omega arith)))
    | inr (over, at, size) ↦ elim (lt-or-le j b.size) [
      | inr past ↦
          get_or-splice_before b.buf bytes (unused_start_index b) (j % b.size) inside
            (omega (arith, wrap_above j b.size past (omega (arith, v.start_in)), v.start_in))
      | inl before ↦
          get_or-splice_after b.buf bytes (unused_start_index b) (j % b.size) inside
            (omega (arith, wrap_below j b.size before, v.start_in))
    ]
  ]

  added :
      (k : ℕ)
      → k < length bytes
      → get_or filled ((b.start_index + b.cache_length + k) % b.size) 0 ≡ get_or bytes k 0
  added k below =
      let i = b.start_index + b.cache_length + k in
      get_or-splice_inside b.buf bytes (unused_start_index b) (i % b.size) inside k below
        (elim (unused_cases b v free) [
          | inl (low, at, size) ↦ omega (arith, wrap_below i b.size (omega arith))
          | inr (over, at, size) ↦
              omega (arith, wrap_above i b.size (omega arith) (omega (arith, v.start_in)))
        ])

  queue_grown :
      ring_bytes filled b.size b.start_index (b.cache_length + length bytes) ≡ queue b ++ bytes
  queue_grown =
      let s = b.start_index in
      let c = b.cache_length in
      let old = ring_bytes_same b.buf b.size filled s c kept in
      let new_ones = ring_bytes_list filled b.size (s + c) bytes added in
      ring_bytes-append filled b.size s c (length bytes) ∙ cc (old, new_ones)

  size_fits : b.cache_length + length bytes ≤ b.size
  size_fits = elim (unused_cases b v free) [
    | inl (low, at, size) ↦ omega (arith, v.start_in)
    | inr (over, at, size) ↦ omega (arith, v.start_in)
  ]

  whole_filled : length filled ≡ b.size
  whole_filled = length-splice b.buf bytes (unused_start_index b) inside ∙ v.whole

-- With room left, and no more bytes than the room, reading appends the bytes to the queue, and keeps the
-- buffer valid.
pub read_ready-queue :
    (b : CopyBuffer) (bytes : Bytes)
    → IsValid b
    → b.cache_length < b.size
    → length bytes ≤ room b
    → IsValid (read_ready bytes b) × (queue (read_ready bytes b) ≡ queue b ++ bytes)
unfolding read_ready
read_ready-queue b bytes v free fit = elim (Bool-cases (length bytes == 0)) [
  | inl none_came ↦
      let zero_more : b.cache_length ≡ b.cache_length + length bytes = ground arith in
      (
        rw (none_came, if◌then◌else◌)
            (record {
              positive = v.positive;
              whole = whole_filled b bytes v free fit;
              start_in = v.start_in;
              fits = v.fits;
            }),
        rw (none_came, if◌then◌else◌)
            (ap (λ (n : ℕ). ring_bytes (filled b bytes v free fit) b.size b.start_index n) zero_more
              ∙ queue_grown b bytes v free fit),
      )
  | inr some_came ↦ (
    rw (some_came, if◌then◌else◌)
        (record {
          positive = v.positive;
          whole = whole_filled b bytes v free fit;
          start_in = v.start_in;
          fits = size_fits b bytes v free fit;
        }),
    rw (some_came, if◌then◌else◌) (queue_grown b bytes v free fit),
  )
]
