-- ===== src/CopyBuffer.antt =====
-- `CopyBuffer` of `src/copy_bidirectional.rs`: the circular buffer between a reader and a writer. The
-- arms of `poll_copy` that change it are functions of what `poll_read` filled in and of how much
-- `poll_write` took.
pub mod Queue
pub mod Copy
pub mod Drain
pub mod Copies
use shoes_on_shuttle.Common.{
  splice, ℕ, ◌+◌, ◌-◌, ◌%◌, Bytes, [], ◌∷◌, ◌++◌, ◌==◌, ltb, Bool, true, false, min, if◌then◌else◌,
  length, take, drop,
}

pub record CopyBuffer : Type 0 where
  pub read_done : Bool
  pub need_flush : Bool
  pub need_write_ping : Bool
  pub start_index : ℕ
  pub cache_length : ℕ
  pub size : ℕ
  pub buf : Bytes

-- `CopyBuffer::new`; the buffer that `allocate_vec` gives is not initialised.
unfoldable pub new : Bytes → ℕ → Bool → CopyBuffer
new allocated size need_initial_flush = record {
  read_done = false;
  need_flush = need_initial_flush;
  need_write_ping = false;
  start_index = 0;
  cache_length = 0;
  size = size;
  buf = allocated;
}

abbrev pub unused_start_index : CopyBuffer → ℕ
unused_start_index b = (b.start_index + b.cache_length) % b.size

abbrev pub unused_end_index_exclusive : CopyBuffer → ℕ
unused_end_index_exclusive b =
    if ltb (unused_start_index b) b.start_index then b.start_index else b.size

-- How much room `poll_read` is given.
unfoldable pub room : CopyBuffer → ℕ
room b = unused_end_index_exclusive b - unused_start_index b

-- The arm of `poll_read` that is ready with `bytes` in the buffer it was given.
unfoldable pub read_ready : Bytes → CopyBuffer → CopyBuffer
read_ready bytes b =
    let filled = record b { buf = splice b.buf (unused_start_index b) bytes } in
    if length bytes == 0
    then record filled { read_done = true }
    else record filled { cache_length = b.cache_length + length bytes }

-- The slice that `poll_write` is given.
unfoldable pub offered : CopyBuffer → Bytes
offered b =
    let used_end_index_exclusive = min (b.start_index + b.cache_length) b.size in
    take (used_end_index_exclusive - b.start_index) (drop b.start_index b.buf)

-- The arm of `poll_write` that took `written` bytes, more than none.
unfoldable pub write_ready : ℕ → CopyBuffer → CopyBuffer
write_ready written b =
    let left = b.cache_length - written in
    let start = if left == 0 then 0 else (b.start_index + written) % b.size in
    record b { cache_length = left; start_index = start; need_flush = true }
