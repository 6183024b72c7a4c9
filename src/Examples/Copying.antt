-- ===== src/Examples/Copying.antt =====
-- The theorems on `src/copy_bidirectional.rs` at concrete inputs: a buffer of four bytes.
use shoes_on_shuttle.Common.{◌≤◌, ◌≡◌, [], ◌∷◌, ◌++◌, false, true, refl, arith, length, take}
use shoes_on_shuttle.CopyBuffer.{CopyBuffer, new, room, read_ready, offered, write_ready}
use shoes_on_shuttle.CopyBuffer.Queue.{IsValid, queue}
use shoes_on_shuttle.CopyBuffer.Copies.{Copied, Copied-queue}

-- Two bytes, of which the second one has run over the end.
abbrev wrapped : CopyBuffer
wrapped = record {
  read_done = false;
  need_flush = true;
  need_write_ping = false;
  start_index = 3;
  cache_length = 2;
  size = 4;
  buf = 8 ∷ 0 ∷ 0 ∷ 7 ∷ [];
}

wrapped-IsValid : IsValid wrapped
wrapped-IsValid = record {
  positive = omega arith;
  whole = refl;
  start_in = omega arith;
  fits = omega arith;
}

wrapped-room : 2 ≤ room wrapped
unfolding room
wrapped-room = omega arith

abbrev empty : CopyBuffer
empty = record {
  read_done = false;
  need_flush = true;
  need_write_ping = false;
  start_index = 0;
  cache_length = 0;
  size = 4;
  buf = 0 ∷ 0 ∷ 0 ∷ 0 ∷ [];
}

empty-Copied : Copied [] [] empty
unfolding new
empty-Copied = Copied.created (0 ∷ 0 ∷ 0 ∷ 0 ∷ []) 4 true refl (omega arith)

empty-room : 3 ≤ room empty
unfolding room
empty-room = omega arith

three_offered : 2 ≤ length (offered (read_ready (1 ∷ 2 ∷ 3 ∷ []) empty))
unfolding offered read_ready
three_offered = omega arith

-- Three bytes read, and two of them written.
Copied-queue_example :
    let full = read_ready (1 ∷ 2 ∷ 3 ∷ []) empty in
    IsValid (write_ready 2 full)
    × (1 ∷ 2 ∷ 3 ∷ [] ≡ take 2 (offered full) ++ queue (write_ready 2 full))
Copied-queue_example =
    let full = read_ready (1 ∷ 2 ∷ 3 ∷ []) empty in
    Copied-queue (1 ∷ 2 ∷ 3 ∷ []) (take 2 (offered full)) (write_ready 2 full) (
      Copied.write 2 (Copied.read (1 ∷ 2 ∷ 3 ∷ []) empty-Copied refl (omega arith) empty-room)
        (omega arith) three_offered)
