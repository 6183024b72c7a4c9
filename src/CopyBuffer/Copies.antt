-- ===== src/CopyBuffer/Copies.antt =====
-- The reads and writes of `poll_copy` of `src/copy_bidirectional.rs` as steps, in any order in which
-- their conditions hold.
use shoes_on_shuttle.Common.{
  false, zero, suc, sym, ap, ◌∙◌, append_assoc, arith, drop, ◌<◌, take, ◌≡◌, length, Bool, ◌≤◌,
  Bytes, ℕ, [], ◌∷◌, ◌++◌, refl,
}
use shoes_on_shuttle.CopyBuffer.Copy.{read_ready-queue}
use shoes_on_shuttle.CopyBuffer.Drain.{write_ready-queue, offered-queue, length-offered}
use shoes_on_shuttle.CopyBuffer.{write_ready, offered, read_ready, room, CopyBuffer, new}
use shoes_on_shuttle.CopyBuffer.Queue.{queue, IsValid, ring_bytes}

-- A buffer that has taken in the first bytes from the reader and given the second ones to the writer.
pub data Copied : Bytes → Bytes → CopyBuffer → Type 0 where
  created :
      (allocated : Bytes) (size : ℕ) (need_initial_flush : Bool)
      → length allocated ≡ size
      → 0 < size
      → Copied [] [] (new allocated size need_initial_flush)
  read :
      {r w : Bytes} {b : CopyBuffer} (bytes : Bytes)
      → Copied r w b
      → b.read_done ≡ false
      → b.cache_length < b.size
      → length bytes ≤ room b
      → Copied (r ++ bytes) w (read_ready bytes b)
  write :
      {r w : Bytes} {b : CopyBuffer} (written : ℕ)
      → Copied r w b
      → 0 < written
      → written ≤ length (offered b)
      → Copied r (w ++ take written (offered b)) (write_ready written b)

take-append-drop_front :
    (n : ℕ) (xs ys : Bytes) → n ≤ length xs → take n xs ++ drop n (xs ++ ys) ≡ xs ++ ys
take-append-drop_front zero xs ys h = refl
take-append-drop_front (suc n) [] ys h = absurd (omega arith)
take-append-drop_front (suc n) (x ∷ xs) ys h =
    ap (◌∷◌ x) (take-append-drop_front n xs ys (omega arith))

offered_fits : (b : CopyBuffer) → IsValid b → {n : ℕ} → n ≤ length (offered b) → n ≤ b.cache_length
offered_fits b v few = omega (arith, length-offered b v)

-- Nothing is lost, repeated or reordered: after any reads into a new buffer while its reader is not done
-- and it is not full, and any writes out of what it offers, the buffer is valid, and what was
-- read is what was written followed by what the buffer holds.
pub Copied-queue : (r w : Bytes) (b : CopyBuffer) → Copied r w b → IsValid b × (r ≡ w ++ queue b)
unfolding new ring_bytes
Copied-queue r w b (Copied.created allocated size flush e n) =
    (record { positive = n; whole = e; start_in = n; fits = omega arith }, refl)
Copied-queue r w b (Copied.read {r = r'} {b = b'} bytes copied open_end free fit) =
    let (valid, same) = Copied-queue r' w b' copied in
    let (valid', grown) = read_ready-queue b' bytes valid free fit in
    (
      valid',
      ap (λ (t : Bytes). t ++ bytes) same
          ∙ append_assoc w (queue b') bytes
          ∙ sym (ap (λ (t : Bytes). w ++ t) grown),
    )
Copied-queue r w b (Copied.write {w = w'} {b = b'} written copied some_written few) =
    let (valid, same) = Copied-queue r w' b' copied in
    let (rest, split, _) = offered-queue b' valid in
    let (valid', left) = write_ready-queue b' written valid (offered_fits b' valid few) in
    let front = take written (offered b') in
    let parts =
      ap (λ (t : Bytes). front ++ drop written t) split
      ∙ take-append-drop_front written (offered b') rest few
      ∙ sym split in
    (
      valid',
      same
          ∙ sym (ap (λ (t : Bytes). w' ++ t) parts)
          ∙ sym (append_assoc w' front (drop written (queue b')))
          ∙ sym (ap (λ (t : Bytes). (w' ++ front) ++ t) left),
    )
