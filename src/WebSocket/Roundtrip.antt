-- ===== src/WebSocket/Roundtrip.antt =====
-- Whole data frames through `pack_frame` and `step_init` of `src/websocket/websocket_stream.rs`.
use shoes_on_shuttle.Common.Holds.{Holds-get_or, Holds-length}
use mathlib.Core.Path.{subst}
use shoes_on_shuttle.Common.{
  length-append, append-nil, [], ◌∷◌, append_assoc, ℕ, zero, suc, true, false, Option, List, Bytes,
  ◌++◌, ◌∙◌, sym, ap, refl, arith, length, ◌≡◌, ◌+◌, ◌≤◌, ◌<◌, if◌then◌else◌, ltb,
}
use shoes_on_shuttle.WebSocket.Ahead.{Ahead, advance-Ahead}
use shoes_on_shuttle.WebSocket.Types.{unprocessed_len, advance}
use shoes_on_shuttle.WebSocket.Frame.{pack_frame, masked, mask_bytes, mask_bit, length_fields}
use shoes_on_shuttle.WebSocket.Content.{Reading, done, with_ws, byte_ahead}
use shoes_on_shuttle.WebSocket.Decode.{step_init, start_frame}
use shoes_on_shuttle.WebSocket.Taken.{GoesOn, Between}
use shoes_on_shuttle.WebSocket.Heads.{Key}
use shoes_on_shuttle.WebSocket.Decoded.{start_frame-all}

pack_frame-parts :
    (key : Option Bytes) (payload rest : Bytes)
    → pack_frame 2 key payload ++ rest
      ≡ 130
        ∷ ((length_fields (length payload)).0 + mask_bit key)
        ∷ ((length_fields (length payload)).1 ++ (mask_bytes key ++ (masked key payload ++ rest)))
unfolding pack_frame
pack_frame-parts key payload rest =
    let (second, size) = length_fields (length payload) in
    ap (λ (xs : Bytes). 130 ∷ (second + mask_bit key) ∷ xs)
      (append_assoc size (mask_bytes key ++ masked key payload) rest
        ∙ ap (◌++◌ size) (append_assoc (mask_bytes key) (masked key payload) rest))

two_next :
    (fuel : ℕ) (r : Reading) (first second : ℕ) (rest : Bytes)
    → Ahead r.ws (first ∷ second ∷ rest)
    → step_init (suc fuel) r ≡ start_frame (step_init fuel) first second (with_ws (advance 2) r)
unfolding step_init
two_next fuel r first second rest h =
    let buf = r.ws.unprocessed_buf in
    let start = r.ws.unprocessed_start_offset in
    let end = r.ws.unprocessed_end_offset in
    let size = Holds-length buf start end (first ∷ second ∷ rest) h in
    let enough : ltb (unprocessed_len r.ws) 2 ≡ false = ground (arith, size) in
    let at_0 : byte_ahead r.ws 0 ≡ first =
      Holds-get_or buf start end (first ∷ second ∷ rest) h 0 (omega arith) in
    let at_1 : byte_ahead r.ws 1 ≡ second =
      Holds-get_or buf start end (first ∷ second ∷ rest) h 1 (omega arith) in
    rw (enough, if◌then◌else◌)
      (ap (λ (a : ℕ). start_frame (step_init fuel) a (byte_ahead r.ws 1) (with_ws (advance 2) r))
          at_0
        ∙ ap (λ (b : ℕ). start_frame (step_init fuel) first b (with_ws (advance 2) r)) at_1)

module _ (fuel : ℕ) (r : Reading) (key : Option Bytes) (payload rest filled : Bytes)
    (capacity : ℕ) where
  frame_taken :
      Key key
      → length payload ≤ 0x7fffffffffffffff
      → length filled + length payload ≤ capacity
      → Between r (pack_frame 2 key payload ++ rest) filled capacity
      → GoesOn (step_init fuel) (step_init (suc fuel) r) rest (filled ++ payload) capacity
  unfolding advance
  frame_taken k small fits h =
      let size = length_fields (length payload) in
      let second = size.0 + mask_bit key in
      let behind = size.1 ++ (mask_bytes key ++ (masked key payload ++ rest)) in
      let here : Ahead r.ws (130 ∷ second ∷ behind) =
        subst (λ (xs : Bytes). Ahead r.ws xs) (pack_frame-parts key payload rest) h.ahead in
      let taken =
        start_frame-all (step_init fuel) key payload rest k small (with_ws (advance 2) r) second
          refl h.offset (advance-Ahead 2 r.ws (130 ∷ second ∷ behind) here (omega arith))
          (omega (arith, ap length h.filled_so_far, h.same_capacity, fits)) in
      record {
        next = taken.next;
        goes = two_next fuel r 130 second behind here ∙ taken.goes;
        between = record {
          ahead = taken.between.ahead;
          offset = taken.between.offset;
          filled_so_far =
              taken.between.filled_so_far ∙ ap (λ (b : Bytes). b ++ payload) h.filled_so_far;
          same_capacity = taken.between.same_capacity ∙ h.same_capacity;
        };
      }

-- Binary data frames, each with its mask and its payload.
abbrev pub Frames : Type 0
Frames = List (Option Bytes × Bytes)

abbrev pub packed : Frames → Bytes
packed [] = []
packed ((key, payload) ∷ frames) = pack_frame 2 key payload ++ packed frames

abbrev pub payloads : Frames → Bytes
payloads [] = []
payloads ((key, payload) ∷ frames) = payload ++ payloads frames

-- Masks of four bytes, and payloads no longer than a frame can carry.
abbrev pub AreFrames : Frames → Type 0
AreFrames [] = Unit
AreFrames ((key, payload) ∷ frames) =
    Key key × (length payload ≤ 0x7fffffffffffffff) × AreFrames frames

none_next : (fuel : ℕ) (r : Reading) → Ahead r.ws [] → step_init (suc fuel) r ≡ done r
unfolding step_init
none_next fuel r h =
    let size =
      Holds-length r.ws.unprocessed_buf r.ws.unprocessed_start_offset r.ws.unprocessed_end_offset []
        h in
    let short : ltb (unprocessed_len r.ws) 2 ≡ true = ground (arith, size) in
    rw (short, if◌then◌else◌) refl

-- Reading binary data frames, of opcode 2, that `pack_frame` has packed, one behind the other, appends
-- their payloads, in their order, to what the caller has, and leaves nothing unprocessed. Conditions:
-- the reading stands between two frames and has nothing but these frames unprocessed, each mask is of
-- four bytes where a frame has one, no payload is longer than 2^63 - 1, the caller has room for all
-- payloads, and the fuel is above the number of frames.
pub step_init-packed :
    (frames : Frames) (fuel : ℕ) (r : Reading) (filled : Bytes) (capacity : ℕ)
    → AreFrames frames
    → length frames < fuel
    → length filled + length (payloads frames) ≤ capacity
    → Between r (packed frames) filled capacity
    → GoesOn done (step_init fuel r) [] (filled ++ payloads frames) capacity
step_init-packed frames zero r filled capacity valid enough fits h = absurd (omega arith)
step_init-packed [] (suc fuel) r filled capacity valid enough fits h = record {
  next = r;
  goes = none_next fuel r h.ahead;
  between = record {
    ahead = h.ahead;
    offset = h.offset;
    filled_so_far = h.filled_so_far ∙ sym (append-nil filled);
    same_capacity = h.same_capacity;
  };
}
step_init-packed ((key, payload) ∷ frames) (suc fuel) r filled capacity (k, small, valid) enough
      fits h =
    let size = length-append payload (payloads frames) in
    let first =
      frame_taken fuel r key payload (packed frames) filled capacity k small
        (omega (arith, size, fits)) h in
    let others =
      step_init-packed frames fuel first.next (filled ++ payload) capacity valid (omega arith)
        (omega (arith, size, fits, length-append filled payload)) first.between in
    record {
      next = others.next;
      goes = first.goes ∙ others.goes;
      between = record {
        ahead = others.between.ahead;
        offset = others.between.offset;
        filled_so_far =
            others.between.filled_so_far ∙ append_assoc filled payload (payloads frames);
        same_capacity = others.between.same_capacity;
      };
    }
