-- ===== src/WebSocket/Accept.antt =====
-- The loop of `poll_write` of `src/websocket/websocket_stream.rs`, on whatever the stream below takes.
use shoes_on_shuttle.Common.Holds.{Holds-append, take-nil}
use shoes_on_shuttle.Common.{
  length-drop, length-take, length-append, none, some, [], ◌∷◌, zero, suc, append-nil, append_assoc,
  ℕ, Option, Bytes, ◌++◌, ◌∙◌, sym, ap, refl, arith, drop, take, length, ◌≡◌, ◌+◌, ◌-◌, ◌≤◌, ◌<◌,
  if◌then◌else◌, min, inl, inr, Bool-cases,
}
use shoes_on_shuttle.Common.Splice.{length-splice}
use mathlib.Core.Path.{subst}
use shoes_on_shuttle.WebSocket.Types.{WebsocketStream}
use shoes_on_shuttle.WebSocket.Masking.{length-apply_mask}
use shoes_on_shuttle.WebSocket.Frame.{pack_frame, mask_bytes, length_fields, masked}
use shoes_on_shuttle.WebSocket.Encode.{drawn_mask, append_frame, available_space}
use shoes_on_shuttle.WebSocket.Outbox.{Outgoing}
use shoes_on_shuttle.WebSocket.Heads.{Key}
use shoes_on_shuttle.WebSocket.Roundtrip.{Frames, AreFrames, packed, payloads}

length-masked : (key : Option Bytes) (input : Bytes) → length (masked key input) ≡ length input
length-masked none input = refl
length-masked (some key) input = length-apply_mask key 0 input

length-mask_bytes : (key : Option Bytes) → Key key → length (mask_bytes key) ≤ 4
length-mask_bytes none k = omega arith
length-mask_bytes (some key) k = omega (arith, k)

length-length_fields :
    (n : ℕ) → (length (length_fields n).1 ≤ 8) × (n < 126 → length (length_fields n).1 ≡ 0)
length-length_fields n = (ground arith, λ below. ground (arith, below))

-- A frame takes at most 14 bytes beside its input, and a frame without input at most 6, if the mask,
-- where there is one, is of four bytes.
pub length-pack_frame :
    (opcode : ℕ) (key : Option Bytes) (input : Bytes)
    → Key key
    → (length (pack_frame opcode key input) ≤ length input + 14)
      × (length (pack_frame opcode key []) ≤ 6)
unfolding pack_frame
length-pack_frame opcode key input k =
    let size = (length_fields (length input)).1 in
    let (eight, _) = length-length_fields (length input) in
    let parts = length-append size (mask_bytes key ++ masked key input) in
    let content = length-append (mask_bytes key) (masked key input) in
    let same = length-masked key input in
    let four = length-mask_bytes key k in
    let empty = length-append (mask_bytes key) (masked key []) in
    let none_masked = length-masked key [] in
    (omega (arith, eight, parts, content, same, four), omega (arith, empty, none_masked, four))

-- The first `written` bytes of `buf` are packed into frames behind `total`.
pub record Accepted (buf total : Bytes) (written : ℕ) (s : WebsocketStream) : Type 0 where
  pub frames : Frames
  pub are_frames : AreFrames frames
  pub taken : payloads frames ≡ take written buf
  pub some_of : written ≤ length buf
  pub outgoing : Outgoing s (total ++ packed frames)

packed-append :
    (frames : Frames) (key : Option Bytes) (input : Bytes)
    → packed (frames ++ ((key, input) ∷ [])) ≡ packed frames ++ pack_frame 2 key input
packed-append [] key input = append-nil (pack_frame 2 key input)
packed-append ((k, x) ∷ frames) key input =
    ap (◌++◌ (pack_frame 2 k x)) (packed-append frames key input)
    ∙ sym (append_assoc (pack_frame 2 k x) (packed frames) (pack_frame 2 key input))

payloads-append :
    (frames : Frames) (key : Option Bytes) (input : Bytes)
    → payloads (frames ++ ((key, input) ∷ [])) ≡ payloads frames ++ input
payloads-append [] key input = append-nil input
payloads-append ((k, x) ∷ frames) key input =
    ap (◌++◌ x) (payloads-append frames key input) ∙ sym (append_assoc x (payloads frames) input)

AreFrames-append :
    (frames : Frames) (key : Option Bytes) (input : Bytes)
    → AreFrames frames
    → Key key
    → length input ≤ 0x7fffffffffffffff
    → AreFrames (frames ++ ((key, input) ∷ []))
AreFrames-append [] key input valid k small = (k, small, tt)
AreFrames-append ((key', x) ∷ frames) key input (k', small', valid) k small =
    (k', small', AreFrames-append frames key input valid k small)

take-take_more : (m n : ℕ) (xs : Bytes) → take m xs ++ take n (drop m xs) ≡ take (m + n) xs
take-take_more zero n xs = let sum : n ≡ 0 + n = omega arith in ap (λ (k : ℕ). take k xs) sum
take-take_more (suc m) n [] = take-nil n ∙ sym (take-nil (suc m + n))
take-take_more (suc m) n (x ∷ xs) =
    let sum : suc (m + n) ≡ suc m + n = omega arith in
    ap (◌∷◌ x) (take-take_more m n xs) ∙ ap (λ (k : ℕ). take k (x ∷ xs)) sum

module _ (rng : ℕ → Bytes) (draws : (n : ℕ) → length (rng n) ≡ 4) where
  pub drawn_mask-Key : (s : WebsocketStream) → Key (drawn_mask rng s)
  drawn_mask-Key s = elim (Bool-cases s.is_client) [
    | inl client ↦ rw (client, if◌then◌else◌) (draws s.draws)
    | inr server ↦ rw (server, if◌then◌else◌) tt
  ]

  pub append_frame-Outgoing :
      (opcode : ℕ) (input : Bytes) (s : WebsocketStream) (total : Bytes)
      → Outgoing s total
      → length (pack_frame opcode (drawn_mask rng s) input) ≤ available_space s
      → 0 < available_space s
      → Outgoing
          (append_frame rng opcode input s)
          (total ++ pack_frame opcode (drawn_mask rng s) input)
  unfolding append_frame
  append_frame-Outgoing opcode input s total o fits some_space =
      let frame = pack_frame opcode (drawn_mask rng s) input in
      let next = s.write_frame_end_offset + length frame in
      let inside : next ≤ length s.write_frame = omega arith in
      record {
        size = length-splice s.write_frame frame s.write_frame_end_offset inside ∙ o.size;
        rest = o.rest ++ frame;
        waiting =
            Holds-append s.write_frame s.write_frame_start_offset s.write_frame_end_offset next
              o.rest frame refl inside o.waiting;
        total_is =
            sym (append_assoc s.stream.sent o.rest frame)
            ∙ ap (λ (b : Bytes). b ++ frame) o.total_is;
      }

  pub packed_more :
      (buf total : Bytes) (written : ℕ) (s : WebsocketStream)
      → Accepted buf total written s
      → 40 ≤ available_space s
      → let n = min (length (drop written buf)) (available_space s - 14) in
        Accepted buf total (written + n) (append_frame rng 0x02 (take n (drop written buf)) s)
  packed_more buf total written s a space =
      let n = min (length (drop written buf)) (available_space s - 14) in
      let input : Bytes = take n (drop written buf) in
      let key = drawn_mask rng s in
      let size : length input ≡ n = omega (arith, length-take n (drop written buf)) in
      let (fits, _) = length-pack_frame 2 key input (drawn_mask-Key s) in
      let small : length input ≤ 0x7fffffffffffffff = omega (arith, size, a.outgoing.size) in
      let moved =
        append_frame-Outgoing 2 input s (total ++ packed a.frames) a.outgoing
          (omega (arith, fits, size)) (omega arith) in
      let behind : (total ++ packed a.frames) ++ pack_frame 2 key input
          ≡ total ++ packed (a.frames ++ ((key, input) ∷ [])) =
        append_assoc total (packed a.frames) (pack_frame 2 key input)
        ∙ ap (◌++◌ total) (sym (packed-append a.frames key input)) in
      record {
        frames = a.frames ++ ((key, input) ∷ []);
        are_frames = AreFrames-append a.frames key input a.are_frames (drawn_mask-Key s) small;
        taken =
            payloads-append a.frames key input
            ∙ ap (λ (b : Bytes). b ++ input) a.taken
            ∙ take-take_more written n buf;
        some_of = omega (arith, a.some_of, length-drop written buf);
        outgoing = subst (λ (b : Bytes). Outgoing (append_frame rng 0x02 input s) b) behind moved;
      }
