-- ===== src/WebSocket/Taken.antt =====
-- `step_read_binary_content` of `src/websocket/websocket_stream.rs` where the whole content has come.
use shoes_on_shuttle.Common.Holds.{Holds-length, Holds-splice, Holds-take}
use mathlib.Core.Path.{subst}
use shoes_on_shuttle.Common.{
  drop_front, take_front, length-append, ℕ, Bool, true, false, Bytes, ◌++◌, ◌∙◌, sym, ap, refl,
  arith, drop, take, length, ◌≡◌, ◌+◌, ◌-◌, ◌≤◌, ◌<◌, ◌==◌, if◌then◌else◌, min,
}
use shoes_on_shuttle.WebSocket.Ahead.{Ahead, advance-Ahead}
use shoes_on_shuttle.WebSocket.Masking.{scrambled, length-scrambled, apply_mask_twice}
use shoes_on_shuttle.WebSocket.Types.{init, unprocessed_len, advance}
use shoes_on_shuttle.WebSocket.Frame.{apply_mask}
use shoes_on_shuttle.WebSocket.Content.{
  Reading, Pull, Pulled, unmasked_content, unmask_in_place, step_read_binary_content,
}

-- Between two frames, with `bytes` to come and `filled` in the buffer of the caller.
pub record Between (r : Reading) (bytes filled : Bytes) (capacity : ℕ) : Type 0 where
  pub ahead : Ahead r.ws bytes
  pub offset : r.ws.read_frame_mask_offset ≡ 0
  pub filled_so_far : r.filled ≡ filled
  pub same_capacity : r.capacity ≡ capacity

-- The reading goes on after a frame.
pub record GoesOn (again : Pull) (p : Pulled) (bytes filled : Bytes) (capacity : ℕ) : Type 0 where
  pub next : Reading
  pub goes : p ≡ again next
  pub between : Between next bytes filled capacity

-- A frame whose head was read: its mask and its content, which is to come.
pub record Headed (r : Reading) (masked : Bool) (key payload rest : Bytes) : Type 0 where
  pub is_masked : r.ws.read_frame_masked ≡ masked
  pub key_is : r.ws.read_frame_mask ≡ key
  pub offset : r.ws.read_frame_mask_offset ≡ 0
  pub whole_length : r.ws.read_frame_length ≡ length payload
  pub ahead : Ahead r.ws (scrambled masked key payload ++ rest)
  pub fits : length r.filled + length payload ≤ r.capacity

module _ (r : Reading) (masked : Bool) (key payload rest : Bytes)
    (h : Headed r masked key payload rest) where
  to_come : length (scrambled masked key payload ++ rest) ≡ length payload + length rest
  to_come = omega (
    arith,
    length-append (scrambled masked key payload) rest,
    length-scrambled masked key payload,
  )

  pub size_ahead : unprocessed_len r.ws ≡ length payload + length rest
  size_ahead =
      Holds-length r.ws.unprocessed_buf r.ws.unprocessed_start_offset r.ws.unprocessed_end_offset
        (scrambled masked key payload ++ rest) h.ahead
      ∙ to_come

  amount :
      min (min (unprocessed_len r.ws) r.ws.read_frame_length) (r.capacity - length r.filled)
      ≡ length payload
  amount = omega (arith, size_ahead, h.whole_length, h.fits)

  content_ahead :
      take (length payload) (drop r.ws.unprocessed_start_offset r.ws.unprocessed_buf)
      ≡ scrambled masked key payload
  content_ahead =
      Holds-take r.ws.unprocessed_buf r.ws.unprocessed_start_offset r.ws.unprocessed_end_offset
        (scrambled masked key payload ++ rest) h.ahead (length payload) (omega (arith, to_come))
      ∙ take_front (length payload) (scrambled masked key payload) rest
          (sym (length-scrambled masked key payload))

  unscrambled :
      (b : Bool)
      → (if b then apply_mask key 0 (scrambled b key payload) else scrambled b key payload)
        ≡ payload
  unscrambled true = apply_mask_twice key 0 payload
  unscrambled false = refl

  content_unmasked : unmasked_content r.ws (length payload) ≡ payload
  content_unmasked =
      ap
        (λ (b : Bytes).
          if r.ws.read_frame_masked
          then apply_mask r.ws.read_frame_mask r.ws.read_frame_mask_offset b
          else b)
        content_ahead
      ∙ ap
          (λ (m : Bool).
            if m
            then apply_mask r.ws.read_frame_mask r.ws.read_frame_mask_offset
                (scrambled masked key payload)
            else scrambled masked key payload)
          h.is_masked
      ∙ ap
          (λ (k : Bytes).
            if masked
            then apply_mask k r.ws.read_frame_mask_offset (scrambled masked key payload)
            else scrambled masked key payload)
          h.key_is
      ∙ ap
          (λ (o : ℕ).
            if masked
            then apply_mask key o (scrambled masked key payload)
            else scrambled masked key payload)
          h.offset
      ∙ unscrambled masked

  pub unmasked : (n : ℕ) → n ≡ length payload → unmasked_content r.ws n ≡ payload
  unmasked n e = ap (λ (k : ℕ). unmasked_content r.ws k) e ∙ content_unmasked

  -- The content stays ahead, unmasked where it stands.
  pub unmask_in_place-Ahead :
      (n : ℕ) → n ≡ length payload → Ahead (unmask_in_place n r.ws) (payload ++ rest)
  unmask_in_place-Ahead n e =
      subst (λ (b : Bytes). Ahead (unmask_in_place n r.ws) (b ++ rest)) (unmasked n e)
        (Holds-splice r.ws.unprocessed_buf r.ws.unprocessed_start_offset r.ws.unprocessed_end_offset
          (scrambled masked key payload) (unmasked_content r.ws n) rest
          (ap length (unmasked n e) ∙ sym (length-scrambled masked key payload)) h.ahead)

  left-Ahead : (n : ℕ) → n ≡ length payload → Ahead (advance n (unmask_in_place n r.ws)) rest
  left-Ahead n e =
      subst (λ (b : Bytes). Ahead (advance n (unmask_in_place n r.ws)) b)
        (drop_front n payload rest e)
        (advance-Ahead n (unmask_in_place n r.ws) (payload ++ rest) (unmask_in_place-Ahead n e)
          (omega (arith, e, length-append payload rest)))

  pub step_read_binary_content-all :
      (again : Pull)
      → 0 < length payload
      → GoesOn again (step_read_binary_content again r) rest (r.filled ++ payload) r.capacity
  unfolding step_read_binary_content advance
  step_read_binary_content-all again some_bytes =
      let space = r.capacity - length r.filled in
      let n = min (min (unprocessed_len r.ws) r.ws.read_frame_length) space in
      let left = r.ws.read_frame_length - n in
      let room : (space == 0) ≡ false = ground (arith, h.fits) in
      let any : (n == 0) ≡ false = ground (arith, amount) in
      let none_left : (left == 0) ≡ true = ground (arith, amount, h.whole_length) in
      record {
        next = record r {
          filled = r.filled ++ unmasked_content r.ws n;
          ws = record (advance n (unmask_in_place n r.ws)) {
            read_frame_length = left;
            read_frame_mask_offset = 0;
            read_state = init;
          };
        };
        goes = rw (room, if◌then◌else◌, any, none_left) refl;
        between = record {
          ahead = left-Ahead n amount;
          offset = refl;
          filled_so_far = ap (◌++◌ r.filled) (unmasked n amount);
          same_capacity = refl;
        };
      }
