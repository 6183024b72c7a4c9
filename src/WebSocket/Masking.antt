-- ===== src/WebSocket/Masking.antt =====
-- Masks of `src/websocket/websocket_stream.rs` and the buffer in which content is unmasked.
use shoes_on_shuttle.Common.{
  ℕ, Bool, true, false, Bytes, [], ◌∷◌, ◌∙◌, ap, refl, arith, length, ◌≡◌, ◌+◌, get_or, ◌%◌,
}
use shoes_on_shuttle.WebSocket.Frame.{apply_mask}
use shoes_on_shuttle.Common.Xor.{bit_xor_twice}

pub length-apply_mask :
    (mask : Bytes) (offset : ℕ) (xs : Bytes) → length (apply_mask mask offset xs) ≡ length xs
unfolding apply_mask
length-apply_mask mask offset [] = refl
length-apply_mask mask offset (x ∷ xs) = omega (arith, length-apply_mask mask (offset + 1) xs)

-- Unmasking undoes masking.
pub apply_mask_twice :
    (mask : Bytes) (offset : ℕ) (xs : Bytes)
    → apply_mask mask offset (apply_mask mask offset xs) ≡ xs
unfolding apply_mask
apply_mask_twice mask offset [] = refl
apply_mask_twice mask offset (x ∷ xs) =
    ap (λ (y : ℕ). y ∷ apply_mask mask (offset + 1) (apply_mask mask (offset + 1) xs))
      (bit_xor_twice x (get_or mask (offset % 4) 0))
    ∙ ap (◌∷◌ x) (apply_mask_twice mask (offset + 1) xs)

-- Content as the frame carries it, with the mask `key` if it is masked.
abbrev pub scrambled : Bool → Bytes → Bytes → Bytes
scrambled true key payload = apply_mask key 0 payload
scrambled false key payload = payload

pub length-scrambled :
    (masked : Bool) (key payload : Bytes) → length (scrambled masked key payload) ≡ length payload
length-scrambled true key payload = length-apply_mask key 0 payload
length-scrambled false key payload = refl
