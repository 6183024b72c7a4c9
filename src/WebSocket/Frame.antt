-- ===== src/WebSocket/Frame.antt =====
-- `pack_frame` of `src/websocket/websocket_stream.rs`, and the masks of both directions.
use Prim.Native.Nat.{bit_xor}
use shoes_on_shuttle.Common.{
  ℕ, ◌+◌, ◌%◌, Bytes, [], ◌∷◌, ◌++◌, ltb, leb, Option, none, some, if◌then◌else◌, length, get_or,
}
use shoes_on_shuttle.Net.Types.{u64_bytes, to_be_bytes}

-- The bytes combined with the four bytes of the mask in a cycle, from a place in it on.
unfoldable pub apply_mask : Bytes → ℕ → Bytes → Bytes
apply_mask mask offset [] = []
apply_mask mask offset (byte ∷ bytes) =
    bit_xor byte (get_or mask (offset % 4) 0) ∷ apply_mask mask (offset + 1) bytes

-- `output[1]` without the bit of the mask, and the bytes of the size that follow it.
abbrev pub length_fields : ℕ → ℕ × Bytes
length_fields input_len =
    if ltb input_len 126
    then (input_len, [])
    else if leb input_len 65535
    then (0x7e, to_be_bytes input_len)
    else (0x7f, u64_bytes input_len)

abbrev pub mask_bit : Option Bytes → ℕ
mask_bit none = 0
mask_bit (some mask) = 0x80

abbrev pub mask_bytes : Option Bytes → Bytes
mask_bytes none = []
mask_bytes (some mask) = mask

abbrev pub masked : Option Bytes → Bytes → Bytes
masked none input = input
masked (some mask) input = apply_mask mask 0 input

-- What `pack_frame` writes, for the mask that it has drawn, if any. `opcode | 0x80` of an opcode.
unfoldable pub pack_frame : ℕ → Option Bytes → Bytes → Bytes
unfolding apply_mask
pack_frame opcode mask input =
    let (second, size_bytes) = length_fields (length input) in
    (opcode + 0x80)
    ∷ (second + mask_bit mask)
    ∷ (size_bytes ++ (mask_bytes mask ++ masked mask input))
