-- ===== src/WebSocket/Decoded.antt =====
-- `step_init` of `src/websocket/websocket_stream.rs` on the frames that `pack_frame` writes.
use mathlib.Core.Path.{subst}
use shoes_on_shuttle.Net.Types.{u64_number, u64_bytes, be_number, to_be_bytes}
use shoes_on_shuttle.WebSocket.Decode.{start_frame, step_read_length, start_length}
use shoes_on_shuttle.Common.{
  none, some, ◌%◌, leb, ℕ, false, Option, Bytes, [], ◌++◌, sym, refl, arith, length, ◌≡◌, ◌+◌, ◌≤◌,
  ◌<◌, ◌==◌, if◌then◌else◌, inl, inr, lt-or-le,
}
use shoes_on_shuttle.WebSocket.Ahead.{Ahead}
use shoes_on_shuttle.WebSocket.Types.{OpCode, ReadState}
use shoes_on_shuttle.WebSocket.Frame.{mask_bit, masked, mask_bytes, length_fields}
use shoes_on_shuttle.WebSocket.Content.{Reading, Pull, with_ws, enter}
use shoes_on_shuttle.WebSocket.Taken.{GoesOn}
use shoes_on_shuttle.WebSocket.Heads.{Key, has_mask, after_length-all, step_read_length-all, Sized}

-- A data frame behind its first two bytes.
record Opened (r : Reading) (size : Bytes) (key : Option Bytes) (payload rest : Bytes)
    : Type 0 where
  opcode : r.ws.read_frame_opcode ≡ OpCode.binary
  is_masked : r.ws.read_frame_masked ≡ has_mask key
  offset : r.ws.read_frame_mask_offset ≡ 0
  ahead : Ahead r.ws (size ++ (mask_bytes key ++ (masked key payload ++ rest)))
  fits : length r.filled + length payload ≤ r.capacity

u16_number : (n : ℕ) → n < 65536 → be_number (to_be_bytes n) 0 ≡ n
u16_number n h = omega arith

code_below : (n : ℕ) → (length_fields n).0 < 128
code_below n = ground arith

masking :
    (key : Option Bytes) (code second : ℕ)
    → code < 128
    → second ≡ code + mask_bit key
    → (leb 128 second ≡ has_mask key) × (second % 128 ≡ code)
masking none code second h e = (ground arith, omega arith)
masking (some key) code second h e = (ground arith, omega arith)

module _ (again : Pull) (key : Option Bytes) (payload rest : Bytes) (k : Key key)
    (small : length payload ≤ 0x7fffffffffffffff) where
  short_length-all :
      (r : Reading)
      → length payload < 126
      → Opened r [] key payload rest
      → GoesOn again (start_length again (length payload) r) rest (r.filled ++ payload) r.capacity
  unfolding start_length
  short_length-all r below h =
      let n = length payload in
      let r' = with_ws (λ s. record s { read_frame_length = n }) r in
      let not_126 : (n == 126) ≡ false = ground arith in
      let not_127 : (n == 127) ≡ false = ground arith in
      let sized : Sized r' key payload rest = record {
        opcode = h.opcode;
        is_masked = h.is_masked;
        offset = h.offset;
        whole_length = refl;
        ahead = h.ahead;
        fits = h.fits;
      } in
      rw (not_126, not_127, if◌then◌else◌) (after_length-all again r' key payload rest k sized)

  long_length-all :
      (r : Reading) (size : Bytes)
      → be_number size 0 ≡ length payload
      → Opened r size key payload rest
      → GoesOn again
          (step_read_length again
            (length size)
            (with_ws (enter (ReadState.read_length (length size))) r))
          rest
          (r.filled ++ payload)
          r.capacity
  long_length-all r size number h =
      step_read_length-all again (with_ws (enter (ReadState.read_length (length size))) r) size key
        payload rest k number small h.opcode h.is_masked h.offset h.fits h.ahead

  start_length-all :
      (r : Reading)
      → Opened r (length_fields (length payload)).1 key payload rest
      → GoesOn again
          (start_length again (length_fields (length payload)).0 r)
          rest
          (r.filled ++ payload)
          r.capacity
  unfolding start_length
  start_length-all r =
      let n = length payload in
      let Goal = λ (f : ℕ × Bytes).
        Opened r f.1 key payload rest
        → GoesOn again (start_length again f.0 r) rest (r.filled ++ payload) r.capacity in
      elim (lt-or-le n 126) [
        | inl below ↦
            let fields : length_fields n ≡ (n, []) = ground arith in
            subst Goal (sym fields) (short_length-all r below)
        | inr over ↦ elim (lt-or-le n 65536) [
          | inl below ↦
              let fields : length_fields n ≡ (126, to_be_bytes n) = ground arith in
              subst Goal (sym fields) (long_length-all r (to_be_bytes n) (u16_number n below))
          | inr above ↦
              let fields : length_fields n ≡ (127, u64_bytes n) = ground arith in
              subst Goal (sym fields) (long_length-all r (u64_bytes n) (u64_number n (omega arith)))
        ]
      ]

  second_byte :
      (second : ℕ)
      → second ≡ (length_fields (length payload)).0 + mask_bit key
      → (leb 128 second ≡ has_mask key) × (second % 128 ≡ (length_fields (length payload)).0)
  second_byte second e =
      masking key (length_fields (length payload)).0 second (code_below (length payload)) e

  pub start_frame-all :
      (r : Reading) (second : ℕ)
      → second ≡ (length_fields (length payload)).0 + mask_bit key
      → r.ws.read_frame_mask_offset ≡ 0
      → Ahead r.ws
          ((length_fields (length payload)).1 ++ (mask_bytes key ++ (masked key payload ++ rest)))
      → length r.filled + length payload ≤ r.capacity
      → GoesOn again (start_frame again 130 second r) rest (r.filled ++ payload) r.capacity
  unfolding start_frame
  start_frame-all r second e offset ahead fits =
      let (bit, low) = second_byte second e in
      let started =
        with_ws
          (λ s. record s { read_frame_masked = leb 128 second; read_frame_opcode = OpCode.binary })
          r in
      let opened : Opened started (length_fields (length payload)).1 key payload rest = record {
        opcode = refl;
        is_masked = bit;
        offset = offset;
        ahead = ahead;
        fits = fits;
      } in
      subst
        (λ (n : ℕ).
          GoesOn again (start_length again n started) rest (r.filled ++ payload) r.capacity)
        (sym low) (start_length-all started opened)
