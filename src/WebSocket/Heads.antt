-- ===== src/WebSocket/Heads.antt =====
-- The steps of `src/websocket/websocket_stream.rs` between the head of a data frame and its content.
use shoes_on_shuttle.Net.Types.{be_number}
use shoes_on_shuttle.Common.Holds.{Holds-length, Holds-take}
use shoes_on_shuttle.Common.{
  drop_front, take_front, append-nil, length-append, Bool, true, false, Option, none, some, Bytes,
  [], ◌∷◌, ◌++◌, ◌∙◌, sym, ap, refl, arith, length, ◌≡◌, ◌+◌, ◌≤◌, ◌==◌, if◌then◌else◌, ltb,
}
use shoes_on_shuttle.WebSocket.Decode.{
  check_content, check_data, step_check_content, step_read_mask, after_length, step_read_length,
}
use mathlib.Core.Path.{subst}
use shoes_on_shuttle.WebSocket.Ahead.{Ahead, advance-Ahead}
use shoes_on_shuttle.WebSocket.Masking.{scrambled}
use shoes_on_shuttle.WebSocket.Types.{init, unprocessed_len, advance, OpCode, ReadState}
use shoes_on_shuttle.WebSocket.Frame.{apply_mask, masked, mask_bytes}
use shoes_on_shuttle.WebSocket.Content.{Reading, Pull, with_ws, enter, bytes_ahead}
use shoes_on_shuttle.WebSocket.Taken.{Headed, GoesOn, step_read_binary_content-all}

scrambled_nil : (b : Bool) (key : Bytes) → ◌≡◌ {A = Bytes} (scrambled b key []) []
unfolding apply_mask
scrambled_nil true key = refl
scrambled_nil false key = refl

enter-Headed :
    (state : ReadState) (r : Reading) (b : Bool) (key payload rest : Bytes)
    → Headed r b key payload rest
    → Headed (with_ws (enter state) r) b key payload rest
enter-Headed state r b key payload rest h = record {
  is_masked = h.is_masked;
  key_is = h.key_is;
  offset = h.offset;
  whole_length = h.whole_length;
  ahead = h.ahead;
  fits = h.fits;
}

check_data-all :
    (again : Pull) (r : Reading) (b : Bool) (key payload rest : Bytes)
    → Headed r b key payload rest
    → GoesOn again (check_data again r) rest (r.filled ++ payload) r.capacity
unfolding check_data
check_data-all again r b key [] rest h =
    let none : (r.ws.read_frame_length == 0) ≡ true = ground (arith, h.whole_length) in
    record {
      next = with_ws (enter init) r;
      goes = rw (none, if◌then◌else◌) refl;
      between = record {
        ahead = subst (λ (xs : Bytes). Ahead r.ws (xs ++ rest)) (scrambled_nil b key) h.ahead;
        offset = h.offset;
        filled_so_far = sym (append-nil r.filled);
        same_capacity = refl;
      };
    }
check_data-all again r b key (x ∷ payload) rest h =
    let some_bytes : (r.ws.read_frame_length == 0) ≡ false = ground (arith, h.whole_length) in
    let content =
      step_read_binary_content-all (with_ws (enter ReadState.read_binary_content) r) b key
        (x ∷ payload) rest (enter-Headed ReadState.read_binary_content r b key (x ∷ payload) rest h)
        again (omega arith) in
    record {
      next = content.next;
      goes = rw (some_bytes, if◌then◌else◌) content.goes;
      between = content.between;
    }

abbrev pub has_mask : Option Bytes → Bool
has_mask none = false
has_mask (some key) = true

abbrev pub Key : Option Bytes → Type 0
Key none = Unit
Key (some key) = length key ≡ 4

-- A data frame whose mask, if any, and content are to come.
pub record Sized (r : Reading) (key : Option Bytes) (payload rest : Bytes) : Type 0 where
  pub opcode : r.ws.read_frame_opcode ≡ OpCode.binary
  pub is_masked : r.ws.read_frame_masked ≡ has_mask key
  pub offset : r.ws.read_frame_mask_offset ≡ 0
  pub whole_length : r.ws.read_frame_length ≡ length payload
  pub ahead : Ahead r.ws (mask_bytes key ++ (masked key payload ++ rest))
  pub fits : length r.filled + length payload ≤ r.capacity

check_content-all :
    (again : Pull) (r : Reading) (b : Bool) (key payload rest : Bytes)
    → r.ws.read_frame_opcode ≡ OpCode.binary
    → Headed r b key payload rest
    → GoesOn again (step_check_content again r) rest (r.filled ++ payload) r.capacity
unfolding step_check_content
check_content-all again r b key payload rest binary h =
    subst
      (λ (o : OpCode). GoesOn again (check_content o again r) rest (r.filled ++ payload) r.capacity)
      (sym binary) (check_data-all again r b key payload rest h)

read_mask-all :
    (again : Pull) (r : Reading) (key payload rest : Bytes)
    → length key ≡ 4
    → Sized r (some key) payload rest
    → GoesOn again (step_read_mask again r) rest (r.filled ++ payload) r.capacity
unfolding step_read_mask advance
read_mask-all again r key payload rest four h =
    let start = r.ws.unprocessed_start_offset in
    let end = r.ws.unprocessed_end_offset in
    let content = masked (some key) payload ++ rest in
    let size = Holds-length r.ws.unprocessed_buf start end (key ++ content) h.ahead in
    let enough : ltb (unprocessed_len r.ws) 4 ≡ false =
      ground (arith, size, length-append key content, four) in
    let fits : 4 ≤ length (key ++ content) = omega (arith, length-append key content, four) in
    let read : Reading =
      with_ws (λ s. record (advance 4 s) { read_frame_mask = bytes_ahead s 4 }) r in
    let headed : Headed read true key payload rest = record {
      is_masked = h.is_masked;
      key_is =
          Holds-take r.ws.unprocessed_buf start end (key ++ content) h.ahead 4 fits
          ∙ take_front 4 key content (sym four);
      offset = h.offset;
      whole_length = h.whole_length;
      ahead =
          subst (λ (xs : Bytes). Ahead (advance 4 r.ws) xs) (drop_front 4 key content (sym four))
            (advance-Ahead 4 r.ws (key ++ content) h.ahead fits);
      fits = h.fits;
    } in
    rw (enough, if◌then◌else◌) (check_content-all again read true key payload rest h.opcode headed)

pub after_length-all :
    (again : Pull) (r : Reading) (key : Option Bytes) (payload rest : Bytes)
    → Key key
    → Sized r key payload rest
    → GoesOn again (after_length again r) rest (r.filled ++ payload) r.capacity
unfolding after_length
after_length-all again r none payload rest k h =
    let headed : Headed r false r.ws.read_frame_mask payload rest = record {
      is_masked = h.is_masked;
      key_is = refl;
      offset = h.offset;
      whole_length = h.whole_length;
      ahead = h.ahead;
      fits = h.fits;
    } in
    subst
      (λ (m : Bool).
        GoesOn again
          (if m
            then step_read_mask again (with_ws (enter ReadState.read_mask) r)
            else step_check_content again r)
          rest (r.filled ++ payload) r.capacity)
      (sym h.is_masked)
      (check_content-all again r false r.ws.read_frame_mask payload rest h.opcode headed)
after_length-all again r (some key) payload rest four h =
    let r' = with_ws (enter ReadState.read_mask) r in
    let sized : Sized r' (some key) payload rest = record {
      opcode = h.opcode;
      is_masked = h.is_masked;
      offset = h.offset;
      whole_length = h.whole_length;
      ahead = h.ahead;
      fits = h.fits;
    } in
    subst
      (λ (m : Bool).
        GoesOn again
          (if m
            then step_read_mask again (with_ws (enter ReadState.read_mask) r)
            else step_check_content again r)
          rest (r.filled ++ payload) r.capacity)
      (sym h.is_masked) (read_mask-all again r' key payload rest four sized)

pub step_read_length-all :
    (again : Pull) (r : Reading) (size : Bytes) (key : Option Bytes) (payload rest : Bytes)
    → Key key
    → be_number size 0 ≡ length payload
    → length payload ≤ 0x7fffffffffffffff
    → r.ws.read_frame_opcode ≡ OpCode.binary
    → r.ws.read_frame_masked ≡ has_mask key
    → r.ws.read_frame_mask_offset ≡ 0
    → length r.filled + length payload ≤ r.capacity
    → Ahead r.ws (size ++ (mask_bytes key ++ (masked key payload ++ rest)))
    → GoesOn again (step_read_length again (length size) r) rest (r.filled ++ payload) r.capacity
unfolding step_read_length advance
step_read_length-all again r size key payload rest k number small opcode is_masked offset fits h =
    let n = length size in
    let start = r.ws.unprocessed_start_offset in
    let end = r.ws.unprocessed_end_offset in
    let tail = mask_bytes key ++ (masked key payload ++ rest) in
    let whole = Holds-length r.ws.unprocessed_buf start end (size ++ tail) h in
    let inside : n ≤ length (size ++ tail) = omega (arith, length-append size tail) in
    let enough : ltb (unprocessed_len r.ws) n ≡ false = ground (arith, whole, inside) in
    let here : bytes_ahead r.ws n ≡ size =
      Holds-take r.ws.unprocessed_buf start end (size ++ tail) h n inside
      ∙ take_front n size tail refl in
    let value : be_number (bytes_ahead r.ws n) 0 ≡ length payload =
      ap (λ (b : Bytes). be_number b 0) here ∙ number in
    let valid : ltb 0x7fffffffffffffff (be_number (bytes_ahead r.ws n) 0) ≡ false =
      ground (arith, value) in
    let read =
      with_ws (λ s. record (advance n s) { read_frame_length = be_number (bytes_ahead s n) 0 }) r in
    let sized : Sized read key payload rest = record {
      opcode = opcode;
      is_masked = is_masked;
      offset = offset;
      whole_length = value;
      ahead =
          subst (λ (xs : Bytes). Ahead (advance n r.ws) xs) (drop_front n size tail refl)
            (advance-Ahead n r.ws (size ++ tail) h inside);
      fits = fits;
    } in
    rw (enough, if◌then◌else◌, valid) (after_length-all again read key payload rest k sized)
